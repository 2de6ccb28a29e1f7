-- ===== src/Regions/Spans.antt =====
-- A sweep over one list of disjoint spans in ascending order, as `restore_vmas` of src/memory.c makes
-- over each of its two lists: the next position, and what is left once it is reached.
use afl_snapshot_lkm.Base.{
  ℕ, ◌+◌, ◌≤◌, ◌<◌, ◌%◌, ◌≡◌, refl, Bool, true, false, not, ◌&&◌, ◌||◌, ltb, leb, ◌==◌,
  if◌then◌else◌, List, [], ◌∷◌, arith, Bool-cases, inl, inr, eq_false,
}
use afl_snapshot_lkm.Page.{page_size}
use afl_snapshot_lkm.Regions.{ulong_max}

abbrev pub Span : Type 0
Span = ℕ × ℕ

abbrev pub within : Span → ℕ → Bool
within r a = leb r.0 a && ltb a r.1

unfoldable pub inside : List Span → ℕ → Bool
inside [] a = false
inside (r ∷ rs) a = within r a || inside rs a

-- Whole pages below the top of the address space.
abbrev pub IsSpan : Span → Type 0
IsSpan r = (r.0 < r.1) × (r.1 < ulong_max) × (r.0 % page_size ≡ 0) × (r.1 % page_size ≡ 0)

-- The spans are disjoint and ascend from `lo`.
abbrev pub Ascend : ℕ → List Span → Type 0
Ascend lo [] = Unit {0}
Ascend lo (r ∷ rs) = (lo ≤ r.0) × IsSpan r × Ascend r.1 rs

-- The sweep is at `c`, and inside the first span if `b` is true.
abbrev pub At : ℕ → Bool → List Span → Type 0
At c false rs = Ascend c rs
At c true [] = ⊥
At c true (r ∷ rs) = (r.0 ≤ c) × (c < r.1) × IsSpan r × Ascend r.1 rs

unfoldable pub next_pos : Bool → List Span → ℕ
next_pos b [] = ulong_max
next_pos b (r ∷ rs) = if b then r.1 else r.0

abbrev pub rest : List Span → List Span
rest [] = []
rest (r ∷ rs) = rs

-- What is left at `c`.
abbrev pub left_spans : ℕ → Bool → List Span → List Span
left_spans c b rs = if c == next_pos b rs && b then rest rs else rs

abbrev pub left_in : ℕ → Bool → List Span → Bool
left_in c b rs = if c == next_pos b rs then not b else b

-- The number of positions left.
unfoldable pub positions : Bool → List Span → ℕ
positions b [] = 0
positions b (r ∷ rs) = (if b then 1 else 2) + positions false rs

pub Ascend-lower : (lo lo' : ℕ) (rs : List Span) → lo' ≤ lo → Ascend lo rs → Ascend lo' rs
Ascend-lower lo lo' [] h a = tt
Ascend-lower lo lo' (r ∷ rs) h a = (omega arith, a.1, a.2)

-- Below the first span nothing is inside.
pub inside-below : (lo a : ℕ) (rs : List Span) → Ascend lo rs → a < lo → inside rs a ≡ false
unfolding inside
inside-below lo a [] s h = refl
inside-below lo a (r ∷ rs) s h = ground (arith, inside-below r.1 a rs s.2)

-- Up to the next position nothing changes.
pub inside-to_next :
    (c a : ℕ) (b : Bool) (rs : List Span) → At c b rs → c ≤ a → a < next_pos b rs → inside rs a ≡ b
unfolding inside next_pos
inside-to_next c a true [] s h k = absurd s
inside-to_next c a true (r ∷ rs) s h k = ground arith
inside-to_next c a false [] s h k = refl
inside-to_next c a false (r ∷ rs) s h k = ground (arith, inside-below r.1 a rs s.2)

pub next_pos-le :
    (c : ℕ) (b : Bool) (rs : List Span) → At c b rs → c ≤ ulong_max → c ≤ next_pos b rs
unfolding next_pos
next_pos-le c true [] s h = absurd s
next_pos-le c true (r ∷ rs) s h = ground arith
next_pos-le c false [] s h = h
next_pos-le c false (r ∷ rs) s h = ground arith

-- The sweep may go on to any position up to the next one.
pub left-At :
    (c n : ℕ) (b : Bool) (rs : List Span)
    → At c b rs
    → c ≤ n
    → n ≤ next_pos b rs
    → n < ulong_max
    → At n (left_in n b rs) (left_spans n b rs)
unfolding next_pos
left-At c n true [] s h k l = absurd s
left-At c n true (r ∷ rs) s h k l = elim (Bool-cases (n == r.1)) [
  | inl e ↦ rw e (Ascend-lower r.1 n rs (ground arith) s.3)
  | inr e ↦ rw e (omega arith, ground arith, s.2, s.3)
]
left-At c n false [] s h k l = rw (eq_false n ulong_max (omega arith)) tt
left-At c n false (r ∷ rs) s h k l = elim (Bool-cases (n == r.0)) [
  | inl e ↦ rw e (ground arith, ground arith, s.1, s.2)
  | inr e ↦ rw e (ground arith, s.1, s.2)
]

-- Above the position what is left is what was there.
pub left-inside :
    (c n a : ℕ) (b : Bool) (rs : List Span)
    → At c b rs
    → n ≤ a
    → inside (left_spans n b rs) a ≡ inside rs a
unfolding inside next_pos
left-inside c n a true [] s h = absurd s
left-inside c n a true (r ∷ rs) s h = ground arith
left-inside c n a false rs s h = ground arith

-- One position is used up where the sweep stops at the next one.
pub positions-left :
    (n : ℕ) (b : Bool) (rs : List Span)
    → n < ulong_max
    → positions b rs
      ≡ (if n == next_pos b rs then 1 else 0) + positions (left_in n b rs) (left_spans n b rs)
unfolding positions next_pos
positions-left n b [] h = ground arith
positions-left n true (r ∷ rs) h = ground arith
positions-left n false (r ∷ rs) h = ground arith
