-- ===== src/Regions/Round.antt =====
-- One round of the sweep of `restore_vmas`, src/memory.c.
use afl_snapshot_lkm.Base.{
  ℕ, ◌≤◌, ◌<◌, ◌%◌, ◌≡◌, refl, sym, subst, Bool, true, false, not, ◌&&◌, ◌||◌, leb, ◌==◌,
  if◌then◌else◌, List, [], ◌∷◌, arith, eq_false,
}
use afl_snapshot_lkm.Page.{page_size}
use afl_snapshot_lkm.Task.{SnapshotVma}
use afl_snapshot_lkm.Regions.{VmaOps, Sweep, ulong_max, next_cursor, advance, is_nil, next_vma_iter}
use afl_snapshot_lkm.Regions.Spans.{
  Span, inside, At, next_pos, left_spans, left_in, positions, next_pos-le, left-At, left-inside,
}
use afl_snapshot_lkm.Regions.Space.{
  Chain, VmaLaws, next_vma_pos-Chain, spans, next_ss_vma_pos-spans, left_ss, bridges_free,
}

-- The sweep is at the start of the region, or past the last gap that the region reaches into.
abbrev pub ahead : ℕ → List Span → List SnapshotVma → Bool
ahead c [] ss = true
ahead c (v ∷ vs) [] = true
ahead c (v ∷ vs) (r ∷ rs) = v.0 == c || leb v.1 r.vm_start || leb r.vm_start c

-- The positions of the two lists.
module _ (c : ℕ) (bv bs : Bool) (vs : List Span) (ss : List SnapshotVma) where
  abbrev pub Positions : Type 0
  Positions = (c < ulong_max) × (c % page_size ≡ 0) × At c bv vs × At c bs (spans ss)

  -- The lower one of the next two.
  abbrev pub lower_pos : ℕ
  lower_pos =
      if leb (next_pos bv vs) (next_pos bs (spans ss))
      then next_pos bv vs
      else next_pos bs (spans ss)

next_pos-bounds :
    (c : ℕ) (b : Bool) (r : Span) (rs : List Span)
    → At c b (r ∷ rs)
    → (next_pos b (r ∷ rs) < ulong_max) × (next_pos b (r ∷ rs) % page_size ≡ 0)
unfolding next_pos
next_pos-bounds c true r rs a = (a.2.1, a.2.3)
next_pos-bounds c false r rs a = (omega arith, a.1.2)

-- While something is left, the next position is one of whole pages below the top.
pub lower_pos-bounds :
    (c : ℕ) (bv bs : Bool) (vs : List Span) (ss : List SnapshotVma)
    → Positions c bv bs vs ss
    → (is_nil vs && is_nil ss) ≡ false
    → (c ≤ lower_pos c bv bs vs ss)
      × (lower_pos c bv bs vs ss < ulong_max)
      × (lower_pos c bv bs vs ss % page_size ≡ 0)
      × (lower_pos c bv bs vs ss ≤ next_pos bv vs)
      × (lower_pos c bv bs vs ss ≤ next_pos bs (spans ss))
unfolding next_pos
lower_pos-bounds c bv bs [] [] p h = absurd (cc)
lower_pos-bounds c bv bs [] (s ∷ ss) p h =
    let b = next_pos-bounds c bs (s.vm_start, s.vm_end) (spans ss) p.3 in
    let l = next_pos-le c bs (spans (s ∷ ss)) p.3 (omega arith) in ground arith
lower_pos-bounds c bv bs (v ∷ vs) [] p h =
    let b = next_pos-bounds c bv v vs p.2 in
    let l = next_pos-le c bv (v ∷ vs) p.2 (omega arith) in ground arith
lower_pos-bounds c bv bs (v ∷ vs) (s ∷ ss) p h =
    let b = next_pos-bounds c bv v vs p.2 in
    let l = next_pos-le c bv (v ∷ vs) p.2 (omega arith) in
    let b' = next_pos-bounds c bs (s.vm_start, s.vm_end) (spans ss) p.3 in
    let l' = next_pos-le c bs (spans (s ∷ ss)) p.3 (omega arith) in ground arith

-- What is left of the regions after a round: all, or all but the first, or all with a later start.
pub data Left (n : ℕ) (b : Bool) (vs : List Span) (vs' : List Span) : Type 0 where
  kept : vs' ≡ left_spans n b vs → Left n b vs vs'
  cut :
      (r : Span) (rs : List Span)
      → vs ≡ r ∷ rs
      → b ≡ true
      → r.0 ≤ n
      → n < r.1
      → vs' ≡ (n, r.1) ∷ rs
      → Left n b vs vs'

pub Left-At :
    (c n : ℕ) (b : Bool) (vs vs' : List Span)
    → Left n b vs vs'
    → At c b vs
    → c ≤ n
    → n ≤ next_pos b vs
    → n < ulong_max
    → n % page_size ≡ 0
    → At n (left_in n b vs) vs'
unfolding next_pos
Left-At c n b vs vs' (kept e) a h k l q =
    subst (At n (left_in n b vs)) (sym e) (left-At c n b vs a h k l)
Left-At c n b vs vs' (cut r rs e t u v f) a h k l q =
    let a' = subst (λ x. At c b x) e a in
    let s = subst (λ x. At c x (r ∷ rs)) t a' in
    let below = eq_false n r.1 (omega arith) in
    rw (e, t, f, below) (omega arith, v, (v, s.2.1, q, s.2.3), s.3)

pub Left-inside :
    (c n a : ℕ) (b : Bool) (vs vs' : List Span)
    → Left n b vs vs'
    → At c b vs
    → n ≤ a
    → inside vs' a ≡ inside vs a
unfolding inside
Left-inside c n a b vs vs' (kept e) s h = rw e (left-inside c n a b vs s h)
Left-inside c n a b vs vs' (cut r rs e t u v f) s h = rw (e, f) (ground arith)

pub Left-positions :
    (n : ℕ) (b b' : Bool) (vs vs' : List Span)
    → Left n b vs vs'
    → positions b' vs' ≡ positions b' (left_spans n b vs)
unfolding positions next_pos
Left-positions n b b' vs vs' (kept e) = rw e refl
Left-positions n b b' vs vs' (cut r rs e t u v f) = rw (e, f, t) ground arith

module _ {M : Type 0} (o : VmaOps M) (mapped : M → ℕ → Bool) (laws : VmaLaws o mapped) where
  -- What holds at the head of the loop, when `vs` is what is left of the regions.
  pub record Held (w : Sweep M) (vs : List Span) : Type 0 where
    pub chain : Chain o w.mm w.vma_iter vs
    pub places : Positions w.cursor w.in_vmas w.in_ss_vmas vs w.ss_vmas
    pub agree : (a : ℕ) → w.cursor ≤ a → mapped w.mm a ≡ inside vs a
    pub unbridged : bridges_free vs w.ss_vmas ≡ true
    pub clear : w.in_vmas ≡ true → w.in_ss_vmas ≡ false → ahead w.cursor vs w.ss_vmas ≡ true

  abbrev pub low : Sweep M → List Span → ℕ
  low w vs = lower_pos w.cursor w.in_vmas w.in_ss_vmas vs w.ss_vmas

  pub next_cursor-low : (w : Sweep M) (vs : List Span) → Held w vs → next_cursor o w ≡ low w vs
  unfolding next_cursor
  next_cursor-low w vs h = λ i.
      if leb (next_vma_pos-Chain o w.mm w.in_vmas w.vma_iter vs h.chain i)
        (next_ss_vma_pos-spans w.in_ss_vmas w.ss_vmas i)
      then next_vma_pos-Chain o w.mm w.in_vmas w.vma_iter vs h.chain i
      else next_ss_vma_pos-spans w.in_ss_vmas w.ss_vmas i

  -- The state after a round that goes on in `m`, where `n` is the next position, `vp` and `sp` those
  -- of the lists.
  abbrev pub moved : Sweep M → M → ℕ → ℕ → ℕ → Sweep M
  moved w m n vp sp = record {
    mm = m;
    vma_iter = if n == vp && w.in_vmas then next_vma_iter o w.mm w.vma_iter else w.vma_iter;
    ss_vmas = left_ss n w.in_ss_vmas w.ss_vmas;
    cursor = n;
    in_vmas = if n == vp then not w.in_vmas else w.in_vmas;
    in_ss_vmas = if n == sp then not w.in_ss_vmas else w.in_ss_vmas;
  }

  abbrev pub after : Sweep M → List Span → M → Sweep M
  after w vs m =
      moved w m (low w vs) (next_pos w.in_vmas vs) (next_pos w.in_ss_vmas (spans w.ss_vmas))

  pub advance-after :
      (w : Sweep M) (vs : List Span) (m : M)
      → Held w vs
      → advance o w (next_cursor o w) m ≡ after w vs m
  unfolding advance
  advance-after w vs m h = λ i.
      moved w m (next_cursor-low w vs h i)
        (next_vma_pos-Chain o w.mm w.in_vmas w.vma_iter vs h.chain i)
        (next_ss_vma_pos-spans w.in_ss_vmas w.ss_vmas i)
