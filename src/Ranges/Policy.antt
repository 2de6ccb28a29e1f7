-- ===== src/Ranges/Policy.antt =====
-- What `snapshot_walk_check_range` of src/memory.c decides, without the two addresses it remembers.
use afl_snapshot_lkm.Base.{
  ℕ, ◌≤◌, ◌<◌, ◌≡◌, refl, sym, ◌⊎◌, Bool, true, false, ◌&&◌, ◌||◌, ltb, if◌then◌else◌, Option, none,
  some, List, [], ◌∷◌, arith, has_flag, Option-cases, inl, inr, Bool-cases,
}
use afl_snapshot_lkm.Task.{Vmrange, TaskData}
use afl_snapshot_lkm.Ranges.{
  afl_snapshot_block, intersect, contains, Action, action_subtree, action_continue, check_slow,
  WalkData, check_allowed, check_default,
}

-- A range of the list holds all of `[addr, next)`.
unfoldable pub covered : List Vmrange → ℕ → ℕ → Bool
covered [] addr next = false
covered (n ∷ ns) addr next = contains n addr next || covered ns addr next

-- A range of the list meets `[addr, next)`.
unfoldable pub overlapping : List Vmrange → ℕ → ℕ → Bool
overlapping [] addr next = false
overlapping (n ∷ ns) addr next = (ltb n.start next && ltb addr n.end) || overlapping ns addr next

-- The decision that the lists and the configuration call for: the blocklist first, then the
-- allowlist, then AFL_SNAPSHOT_BLOCK.
unfoldable pub policy : TaskData → ℕ → ℕ → Action
policy d addr next =
    if covered d.blocklist addr next
    then action_continue
    else if overlapping d.allowlist addr next
    then action_subtree
    else if has_flag afl_snapshot_block d.config
    then action_continue
    else action_subtree

pub policy-covered :
    (d : TaskData) (addr next : ℕ)
    → covered d.blocklist addr next ≡ true
    → policy d addr next ≡ action_continue
unfolding policy
policy-covered d addr next c = rw c

-- Two ranges share no address.
abbrev pub Apart : Vmrange → Vmrange → Type 0
Apart m n = (m.end ≤ n.start) ⊎ (n.end ≤ m.start)

abbrev pub ApartFrom : Vmrange → List Vmrange → Type 0
ApartFrom m [] = Unit {0}
ApartFrom m (n ∷ ns) = Apart m n × ApartFrom m ns

abbrev pub AllApart : List Vmrange → List Vmrange → Type 0
AllApart [] ns = Unit {0}
AllApart (m ∷ ms) ns = ApartFrom m ns × AllApart ms ns

abbrev pub Separate : List Vmrange → Type 0
Separate [] = Unit {0}
Separate (n ∷ ns) = ApartFrom n ns × Separate ns

pub intersect-none :
    (ns : List Vmrange) (addr next : ℕ)
    → intersect ns addr next ≡ none
    → overlapping ns addr next ≡ false
unfolding intersect overlapping
intersect-none [] addr next e = refl
intersect-none (n ∷ ns) addr next e = ground (arith, intersect-none ns addr next)

pub intersect-some :
    (ns : List Vmrange) (addr next : ℕ) (r : Vmrange)
    → intersect ns addr next ≡ some r
    → overlapping ns addr next ≡ true
unfolding intersect overlapping
intersect-some [] addr next r e = ground arith
intersect-some (n ∷ ns) addr next r e = ground (arith, intersect-some ns addr next r)

pub intersect-covered :
    (ns : List Vmrange) (addr next : ℕ) (r : Vmrange)
    → intersect ns addr next ≡ some r
    → contains r addr next ≡ true
    → covered ns addr next ≡ true
unfolding intersect covered
intersect-covered [] addr next r e h = ground arith
intersect-covered (n ∷ ns) addr next r e h = ground (arith, intersect-covered ns addr next r)

-- A range that meets `[addr, next)` keeps the ranges apart from it from holding all of it.
pub not_covered_of_apart :
    (r : Vmrange) (ns : List Vmrange) (addr next : ℕ)
    → addr < next
    → ApartFrom r ns
    → r.start < next
    → addr < r.end
    → covered ns addr next ≡ false
unfolding covered
not_covered_of_apart r [] addr next h p s e = refl
not_covered_of_apart r (n ∷ ns) addr next h p s e =
    ground (arith, p.0, not_covered_of_apart r ns addr next h p.1 s e)

pub intersect-not_covered :
    (ns : List Vmrange) (addr next : ℕ) (r : Vmrange)
    → addr < next
    → Separate ns
    → intersect ns addr next ≡ some r
    → contains r addr next ≡ false
    → covered ns addr next ≡ false
unfolding intersect covered
intersect-not_covered [] addr next r h p e c = refl
intersect-not_covered (n ∷ ns) addr next r h p e c =
    elim (Bool-cases (ltb n.start next && ltb addr n.end)) [
      | inl hit ↦ ground (arith, not_covered_of_apart n ns addr next h p.0)
      | inr miss ↦ ground (arith, intersect-not_covered ns addr next r h p.1)
    ]

-- Both tests get weaker on a larger range.
pub covered_mono :
    (ns : List Vmrange) (a n addr next : ℕ)
    → addr ≤ a
    → n ≤ next
    → covered ns addr next ≡ true
    → covered ns a n ≡ true
unfolding covered
covered_mono [] a n addr next p q h = h
covered_mono (m ∷ ms) a n addr next p q h = ground (arith, covered_mono ms a n addr next p q)

pub overlapping_mono :
    (ns : List Vmrange) (a n addr next : ℕ)
    → addr ≤ a
    → n ≤ next
    → overlapping ns addr next ≡ false
    → overlapping ns a n ≡ false
unfolding overlapping
overlapping_mono [] a n addr next p q h = h
overlapping_mono (m ∷ ms) a n addr next p q h =
    ground (arith, overlapping_mono ms a n addr next p q)

-- What a list holds, it meets.
pub covered-overlapping :
    (ns : List Vmrange) (a n : ℕ) → a < n → overlapping ns a n ≡ false → covered ns a n ≡ false
unfolding covered overlapping
covered-overlapping [] a n h o = refl
covered-overlapping (m ∷ ms) a n h o = ground (arith, covered-overlapping ms a n h)

-- If the walk is told to skip a range, it would be told so for every range inside it: what
-- `snapshot_pud_entry` and `snapshot_pmd_entry` cut off holds no page to snapshot.
pub policy_skip_sound :
    (d : TaskData) (addr next a n : ℕ)
    → policy d addr next ≡ action_continue
    → addr ≤ a
    → n ≤ next
    → policy d a n ≡ action_continue
unfolding policy
policy_skip_sound d addr next a n h p q = ground (
  arith,
  covered_mono d.blocklist a n addr next p q,
  overlapping_mono d.allowlist a n addr next p q,
)

check_allowed-policy :
    (d : TaskData) (w : WalkData) (addr next : ℕ) (blocked : Option Vmrange)
    → covered d.blocklist addr next ≡ false
    → (check_allowed d w addr next blocked).1 ≡ policy d addr next
unfolding check_allowed check_default policy
check_allowed-policy d w addr next blocked c =
    elim (Option-cases (intersect d.allowlist addr next)) [
      | inl e ↦ ground (arith, intersect-none d.allowlist addr next e)
      | inr (r, e) ↦ ground (arith, intersect-some d.allowlist addr next r e)
    ]

-- Without the remembered addresses the code decides by the policy, if no two ranges of the
-- blocklist overlap.
pub check_slow-policy :
    (d : TaskData) (w : WalkData) (addr next : ℕ)
    → addr < next
    → Separate d.blocklist
    → (check_slow d w addr next).1 ≡ policy d addr next
unfolding check_slow
check_slow-policy d w addr next h p = elim (Option-cases (intersect d.blocklist addr next)) [
  | inl e ↦
      rw (e, check_slow)
        (check_allowed-policy d w addr next none
          (covered-overlapping d.blocklist addr next h (intersect-none d.blocklist addr next e)))
  | inr (b, e) ↦ elim (Bool-cases (contains b addr next)) [
    | inl c ↦
        rw (e, check_slow)
          (rw c (sym (policy-covered d addr next (intersect-covered d.blocklist addr next b e c))))
    | inr c ↦
        rw (e, check_slow)
          (rw c (
            check_allowed-policy d w addr next (some b)
              (intersect-not_covered d.blocklist addr next b h p e c)))
  ]
]
