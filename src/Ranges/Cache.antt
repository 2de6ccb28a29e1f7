-- ===== src/Ranges/Cache.antt =====
-- What the two addresses mean that `snapshot_walk_check_range` of src/memory.c remembers between
-- ranges.
use afl_snapshot_lkm.Base.{
  ℕ, ◌≤◌, ◌<◌, ◌≡◌, ◌⊎◌, refl, true, false, Option, none, some, List, [], ◌∷◌, arith, has_flag,
  Option-cases, inl, inr, Bool-cases,
}
use afl_snapshot_lkm.Task.{Vmrange, TaskData}
use afl_snapshot_lkm.Ranges.{
  afl_snapshot_block, intersect, contains, Action, action_subtree, action_continue, check_slow,
  check_allowed, check_default, WalkData, walk_start,
}
use afl_snapshot_lkm.Ranges.Policy.{
  policy, policy-covered, covered, overlapping, ApartFrom, AllApart, intersect-none,
  covered-overlapping, overlapping_mono,
}

-- What is remembered is right for every range from `lo` on.
pub record Remembers (d : TaskData) (lo : ℕ) (w : WalkData) : Type 0 where
  pub blocked :
      (a n : ℕ) → lo ≤ a → a < n → n < w.next_blocked_address → policy d a n ≡ action_continue
  pub allowed :
      (a n : ℕ) → lo ≤ a → a < n → n < w.next_allowed_address → policy d a n ≡ action_subtree

pub Remembers-start : (d : TaskData) → Remembers d 0 walk_start
Remembers-start d = record {
  blocked = λ a n p q r. absurd (omega arith);
  allowed = λ a n p q r. absurd (omega arith);
}

pub Remembers-mono :
    {d : TaskData} {w : WalkData} (lo hi : ℕ) → lo ≤ hi → Remembers d lo w → Remembers d hi w
Remembers-mono lo hi h m = record {
  blocked = λ a n p q r. m.blocked a n (omega arith) q r;
  allowed = λ a n p q r. m.allowed a n (omega arith) q r;
}

-- A range of the blocklist covers what lies in it, and keeps the allowlist off it.
covered_in :
    (ns : List Vmrange) (b : Vmrange) (addr next a n : ℕ)
    → intersect ns addr next ≡ some b
    → b.start ≤ a
    → n ≤ b.end
    → covered ns a n ≡ true
unfolding intersect covered
covered_in [] b addr next a n e p q = ground arith
covered_in (m ∷ ms) b addr next a n e p q = ground (arith, covered_in ms b addr next a n)

overlapping_in :
    (ns : List Vmrange) (r : Vmrange) (addr next a n : ℕ)
    → intersect ns addr next ≡ some r
    → r.start < n
    → a < r.end
    → overlapping ns a n ≡ true
unfolding intersect overlapping
overlapping_in [] r addr next a n e p q = ground arith
overlapping_in (m ∷ ms) r addr next a n e p q = ground (arith, overlapping_in ms r addr next a n)

not_covered_by_apart :
    (b : Vmrange) (ns : List Vmrange) (r : Vmrange) (addr next a n : ℕ)
    → ApartFrom b ns
    → intersect ns addr next ≡ some r
    → a < n
    → r.start ≤ a
    → n ≤ r.end
    → contains b a n ≡ false
unfolding intersect
not_covered_by_apart b [] r addr next a n p e h s t = ground arith
not_covered_by_apart b (m ∷ ms) r addr next a n p e h s t =
    ground (arith, p.0, not_covered_by_apart b ms r addr next a n p.1)

not_covered_in :
    (bs ns : List Vmrange) (r : Vmrange) (addr next a n : ℕ)
    → AllApart bs ns
    → intersect ns addr next ≡ some r
    → a < n
    → r.start ≤ a
    → n ≤ r.end
    → covered bs a n ≡ false
unfolding covered
not_covered_in [] ns r addr next a n p e h s t = refl
not_covered_in (b ∷ bs) ns r addr next a n p e h s t = ground (
  arith,
  not_covered_by_apart b ns r addr next a n p.0 e h s t,
  not_covered_in bs ns r addr next a n p.1 e h s t,
)

-- The three ways of remembering a new address.
keep_blocked :
    (d : TaskData) (lo : ℕ) (w : WalkData) (b : ℕ)
    → Remembers d lo w
    → ((a n : ℕ) → lo ≤ a → a < n → n < b → policy d a n ≡ action_continue)
    → Remembers d lo (record w { next_blocked_address = b })
keep_blocked d lo w b m h = record { blocked = h; allowed = m.allowed }

keep_allowed :
    (d : TaskData) (lo : ℕ) (w : WalkData) (b : ℕ)
    → Remembers d lo w
    → ((a n : ℕ) → lo ≤ a → a < n → n < b → policy d a n ≡ action_subtree)
    → Remembers d lo (record w { next_allowed_address = b })
keep_allowed d lo w b m h = record { blocked = m.blocked; allowed = h }

policy_default_continue :
    (d : TaskData) (a n : ℕ)
    → overlapping d.allowlist a n ≡ false
    → has_flag afl_snapshot_block d.config ≡ true
    → policy d a n ≡ action_continue
unfolding policy
policy_default_continue d a n o f = ground arith

policy_subtree :
    (d : TaskData) (a n : ℕ)
    → covered d.blocklist a n ≡ false
    → ((overlapping d.allowlist a n ≡ true) ⊎ (has_flag afl_snapshot_block d.config ≡ false))
    → policy d a n ≡ action_subtree
unfolding policy
policy_subtree d a n c o = ground arith

module _ (d : TaskData) (addr next : ℕ) (w : WalkData) (m : Remembers d addr w) where
  -- `blocked` is what the blocklist search returned.
  default_keeps :
      (blocked : Option Vmrange)
      → overlapping d.allowlist addr next ≡ false
      → ((blocked ≡ none) → overlapping d.blocklist addr next ≡ false)
      → Remembers d addr (check_default d w next blocked).0
  unfolding check_default
  default_keeps blocked o c = elim (Bool-cases (has_flag afl_snapshot_block d.config)) [
    | inl f ↦ rw f (
        keep_blocked d addr w next m λ a n p q r.
          policy_default_continue d a n
            (overlapping_mono d.allowlist a n addr next p (omega arith) o) f)
    | inr f ↦ rw f (go blocked f c)
  ]
    where
      go :
          (blocked : Option Vmrange)
          → has_flag afl_snapshot_block d.config ≡ false
          → ((blocked ≡ none) → overlapping d.blocklist addr next ≡ false)
          → Remembers d addr
              (elim blocked as (λ _. WalkData × Action) [
                | none ↦ (record w { next_allowed_address = next }, action_subtree)
                | some b ↦ (w, action_subtree)
              ]).0
      go none f c = keep_allowed d addr w next m λ a n p q r.
          policy_subtree d a n
            (covered-overlapping d.blocklist a n q
              (overlapping_mono d.blocklist a n addr next p (omega arith) (c refl)))
            (inr f)
      go (some b) f c = m

  allowed_keeps :
      (blocked : Option Vmrange)
      → AllApart d.blocklist d.allowlist
      → ((blocked ≡ none) → overlapping d.blocklist addr next ≡ false)
      → Remembers d addr (check_allowed d w addr next blocked).0
  unfolding check_allowed
  allowed_keeps blocked p c = elim (Option-cases (intersect d.allowlist addr next)) [
    | inl e ↦
        rw (e, check_allowed) (default_keeps blocked (intersect-none d.allowlist addr next e) c)
    | inr (r, e) ↦
        rw (e, check_allowed)
          (elim (Bool-cases (contains r addr next)) [
            | inl k ↦ rw k (
                keep_allowed d addr w r.end m λ a n s t u.
                  policy_subtree d a n
                    (not_covered_in d.blocklist d.allowlist r addr next a n p e t (ground arith)
                      (omega arith))
                    (inl
                      (overlapping_in d.allowlist r addr next a n e (ground arith) (omega arith))))
            | inr k ↦ rw k m
          ])
  ]

  pub slow_keeps : AllApart d.blocklist d.allowlist → Remembers d addr (check_slow d w addr next).0
  unfolding check_slow
  slow_keeps p = elim (Option-cases (intersect d.blocklist addr next)) [
    | inl e ↦
        rw (e, check_slow) (allowed_keeps none p (λ _. intersect-none d.blocklist addr next e))
    | inr (b, e) ↦
        rw (e, check_slow)
          (elim (Bool-cases (contains b addr next)) [
            | inl k ↦ rw k (
                keep_blocked d addr w b.end m λ a n s t u.
                  policy-covered d a n
                    (covered_in d.blocklist b addr next a n e (ground arith) (omega arith)))
            | inr k ↦ rw k (allowed_keeps (some b) p (λ h. absurd (cc)))
          ])
  ]
