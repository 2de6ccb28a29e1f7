-- ===== src/Ranges/Walk.antt =====
-- A whole walk decides by the policy: the addresses that `snapshot_walk_check_range` of src/memory.c
-- remembers change no decision.
use afl_snapshot_lkm.Base.{
  ℕ, ◌≤◌, ◌<◌, ◌≡◌, refl, sym, ap₂, ◌∙◌, ltb, List, [], ◌∷◌, map, arith, inl, inr, Bool-cases,
}
use afl_snapshot_lkm.Task.{Vmrange, TaskData}
use afl_snapshot_lkm.Ranges.{
  intersect, action_subtree, action_continue, check_slow, check_allowed, check_default, WalkData,
  walk_start, snapshot_walk_check_range, walk_decisions,
}
use afl_snapshot_lkm.Ranges.Policy.{
  policy, policy_skip_sound, covered, overlapping, AllApart, Separate, check_slow-policy,
}
use afl_snapshot_lkm.Ranges.Cache.{Remembers, Remembers-start, Remembers-mono, slow_keeps}

module _ (d : TaskData) (addr next : ℕ) (w : WalkData) (m : Remembers d addr w) where
  -- One call decides by the policy, and what it remembers stays right.
  pub check_range-policy :
      addr < next
      → Separate d.blocklist
      → AllApart d.blocklist d.allowlist
      → ((snapshot_walk_check_range d w addr next).1 ≡ policy d addr next)
        × Remembers d addr (snapshot_walk_check_range d w addr next).0
  unfolding snapshot_walk_check_range
  check_range-policy h s p = elim (Bool-cases (ltb next w.next_blocked_address)) [
    | inl e ↦ rw e (sym (m.blocked addr next (omega arith) h (ground arith)), m)
    | inr e ↦ rw e (elim (Bool-cases (ltb next w.next_allowed_address)) [
      | inl f ↦ rw f (sym (m.allowed addr next (omega arith) h (ground arith)), m)
      | inr f ↦ rw f (check_slow-policy d w addr next h s, slow_keeps d addr next w m p)
    ])
  ]

-- The ranges of a walk are not empty, and their starts never go back (they may be nested).
abbrev pub Ascending : ℕ → List (ℕ × ℕ) → Type 0
Ascending lo [] = Unit {0}
Ascending lo ((a, n) ∷ rs) = (lo ≤ a) × (a < n) × Ascending a rs

walk_decisions-policy_from :
    (d : TaskData) (lo : ℕ) (w : WalkData) (rs : List (ℕ × ℕ))
    → Remembers d lo w
    → Ascending lo rs
    → Separate d.blocklist
    → AllApart d.blocklist d.allowlist
    → walk_decisions d w rs ≡ map (λ r. policy d r.0 r.1) rs
unfolding walk_decisions
walk_decisions-policy_from d lo w [] m a s p = refl
walk_decisions-policy_from d lo w ((addr, next) ∷ rs) m a s p =
    let step = check_range-policy d addr next w (Remembers-mono lo addr a.0 m) a.1 s p in
    ap₂ ◌∷◌ step.0 (walk_decisions-policy_from d addr _ rs step.1 a.2 s p)

-- However many ranges a walk presents, remembering addresses between them changes no decision: each
-- is the policy's, if the ranges are not empty and start in ascending order, and if no range of the
-- blocklist overlaps another one or a range of the allowlist.
pub walk_decisions-policy :
    (d : TaskData) (rs : List (ℕ × ℕ))
    → Ascending 0 rs
    → Separate d.blocklist
    → AllApart d.blocklist d.allowlist
    → walk_decisions d walk_start rs ≡ map (λ r. policy d r.0 r.1) rs
walk_decisions-policy d rs = walk_decisions-policy_from d 0 walk_start rs (Remembers-start d)

-- Cutting off a subtree loses nothing: if the first call of a walk says to skip a range, then the next
-- one would say so for every part of it, which is what `snapshot_pud_entry` and `snapshot_pmd_entry`
-- rely on; neither range is empty, and no range of the blocklist overlaps another one or a range of
-- the allowlist.
pub skipped_subtree :
    (d : TaskData) (addr next a n : ℕ)
    → addr < next
    → a < n
    → addr ≤ a
    → n ≤ next
    → Separate d.blocklist
    → AllApart d.blocklist d.allowlist
    → (snapshot_walk_check_range d walk_start addr next).1 ≡ action_continue
    → let w = (snapshot_walk_check_range d walk_start addr next).0 in
      (snapshot_walk_check_range d w a n).1 ≡ action_continue
skipped_subtree d addr next a n h k p q s t e =
    let first =
      check_range-policy d addr next walk_start
        (Remembers-mono 0 addr (omega arith) (Remembers-start d)) h s t in
    let second = check_range-policy d a n _ (Remembers-mono addr a p first.1) k s t in
    second.0 ∙ policy_skip_sound d addr next a n (sym first.0 ∙ e) p q

-- Where an allowed range `a` goes on past a blocked one `b`, and these are the only two ranges, the
-- remembered address wins over the blocklist: after a range before `b` that starts inside `a`, a range
-- that is all inside `b` is snapshotted, although the policy excludes it.
pub allowed_shadows_blocked :
    (d : TaskData) (a b : Vmrange) (addr next addr' next' : ℕ)
    → d.allowlist ≡ a ∷ []
    → d.blocklist ≡ b ∷ []
    → addr < next
    → a.start ≤ addr
    → next ≤ b.start
    → b.start ≤ addr'
    → addr' < next'
    → next' ≤ b.end
    → next' < a.end
    → (policy d addr' next' ≡ action_continue)
      × (walk_decisions d walk_start ((addr, next) ∷ (addr', next') ∷ [])
          ≡ action_subtree ∷ action_subtree ∷ [])
unfolding walk_decisions snapshot_walk_check_range check_slow check_allowed check_default intersect
    policy covered overlapping
allowed_shadows_blocked d a b addr next addr' next' ea eb h p q r s t u =
    rw (ea, eb) (ground arith, ground arith)
