-- ===== src/Memory/Take/Entered.antt =====
-- Which pages the entries of the walk of `take_memory_snapshot`, src/memory.c, put in the table.
use afl_snapshot_lkm.Base.{
  ℕ, ◌+◌, ◌<◌, ◌≡◌, refl, sym, ap, ◌∙◌, subst, Bool, true, false, ◌&&◌, ◌||◌, ◌==◌, if◌then◌else◌,
  Option, List, [], ◌∷◌, ◌++◌, is_some, arith, inl, inr, ◌⊎◌,
}
use afl_snapshot_lkm.Page.{SnapshotPage, page_size}
use afl_snapshot_lkm.Task.{TaskData}
use afl_snapshot_lkm.Ranges.{
  Action, action_subtree, action_continue, snapshot_walk_check_range, check_slow, check_allowed,
  check_default, WalkData,
}
use afl_snapshot_lkm.Ranges.Policy.{policy, Separate, AllApart}
use afl_snapshot_lkm.Ranges.Cache.{Remembers, Remembers-mono}
use afl_snapshot_lkm.Ranges.Walk.{Ascending, check_range-policy}
use afl_snapshot_lkm.Mmu.{Mmu}
use afl_snapshot_lkm.Memory.{make_snapshot_page, mark_page, add_snapshot_page}
use afl_snapshot_lkm.Memory.Take.{WalkState, snapshot_range_entry, snapshot_pte_entry}
use afl_snapshot_lkm.Memory.Take.Kept.{Kept, entry-WalkKept}

-- What the kernel presents to the entries: a range, or one page.
pub data Visit : Type 0 where
  visits_range : ℕ → ℕ → Visit
  visits_page : ℕ → Visit

abbrev pub ranges : List Visit → List (ℕ × ℕ)
ranges [] = []
ranges (visits_range a n ∷ vs) = (a, n) ∷ ranges vs
ranges (visits_page a ∷ vs) = (a, a + page_size) ∷ ranges vs

abbrev is_subtree : Action → Bool
is_subtree action_subtree = true
is_subtree action_continue = false

-- Whether page `p` is presented and the policy is to take it.
abbrev pub chosen : TaskData → List Visit → ℕ → Bool
chosen d [] p = false
chosen d (visits_range a n ∷ vs) p = chosen d vs p
chosen d (visits_page a ∷ vs) p =
    (a == p && is_subtree (policy d a (a + page_size))) || chosen d vs p

Action-cases : (a : Action) → (a ≡ action_subtree) ⊎ (a ≡ action_continue)
Action-cases action_subtree = inl refl
Action-cases action_continue = inr refl

module _ {S P : Type 0} (k : Mmu S P) where
  make_snapshot_page-is_some :
      (kmalloc : Option SnapshotPage) (d : TaskData) (s : S) (p q : ℕ)
      → is_some kmalloc ≡ true
      → let r = make_snapshot_page k kmalloc d s p in
        (r.2 ≡ true) × (is_some (r.0.ss.ss_pages q) ≡ ((p == q) || is_some (d.ss.ss_pages q)))
  unfolding make_snapshot_page mark_page add_snapshot_page
  make_snapshot_page-is_some kmalloc d s p q m = (ground arith, ground arith)

  -- What the walk calls for what it is presented with.
  abbrev pub call : (ℕ → Option SnapshotPage) → WalkState S → Visit → WalkState S × Bool
  call kmalloc st (visits_range a n) = ((snapshot_range_entry st a n).0, true)
  call kmalloc st (visits_page a) = snapshot_pte_entry k (kmalloc a) st a (a + page_size)

  -- The walk stops at an entry that does not return 0.
  unfoldable pub present : (ℕ → Option SnapshotPage) → WalkState S → List Visit → WalkState S × Bool
  present kmalloc st [] = (st, true)
  present kmalloc st (v ∷ vs) =
      let rest = present kmalloc (call kmalloc st v).0 vs in
      if (call kmalloc st v).1 then rest else call kmalloc st v

  check_range-Kept :
      (d e : TaskData) (w : WalkData) (addr next : ℕ)
      → Kept d e
      → snapshot_walk_check_range e w addr next ≡ snapshot_walk_check_range d w addr next
  unfolding snapshot_walk_check_range check_slow check_allowed check_default
  check_range-Kept d e w addr next h =
      rw (ap (λ x. x.0.1) h, ap (λ x. x.0.5) h, ap (λ x. x.0.6) h) refl

  module _ (kmalloc : ℕ → Option SnapshotPage) (memory : (a : ℕ) → is_some (kmalloc a) ≡ true)
      (d : TaskData) (separate : Separate d.blocklist)
      (apart : AllApart d.blocklist d.allowlist) where
    -- One call: what it enters in the table, and what stays for the next.
    Called : ℕ → WalkState S → Visit → WalkState S × Bool → Type 0
    Called a st v r =
        (r.1 ≡ true)
        × Kept d r.0.task
        × Remembers d a r.0.walk
        × ((p : ℕ)
            → is_some (r.0.task.ss.ss_pages p)
              ≡ (is_some (st.task.ss.ss_pages p) || chosen d (v ∷ []) p))

    call-page :
        (st : WalkState S) (a : ℕ)
        → Kept d st.task
        → Remembers d a st.walk
        → Called a st (visits_page a) (call kmalloc st (visits_page a))
    unfolding Called snapshot_pte_entry
    call-page st a h m =
        let same = check_range-Kept d st.task st.walk a (a + page_size) h in
        let by_policy =
          check_range-policy d a (a + page_size) st.walk m (omega arith) separate apart in
        let act = ap (λ x. x.1) same ∙ by_policy.0 in
        let remembers = subst (λ x. Remembers d a x.0) (sym same) by_policy.1 in
        let kept = ap (λ x. x.0) (entry-WalkKept k (kmalloc a) st a (a + page_size)) ∙ h in
        elim (Action-cases (policy d a (a + page_size))) [
          | inl e ↦
              let taken = act ∙ e in
              (
                rw (snapshot_pte_entry, taken) (made st a a).0,
                kept,
                rw (snapshot_pte_entry, taken) remembers,
                λ p. rw (snapshot_pte_entry, taken, (made st a p).1, e) (ground arith),
              )
          | inr e ↦
              let left = act ∙ e in
              (
                rw (snapshot_pte_entry, left) refl,
                kept,
                rw (snapshot_pte_entry, left) remembers,
                λ p. rw (snapshot_pte_entry, left, e) (ground arith),
              )
        ]
      where
        made :
            (st : WalkState S) (a q : ℕ)
            → let r = make_snapshot_page k (kmalloc a) st.task st.space a in
              (r.2 ≡ true)
              × (is_some (r.0.ss.ss_pages q) ≡ ((a == q) || is_some (st.task.ss.ss_pages q)))
        made st a q = make_snapshot_page-is_some (kmalloc a) st.task st.space a q (memory a)

    call-range :
        (st : WalkState S) (a n : ℕ)
        → a < n
        → Kept d st.task
        → Remembers d a st.walk
        → Called a st (visits_range a n) (call kmalloc st (visits_range a n))
    unfolding Called snapshot_range_entry
    call-range st a n l h m =
        let same = check_range-Kept d st.task st.walk a n h in
        (
          refl,
          h,
          subst (λ x. Remembers d a x.0) (sym same)
              (check_range-policy d a n st.walk m l separate apart).1,
          λ p. ground arith,
        )

    -- What a walk enters in the table, and what stays for what is presented after it.
    abbrev pub Went : WalkState S → List Visit → List Visit → WalkState S × Bool → Type 0
    Went st vs ws r =
        (r.1 ≡ true)
        × Kept d r.0.task
        × ((hi : ℕ) × Remembers d hi r.0.walk × Ascending hi (ranges ws))
        × ((p : ℕ)
            → is_some (r.0.task.ss.ss_pages p) ≡ (is_some (st.task.ss.ss_pages p) || chosen d vs p))

    pub present-Went :
        (lo : ℕ) (st : WalkState S) (vs ws : List Visit)
        → Kept d st.task
        → Remembers d lo st.walk
        → Ascending lo (ranges (vs ++ ws))
        → Went st vs ws (present kmalloc st vs)
    unfolding present Called
    present-Went lo st [] ws h m a = (refl, h, (lo, m, a), λ p. ground arith)
    present-Went lo st (visits_range b n ∷ vs) ws h m a =
        let c = call-range st b n a.1 h (Remembers-mono lo b a.0 m) in
        let later = present-Went b (call kmalloc st (visits_range b n)).0 vs ws c.1 c.2 a.2 in
        (later.0, later.1, later.2, λ p. later.3 p ∙ rw (c.3 p) (ground arith))
    present-Went lo st (visits_page b ∷ vs) ws h m a =
        let c = call-page st b h (Remembers-mono lo b a.0 m) in
        let later = present-Went b (call kmalloc st (visits_page b)).0 vs ws c.1 c.2 a.2 in
        let step : present kmalloc st (visits_page b ∷ vs)
            ≡ present kmalloc (call kmalloc st (visits_page b)).0 vs =
          rw (present, c.0) refl in
        subst (Went st (visits_page b ∷ vs) ws) (sym step)
          (later.0, later.1, later.2, λ p. later.3 p ∙ rw (c.3 p) (ground arith))
