-- ===== src/Memory/Take/Chosen.antt =====
-- Which pages `take_memory_snapshot` of src/memory.c puts in the table, when the walk over a region
-- presents what a function of the region says.
use afl_snapshot_lkm.Base.{
  ℕ, ◌≡◌, refl, sym, ap, ◌∙◌, subst, Bool, true, false, not, ◌||◌, if◌then◌else◌, Option, some,
  List, [], ◌∷◌, ◌++◌, is_some, arith, Bool-cases, Option-cases, inl, inr, has_flag, ◌&&◌,
}
use afl_snapshot_lkm.Page.{SnapshotPage}
use afl_snapshot_lkm.Task.{SnapshotVma, TaskData}
use afl_snapshot_lkm.Ranges.{walk_start}
use afl_snapshot_lkm.Ranges.Policy.{Separate, AllApart}
use afl_snapshot_lkm.Ranges.Cache.{Remembers, Remembers-start}
use afl_snapshot_lkm.Ranges.Walk.{Ascending}
use afl_snapshot_lkm.Mmu.{Mmu}
use afl_snapshot_lkm.Memory.Take.{
  Vma, WalkState, take_vma, take_vmas, take_memory_snapshot, add_snapshot_vma, is_skipped,
  vm_shared, recorded_prot, list_snapshotted,
}
use afl_snapshot_lkm.Memory.Take.Kept.{Kept}
use afl_snapshot_lkm.Memory.Take.Selected.{is_selected, is_selected-Kept, skipped-selected}
use afl_snapshot_lkm.Memory.Take.Entered.{
  Visit, visits_range, visits_page, ranges, chosen, present, Went, present-Went,
}

or_assoc : (a b c : Bool) → ((a || b) || c) ≡ (a || (b || c))
or_assoc a b c = ground arith

chosen-append :
    (d : TaskData) (vs ws : List Visit) (p : ℕ)
    → chosen d (vs ++ ws) p ≡ (chosen d vs p || chosen d ws p)
chosen-append d [] ws p = refl
chosen-append d (visits_range a n ∷ vs) ws p = chosen-append d vs ws p
chosen-append d (visits_page a ∷ vs) ws p = ground (arith, chosen-append d vs ws p)

module _ (visits : Vma → List Visit) (start_stack : ℕ) (d : TaskData) where
  -- What a take presents to the entries for a region, and for all of them: the selected ones are walked.
  abbrev visited : Vma → List Visit
  visited v = if is_selected d start_stack v then visits v else []

  abbrev pub all_visited : List Vma → List Visit
  all_visited [] = []
  all_visited (v ∷ vs) = visited v ++ all_visited vs

module _ {S P : Type 0} (k : Mmu S P) (kmalloc : ℕ → Option SnapshotVma)
    (page_kmalloc : ℕ → Option SnapshotPage) (visits : Vma → List Visit) (start_stack : ℕ)
    (memory : (a : ℕ) → is_some (kmalloc a) ≡ true)
    (page_memory : (a : ℕ) → is_some (page_kmalloc a) ≡ true) (d : TaskData)
    (separate : Separate d.blocklist) (apart : AllApart d.blocklist d.allowlist) where
  -- The walk over a region.
  abbrev walk : WalkState S → Vma → WalkState S × Bool
  walk st v = present k page_kmalloc st (visits v)

  abbrev Goes : WalkState S → List Visit → List Visit → WalkState S × Bool → Type 0
  Goes = Went k page_kmalloc page_memory d separate apart

  take_vma-Went :
      (lo : ℕ) (st : WalkState S) (vma : Vma) (ws : List Visit)
      → Kept d st.task
      → Remembers d lo st.walk
      → Ascending lo (ranges (visited visits start_stack d vma ++ ws))
      → Goes st
          (visited visits start_stack d vma)
          ws
          (take_vma k (kmalloc vma.vm_start) walk start_stack st vma)
  unfolding take_vma add_snapshot_vma
  take_vma-Went lo st vma ws h m a = elim (Option-cases (kmalloc vma.vm_start)) [
    | inl e ↦ absurd (let q = memory vma.vm_start in ground arith)
    | inr e ↦
        subst
          (λ x.
            Goes st (visited visits start_stack d vma) ws (take_vma k x walk start_stack st vma))
          (sym e.1) (by_choice e.0)
  ]
    where
      noted : SnapshotVma → TaskData
      noted x = (add_snapshot_vma (some x) st.task vma).0

      entered : SnapshotVma → SnapshotVma
      entered x = record {
        vm_start = vma.vm_start;
        vm_end = vma.vm_end;
        is_anonymous_private = vma.is_anonymous && not (has_flag vm_shared vma.vm_flags);
        prot = recorded_prot vma.vm_flags x.prot;
      }

      by_choice :
          (x : SnapshotVma)
          → Goes st
              (visited visits start_stack d vma)
              ws
              (take_vma k (some x) walk start_stack st vma)
      by_choice x = elim (Bool-cases (is_selected d start_stack vma)) [
        | inl s ↦
            let q : is_skipped (noted x) vma start_stack ≡ false =
              skipped-selected st.task (noted x).ss start_stack vma
              ∙ ap not (is_selected-Kept start_stack d st.task vma h ∙ s) in
            let w : WalkState S = record st { task = list_snapshotted (noted x) (entered x) } in
            rw (q, s)
              (present-Went k page_kmalloc page_memory d separate apart lo w (visits vma) ws h m
                (subst (λ b. Ascending lo (ranges ((if b then visits vma else []) ++ ws))) s a))
        | inr s ↦
            let q : is_skipped (noted x) vma start_stack ≡ true =
              skipped-selected st.task (noted x).ss start_stack vma
              ∙ ap not (is_selected-Kept start_stack d st.task vma h ∙ s) in
            rw (q, s)
              (
                refl,
                h,
                (
                  lo,
                  m,
                  subst (λ b. Ascending lo (ranges ((if b then visits vma else []) ++ ws))) s a,
                ),
                λ p. ground arith,
              )
      ]

  take_vmas-chosen :
      (lo : ℕ) (st : WalkState S) (vmas : List Vma) (p : ℕ)
      → Kept d st.task
      → Remembers d lo st.walk
      → Ascending lo (ranges (all_visited visits start_stack d vmas))
      → let r = take_vmas k kmalloc walk start_stack st vmas in
        (r.1 ≡ true)
        × (is_some (r.0.task.ss.ss_pages p) ≡ (
            is_some (st.task.ss.ss_pages p) || chosen d (all_visited visits start_stack d vmas) p))
  unfolding take_vmas
  take_vmas-chosen lo st [] p h m a = (refl, ground arith)
  take_vmas-chosen lo st (vma ∷ vmas) p h m a =
      let ws = all_visited visits start_stack d vmas in
      let r = take_vma k (kmalloc vma.vm_start) walk start_stack st vma in
      let (ok, kept, (hi, remembers, ascending), entered) = take_vma-Went lo st vma ws h m a in
      let later = take_vmas-chosen hi r.0 vmas p kept remembers ascending in
      let step : take_vmas k kmalloc walk start_stack st (vma ∷ vmas)
          ≡ take_vmas k kmalloc walk start_stack r.0 vmas =
        rw (take_vmas, ok) refl in
      (
        ap (λ x. x.1) step ∙ later.0,
        ap (λ x. is_some (x.0.task.ss.ss_pages p)) step
            ∙ later.1
            ∙ rw (entered p, chosen-append d (visited visits start_stack d vma) ws p)
                (or_assoc (is_some (st.task.ss.ss_pages p)) _ _),
      )

  -- A take puts exactly the pages in the table that it is to take: after `take_memory_snapshot` a page
  -- has an entry if and only if it had one before, or a walk over a selected region presents it and the
  -- policy of blocklist, allowlist and AFL_SNAPSHOT_BLOCK takes it. The selected regions are those that
  -- meet a range of the allowlist, and without AFL_SNAPSHOT_BLOCK the private writable ones, with
  -- AFL_SNAPSHOT_NOSTACK but for the stack. The conditions: memory can be had, a walk presents ranges
  -- and pages that the region says and stops where an entry does not return 0, over all selected
  -- regions these are not empty and start in ascending order, and no range of the blocklist overlaps
  -- another one or a range of the allowlist.
  pub take_memory_snapshot-chosen :
      (vmas : List Vma) (s : S) (p : ℕ)
      → Ascending 0 (ranges (all_visited visits start_stack d vmas))
      → let r = take_memory_snapshot k kmalloc walk start_stack vmas d s in
        (r.2 ≡ true)
        × (is_some (r.0.ss.ss_pages p)
            ≡ (is_some (d.ss.ss_pages p) || chosen d (all_visited visits start_stack d vmas) p))
  unfolding take_memory_snapshot
  take_memory_snapshot-chosen vmas s p a =
      take_vmas-chosen 0 (record { task = d; walk = walk_start; space = s }) vmas p refl
        (Remembers-start d) a
