-- ===== src/Memory/Take/Kept.antt =====
-- What `take_memory_snapshot` of src/memory.c leaves alone in the task data.
use afl_snapshot_lkm.Base.{
  ℕ, ◌≡◌, refl, Bool, true, false, if◌then◌else◌, Option, none, some, List, [], ◌∷◌, ◌∙◌, sym, ap,
  arith, subst, Bool-cases, inl, inr,
}
use afl_snapshot_lkm.Page.{SnapshotPage}
use afl_snapshot_lkm.Task.{TaskData, SnapshotVma, Vmrange, OpenFilesSnapshot}
use afl_snapshot_lkm.Ranges.{Action, action_continue, action_subtree, snapshot_walk_check_range}
use afl_snapshot_lkm.Mmu.{Mmu}
use afl_snapshot_lkm.Memory.{make_snapshot_page, mark_page, add_snapshot_page}
use afl_snapshot_lkm.Memory.Take.{
  Vma, WalkState, snapshot_range_entry, snapshot_pte_entry, take_vma, take_vmas,
  take_memory_snapshot, add_snapshot_vma, is_skipped, list_snapshotted,
}
use afl_snapshot_lkm.Memory.Take.Establish.{Calls, done, range, entry}

-- What neither the module's hooks nor a walk over the memory write: the task, the configuration, the
-- status, the break, the registers and the two lists of ranges, and the open files.
abbrev pub Basics : Type 0
Basics = ℕ × ℕ × ℕ × ℕ × ℕ × List Vmrange × List Vmrange

abbrev pub basics : TaskData → Basics
basics d = (d.tsk, d.config, d.ss.status, d.ss.oldbrk, d.ss.regs, d.allowlist, d.blocklist)

abbrev pub settings : TaskData → Basics × OpenFilesSnapshot
settings d = (basics d, d.ss.ss_files)

abbrev pub Kept : TaskData → TaskData → Type 0
Kept d e = settings e ≡ settings d

-- A walk leaves the two lists of regions alone as well.
abbrev pub with_regions :
    TaskData → (Basics × OpenFilesSnapshot) × List SnapshotVma × List SnapshotVma
with_regions d = (settings d, d.ss.all_vmas, d.ss.snapshotted_vmas)

abbrev pub WalkKept : TaskData → TaskData → Type 0
WalkKept d e = with_regions e ≡ with_regions d

module _ {S P : Type 0} (k : Mmu S P) where
  make_snapshot_page-WalkKept :
      (kmalloc : Option SnapshotPage) (d : TaskData) (s : S) (p : ℕ)
      → WalkKept d (make_snapshot_page k kmalloc d s p).0
  unfolding make_snapshot_page mark_page add_snapshot_page
  make_snapshot_page-WalkKept kmalloc d s p = ground arith

  pub entry-WalkKept :
      (kmalloc : Option SnapshotPage) (st : WalkState S) (addr next : ℕ)
      → WalkKept st.task (snapshot_pte_entry k kmalloc st addr next).0.task
  unfolding snapshot_pte_entry
  entry-WalkKept kmalloc st addr next =
      go (snapshot_walk_check_range st.task st.walk addr next).1 refl
    where
      go :
          (act : Action)
          → (snapshot_walk_check_range st.task st.walk addr next).1 ≡ act
          → WalkKept st.task (snapshot_pte_entry k kmalloc st addr next).0.task
      go action_continue e = rw (e, snapshot_pte_entry) refl
      go action_subtree e =
          rw (e, snapshot_pte_entry) (make_snapshot_page-WalkKept kmalloc st.task st.space addr)

  pub Calls-WalkKept :
      (st : WalkState S) {st' : WalkState S} → Calls k st st' → WalkKept st.task st'.task
  unfolding snapshot_range_entry
  Calls-WalkKept st done = refl
  Calls-WalkKept st (range t st' addr next c e) =
      subst (λ x. WalkKept st.task x.task) (sym e) (Calls-WalkKept st c)
  Calls-WalkKept st (entry t st' kmalloc addr next c e) =
      subst (λ x. WalkKept st.task x.task) (sym e)
        (entry-WalkKept kmalloc t addr next ∙ Calls-WalkKept st c)

  add_snapshot_vma-Kept :
      (kmalloc : Option SnapshotVma) (d : TaskData) (vma : Vma)
      → Kept d (add_snapshot_vma kmalloc d vma).0
  unfolding add_snapshot_vma
  add_snapshot_vma-Kept none d vma = refl
  add_snapshot_vma-Kept (some m) d vma = refl

  module _ (kmalloc : ℕ → Option SnapshotVma)
      (walk_page_vma : WalkState S → Vma → WalkState S × Bool) (start_stack : ℕ)
      (calls : (st : WalkState S) (vma : Vma) → Calls k st (walk_page_vma st vma).0) where
    pub take_vma-Kept :
        (st : WalkState S) (vma : Vma)
        → Kept st.task (take_vma k (kmalloc vma.vm_start) walk_page_vma start_stack st vma).0.task
    unfolding take_vma
    take_vma-Kept st vma = after (add_snapshot_vma (kmalloc vma.vm_start) st.task vma).1
      where
        d : TaskData
        d = (add_snapshot_vma (kmalloc vma.vm_start) st.task vma).0

        added : Kept st.task d
        added = add_snapshot_vma-Kept (kmalloc vma.vm_start) st.task vma

        listed : (v : SnapshotVma) → Kept d (list_snapshotted d v)
        listed v = refl

        after :
            (found : Option SnapshotVma)
            → Kept st.task
                (elim found as (λ _. WalkState S × Bool) [
                  | none ↦ (record st { task = d }, false)
                  | some v ↦
                      if is_skipped d vma start_stack
                      then (record st { task = d }, true)
                      else walk_page_vma (record st { task = list_snapshotted d v }) vma
                ]).0.task
        after none = added
        after (some v) = elim (Bool-cases (is_skipped d vma start_stack)) [
          | inl e ↦ rw e added
          | inr e ↦ rw e (
              ap (λ x. x.0)
                (Calls-WalkKept _ (calls (record st { task = list_snapshotted d v }) vma))
              ∙ listed v
              ∙ added)
        ]

    take_vmas-Kept :
        (st : WalkState S) (vmas : List Vma)
        → Kept st.task (take_vmas k kmalloc walk_page_vma start_stack st vmas).0.task
    unfolding take_vmas
    take_vmas-Kept st [] = refl
    take_vmas-Kept st (vma ∷ vmas) =
        let r = take_vma k (kmalloc vma.vm_start) walk_page_vma start_stack st vma in
        elim (Bool-cases r.1) [
          | inl e ↦ rw (take_vmas, e) (take_vmas-Kept r.0 vmas ∙ take_vma-Kept st vma)
          | inr e ↦ rw (take_vmas, e) (take_vma-Kept st vma)
        ]

    -- What the walk over the memory keeps of the task data.
    pub take_memory_snapshot-Kept :
        (vmas : List Vma) (d : TaskData) (s : S)
        → Kept d (take_memory_snapshot k kmalloc walk_page_vma start_stack vmas d s).0
    unfolding take_memory_snapshot
    take_memory_snapshot-Kept vmas d s = take_vmas-Kept _ vmas
