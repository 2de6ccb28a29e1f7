-- ===== src/Snapshot/Whole.antt =====
-- From `take_snapshot` to `recover_snapshot`, src/snapshot.c.
use afl_snapshot_lkm.Base.{
  ℕ, ◌≡◌, refl, Bool, true, Option, none, List, [], ◌∙◌, sym, ap, arith, subst, has_flag, set_flag,
  elem,
}
use afl_snapshot_lkm.Page.{SnapshotPage}
use afl_snapshot_lkm.Task.{TaskData, SnapshotVma, snapshot_made, snapshot_had, ensure_task_data}
use afl_snapshot_lkm.Mmu.{MmuLaws, view}
use afl_snapshot_lkm.Files.{take_files_snapshot}
use afl_snapshot_lkm.Memory.{is_snapshotted_in}
use afl_snapshot_lkm.Memory.Invariant.{Inv, Linked, PageOk}
use afl_snapshot_lkm.Memory.Take.{Vma, WalkState, take_memory_snapshot}
use afl_snapshot_lkm.Memory.Take.Establish.{Calls, promise_of, take_memory_snapshot-Inv}
use afl_snapshot_lkm.Snapshot.{World, Kernel, Chances, initialize_snapshot, take_parts}
use afl_snapshot_lkm.Snapshot.Taken.{taken, made_flag}

-- The parts of a task data that the snapshot of the memory is in.
abbrev MemoryParts : Type 0
MemoryParts = ℕ × (ℕ → Option SnapshotPage) × List ℕ × List SnapshotVma

abbrev memory_parts : TaskData → MemoryParts
memory_parts d = (d.ss.status, d.ss.ss_pages, d.ss.dirty_pages, d.ss.snapshotted_vmas)

module _ {K S P T : Type 0} (k : Kernel K S P T) where
  -- The memory's part of a new snapshot in the data `d`.
  abbrev pub memory_taken : Chances S → World K S T → ℕ → TaskData → TaskData × S × Bool
  memory_taken c w config d =
      take_memory_snapshot k.mmu c.vma_memory c.walk_page_vma c.start_stack c.vmas
        (initialize_snapshot d config w.regs (k.mm.brk (d, w.space))) w.space

  take_files-memory :
      (array : Option ℕ) (d : TaskData) (w : World K S T) (current : ℕ)
      → memory_parts (take_files_snapshot k.file array d w.files current).0 ≡ memory_parts d
  unfolding take_files_snapshot
  take_files-memory array d w current = ground arith

  taken_parts :
      (c : Chances S) (w : World K S T) (current config : ℕ) (d : TaskData)
      → (memory_parts (taken k c w current config d).0 ≡ memory_parts (memory_taken c w config d).0)
        × ((taken k c w current config d).1.space ≡ (memory_taken c w config d).1)
  unfolding take_parts
  taken_parts c w current config d = (
    take_files-memory c.array_memory (memory_taken c w config d).0
        (record w { tasks = (ensure_task_data c.data_memory w.tasks current).0 }) current,
    refl,
  )

  Inv-parts :
      (backing : ℕ → ℕ) (promise : ℕ → Option ℕ) (d e : TaskData) (s : S)
      → memory_parts e ≡ memory_parts d
      → Inv k.mmu backing promise d s
      → Inv k.mmu backing promise e s
  Inv-parts backing promise d e s h i = record {
    made = ap (λ x. has_flag snapshot_made x.0) h ∙ i.made;
    linked = λ p.
        let F : MemoryParts → Type 0 = λ x. Linked p (x.1 p) (elem p x.2) in
        subst F (sym h) (i.linked p);
    pages = λ p c y.
        let F : MemoryParts → Type 0 = λ x. PageOk (backing p) c (x.1 p) (view k.mmu s p) in
        subst F (sym h) (i.pages p c y);
    reachable = λ p c y.
        let F : MemoryParts → Type 0 = λ x. x.1 p ≡ none → is_snapshotted_in x.3 p ≡ true in
        subst F (sym h) (i.reachable p c y);
  }

  module _ (backing : ℕ → ℕ) (laws : MmuLaws k.mmu backing) (c : Chances S)
      (calls : (st : WalkState S) (vma : Vma) → Calls k.mmu st (c.walk_page_vma st vma).0) where
    -- The data and the memory after `take_snapshot` has made a new snapshot.
    pub take_snapshot-Inv :
        (w : World K S T) (current config : ℕ) (d : TaskData)
        → d.ss.dirty_pages ≡ []
        → ((q : ℕ) → d.ss.ss_pages q ≡ none)
        → ((q : ℕ)
            → k.mmu.pte_none (k.mmu.pte_at w.space q) ≡ true
            → k.mmu.content w.space q ≡ backing q)
        → let r = taken k c w current config d in
          Inv k.mmu backing (promise_of k.mmu w.space (memory_taken c w config d).0) r.0 r.1.space
    take_snapshot-Inv w current config d l t b =
        let promise = promise_of k.mmu w.space (memory_taken c w config d).0 in
        let p = taken_parts c w current config d in
        subst (Inv k.mmu backing promise (taken k c w current config d).0) (sym p.1) (
          Inv-parts backing promise (memory_taken c w config d).0 (taken k c w current config d).0
            (memory_taken c w config d).1 p.0
            (take_memory_snapshot-Inv k.mmu backing laws w.space c.vma_memory c.walk_page_vma
              c.start_stack c.vmas _ calls (made_flag (set_flag snapshot_had d.ss.status)) l t b))
