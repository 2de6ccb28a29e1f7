-- ===== src/Memory/Take.antt =====
-- `take_memory_snapshot` of src/memory.c: which regions are snapshotted, and what the walk over their
-- page-table entries does. The walk itself (`walk_page_vma`) is a parameter.
-- That the task is dropped from the per-CPU cache first is in Cache/Coherent.antt (`taken`).
pub mod Promise
pub mod Establish
pub mod Kept
pub mod Selected
pub mod Entered
pub mod Chosen
use afl_snapshot_lkm.Base.{
  ℕ, ◌&&◌, ◌||◌, not, leb, ◌==◌, Bool, true, false, if◌then◌else◌, Option, none, some, List, [],
  ◌∷◌, ◌++◌, has_flag, set_flag, is_some,
}
use afl_snapshot_lkm.Page.{SnapshotPage}
use afl_snapshot_lkm.Task.{SnapshotVma, TaskData}
use afl_snapshot_lkm.Ranges.{
  WalkData, walk_start, Action, action_continue, action_subtree, snapshot_walk_check_range,
  intersect_allowlist, afl_snapshot_block, afl_snapshot_nostack,
}
use afl_snapshot_lkm.Mmu.{Mmu}
use afl_snapshot_lkm.Memory.{make_snapshot_page}

-- `struct vm_area_struct`, as far as the code reads it.
pub record Vma : Type 0 where
  pub vm_start : ℕ
  pub vm_end : ℕ
  pub vm_flags : ℕ
  pub is_anonymous : Bool

abbrev pub vm_read : ℕ
vm_read = 0x1

abbrev pub vm_write : ℕ
vm_write = 0x2

abbrev pub vm_exec : ℕ
vm_exec = 0x4

abbrev pub vm_shared : ℕ
vm_shared = 0x8

-- `prot |= x ? bit : 0`
abbrev pub or_if : ℕ → ℕ → ℕ → ℕ
or_if x bit prot = if x == 0 then prot else set_flag bit prot

-- `vm_flags | VM_READ ? PROT_READ : 0` tests `vm_flags | VM_READ`, and so on.
abbrev pub recorded_prot : ℕ → ℕ → ℕ
recorded_prot vm_flags prot =
    or_if (set_flag vm_exec vm_flags) 0x4
      (or_if (set_flag vm_write vm_flags) 0x2 (or_if (set_flag vm_read vm_flags) 0x1 prot))

unfoldable pub add_snapshot_vma :
    Option SnapshotVma → TaskData → Vma → TaskData × Option SnapshotVma
add_snapshot_vma kmalloc d vma = elim kmalloc [
  | none ↦ (d, none)
  | some m ↦
      let v : SnapshotVma = record {
        vm_start = vma.vm_start;
        vm_end = vma.vm_end;
        is_anonymous_private = vma.is_anonymous && not (has_flag vm_shared vma.vm_flags);
        prot = recorded_prot vma.vm_flags m.prot;
      } in
      (record d { ss = record (d.ss) { all_vmas = d.ss.all_vmas ++ v ∷ [] } }, some v)
]

-- The second argument is `start_stack` of the address space.
abbrev pub is_stack : Vma → ℕ → Bool
is_stack vma start_stack = leb vma.vm_start start_stack && leb start_stack vma.vm_end

-- The `continue`s of the loop.
unfoldable pub is_skipped : TaskData → Vma → ℕ → Bool
is_skipped d vma start_stack =
    not (is_some (intersect_allowlist d vma.vm_start vma.vm_end))
    && (not (has_flag vm_write vma.vm_flags)
        || has_flag vm_shared vma.vm_flags
        || has_flag afl_snapshot_block d.config
        || (has_flag afl_snapshot_nostack d.config && is_stack vma start_stack))

-- What the walk carries along: `walk_data` and the address space.
pub record WalkState (S : Type 0) : Type 0 where
  pub task : TaskData
  pub walk : WalkData
  pub space : S

-- `snapshot_pgd_entry` and `snapshot_p4d_entry`, which drop the decision, and `snapshot_pud_entry` and
-- `snapshot_pmd_entry`, which leave it in `walk->action`.
unfoldable pub snapshot_range_entry : {S : Type 0} → WalkState S → ℕ → ℕ → WalkState S × Action
snapshot_range_entry st addr next =
    let (w, act) = snapshot_walk_check_range st.task st.walk addr next in
    (record st { walk = w }, act)

abbrev pub list_snapshotted : TaskData → SnapshotVma → TaskData
list_snapshotted d v = record d {
  ss = record (d.ss) { snapshotted_vmas = d.ss.snapshotted_vmas ++ v ∷ [] };
}

module _ {S P : Type 0} (k : Mmu S P) where
  -- The result's last part is whether the entry returns 0.
  unfoldable pub snapshot_pte_entry : Option SnapshotPage → WalkState S → ℕ → ℕ → WalkState S × Bool
  snapshot_pte_entry kmalloc st addr next =
      let (w, act) = snapshot_walk_check_range st.task st.walk addr next in
      elim act [
        | action_continue ↦ (record st { walk = w }, true)
        | action_subtree ↦
            let (d, s, ok) = make_snapshot_page k kmalloc st.task st.space addr in
            (record { task = d; walk = w; space = s }, ok)
      ]

  -- One round of the loop over the regions of the process, and whether it goes on. `kmalloc` is what
  -- the allocation returns, and `walk_page_vma` the kernel's walk with `snapshot_walk_ops`, whose last
  -- result is whether it returns 0.
  unfoldable pub take_vma :
      Option SnapshotVma
      → (WalkState S → Vma → WalkState S × Bool)
      → ℕ
      → WalkState S
      → Vma
      → WalkState S × Bool
  take_vma kmalloc walk_page_vma start_stack st vma =
      let (d, found) = add_snapshot_vma kmalloc st.task vma in
      elim found [
        | none ↦ (record st { task = d }, false)
        | some v ↦
            if is_skipped d vma start_stack
            then (record st { task = d }, true)
            else walk_page_vma (record st { task = list_snapshotted d v }) vma
      ]

  -- The loop; `kmalloc` says what the allocation for each region returns.
  unfoldable pub take_vmas :
      (ℕ → Option SnapshotVma)
      → (WalkState S → Vma → WalkState S × Bool)
      → ℕ
      → WalkState S
      → List Vma
      → WalkState S × Bool
  take_vmas kmalloc walk_page_vma start_stack st [] = (st, true)
  take_vmas kmalloc walk_page_vma start_stack st (vma ∷ vmas) =
      let (st', ok) = take_vma (kmalloc vma.vm_start) walk_page_vma start_stack st vma in
      elim ok [ true ↦ take_vmas kmalloc walk_page_vma start_stack st' vmas | false ↦ (st', false) ]

  unfoldable pub take_memory_snapshot :
      (ℕ → Option SnapshotVma)
      → (WalkState S → Vma → WalkState S × Bool)
      → ℕ
      → List Vma
      → TaskData
      → S
      → TaskData × S × Bool
  take_memory_snapshot kmalloc walk_page_vma start_stack vmas d s =
      let start : WalkState S = record { task = d; walk = walk_start; space = s } in
      let (st, ok) = take_vmas kmalloc walk_page_vma start_stack start vmas in
      (st.task, st.space, ok)
