-- ===== src/Snapshot.antt =====
-- The life of a snapshot: src/snapshot.c, with `recover_memory_snapshot`, `clean_memory_snapshot` and
-- `clean_snapshot_vmas` of src/memory.c, which it calls.
-- A kernel function that maps or unmaps memory runs the hooks of the module, so it works on the task data
-- and the address space together. The registers are one number, since they are only copied. `none`
-- means that a loop has run out of fuel. Messages and the freeing of memory are left out.
pub mod Clean
pub mod Taken
pub mod Take
pub mod Events
pub mod Exit
pub mod Recover
pub mod Whole
pub mod Ends
pub mod Reopened
use afl_snapshot_lkm.Base.{
  ℕ, ◌==◌, ◌&&◌, not, Bool, true, false, if◌then◌else◌, Option, none, some, List, [], has_flag,
}
use afl_snapshot_lkm.Task.{
  TaskData, SnapshotVma, get_task_data, ensure_task_data, remove_task_data, clear_snapshot,
  set_snapshot, set_had_snapshot, have_snapshot, had_snapshot,
}
use afl_snapshot_lkm.Task.Listed.{put_task_data}
use afl_snapshot_lkm.Cache.{Cache, invalidate_task_data_cache}
use afl_snapshot_lkm.Ranges.{afl_snapshot_mmap, afl_snapshot_regs, afl_snapshot_exit}
use afl_snapshot_lkm.Mmu.{Mmu}
use afl_snapshot_lkm.Brk.{MmOps, restore_brk}
use afl_snapshot_lkm.Regions.{VmaOps, restore_vmas}
use afl_snapshot_lkm.Threads.{ThreadOps, recover_threads_snapshot}
use afl_snapshot_lkm.Files.{
  FileOps, FilesState, take_files_snapshot, recover_files_snapshot, clean_files_snapshot,
}
use afl_snapshot_lkm.Memory.{Run, ran, oops, with_pages}
use afl_snapshot_lkm.Memory.Recover.{recover_dirty}
use afl_snapshot_lkm.Memory.Take.{Vma, WalkState, take_memory_snapshot}

-- What the module keeps, and of the kernel the files, the running process's address space, the threads
-- and the registers of the running task.
pub record World (K S T : Type 0) : Type 0 where
  pub tasks : List TaskData
  pub cache : Cache
  pub files : FilesState K
  pub space : S
  pub threads : T
  pub regs : ℕ

-- The kernel's functions.
pub record Kernel (K S P T : Type 0) : Type 0 where
  pub mmu : Mmu S P
  pub mm : MmOps (TaskData × S)
  pub vma : VmaOps (TaskData × S)
  pub file : FileOps K
  pub thread : ThreadOps T

-- What one call of `take_snapshot` finds: whether a task data can be allocated, what the other
-- allocations return, the regions of the process, the walk over one of them, and where its stack is.
pub record Chances (S : Type 0) : Type 0 where
  pub data_memory : Bool
  pub vma_memory : ℕ → Option SnapshotVma
  pub array_memory : Option ℕ
  pub vmas : List Vma
  pub walk_page_vma : WalkState S → Vma → WalkState S × Bool
  pub start_stack : ℕ

-- Each region leaves both lists.
abbrev pub clean_snapshot_vmas : TaskData → TaskData
clean_snapshot_vmas d = record d { ss = record (d.ss) { all_vmas = []; snapshotted_vmas = [] } }

-- Each page leaves the table; the list of dirty pages is not touched.
abbrev pub clean_memory_snapshot : Cache → TaskData → Cache × TaskData
clean_memory_snapshot c d =
    (invalidate_task_data_cache c d.tsk, with_pages (clean_snapshot_vmas d) (λ p. none))

-- `brk` is that of the process.
abbrev pub initialize_snapshot : TaskData → ℕ → ℕ → ℕ → TaskData
initialize_snapshot d config regs brk =
    let d' = set_snapshot (set_had_snapshot (record d { config = config })) in
    record d' { ss = record (d'.ss) { regs = regs; oldbrk = brk } }

module _ {K S P T : Type 0} (k : Kernel K S P T) where
  -- The data of the running task after the three calls before `remove_task_data`.
  abbrev pub cleaned_data : World K S T → TaskData → TaskData
  cleaned_data w d =
      clear_snapshot (clean_files_snapshot k.file (clean_memory_snapshot w.cache d).1 w.files).0

  unfoldable pub clean_snapshot : World K S T → ℕ → World K S T
  clean_snapshot w current = elim (get_task_data w.tasks current) [
    | none ↦ w
    | some d ↦
        let (cache, cleaned) = clean_memory_snapshot w.cache d in
        let (closed, files) = clean_files_snapshot k.file cleaned w.files in
        let cleared = clear_snapshot closed in
        record w {
          tasks = remove_task_data (put_task_data w.tasks cleared) cleared;
          cache = cache;
          files = files;
        }
  ]

  -- The two parts of a new snapshot; whether they fail is only reported.
  unfoldable pub take_parts : Chances S → World K S T → ℕ → TaskData → TaskData × World K S T
  take_parts c w current d =
      let (d', s, ok) =
        take_memory_snapshot k.mmu c.vma_memory c.walk_page_vma c.start_stack c.vmas d w.space in
      let (d'', files, error) = take_files_snapshot k.file c.array_memory d' w.files current in
      (d'', record w { cache = invalidate_task_data_cache w.cache d.tsk; files = files; space = s })

  -- With the number that the function returns. The data is used unchecked.
  unfoldable pub take_snapshot : Chances S → World K S T → ℕ → ℕ → Run (World K S T × ℕ)
  unfolding take_parts
  take_snapshot c w current config =
      let (ds, found) = ensure_task_data c.data_memory w.tasks current in
      elim found [
        | none ↦ oops
        | some d ↦
            let fresh = initialize_snapshot d config w.regs (k.mm.brk (d, w.space)) in
            let (d', w') = take_parts c (record w { tasks = ds }) current fresh in
            ran (
              if have_snapshot d
              then (record w { tasks = ds }, 0)
              else (record w' { tasks = put_task_data ds d' }, 1))
      ]

  -- `restore_vmas`, if it is asked for.
  abbrev pub restore_regions : ℕ → TaskData → S → Option ((TaskData × S) × ℕ)
  restore_regions fuel d s =
      if has_flag afl_snapshot_mmap d.config
      then restore_vmas k.vma fuel d.ss.all_vmas (d, s)
      else some ((d, s), 0)

  -- The regions, and the loop over the dirty pages unless there was an error. The last part of the
  -- result is what the function returns.
  unfoldable pub recover_memory_snapshot : ℕ → TaskData → S → Option (TaskData × S × ℕ)
  recover_memory_snapshot fuel d s = elim (restore_regions fuel d s) [
    | none ↦ none
    | some (m, res) ↦
        let r = recover_dirty k.mmu m.0 m.1 in
        some (if res == 0 then (r.0, r.1, 0) else (m.0, m.1, res))
  ]

  -- The registers, and the break; whether that fails is only reported.
  unfoldable pub recover_state : TaskData → S → ℕ → (TaskData × S) × ℕ
  recover_state d s regs = (
    (restore_brk k.mm (d, s) d.ss.oldbrk).0,
    if has_flag afl_snapshot_regs d.config then d.ss.regs else regs,
  )

  -- The four parts in turn, whatever they return.
  unfoldable pub restore_snapshot : ℕ → World K S T → ℕ → TaskData → Option (World K S T)
  unfolding recover_state recover_memory_snapshot
  restore_snapshot fuel w current d =
      elim (recover_threads_snapshot k.thread fuel w.threads d.tsk) [
        | none ↦ none
        | some threads ↦
            let (m, regs) = recover_state d w.space w.regs in
            elim (recover_memory_snapshot fuel m.0 m.1) [
              | none ↦ none
              | some (d', s, res) ↦ some (record w {
                tasks = put_task_data w.tasks d';
                files = (recover_files_snapshot k.file d' w.files current).0;
                space = s;
                threads = threads;
                regs = regs;
              })
            ]
      ]

  abbrev pub returning : ℕ → Option (World K S T) → Option (World K S T × ℕ)
  returning res none = none
  returning res (some w) = some (w, res)

  unfoldable pub recover_snapshot : ℕ → World K S T → ℕ → Option (World K S T × ℕ)
  recover_snapshot fuel w current = elim (get_task_data w.tasks current) [
    | none ↦ some (w, 1)
    | some d ↦ returning 0 (restore_snapshot fuel w current d)
  ]

  unfoldable pub exit_snapshot : ℕ → World K S T → ℕ → Option (World K S T × ℕ)
  exit_snapshot fuel w current = elim (get_task_data w.tasks current) [
    | none ↦ some (w, 1)
    | some d ↦
        if has_flag afl_snapshot_exit d.config && have_snapshot d
        then returning 0 (restore_snapshot fuel w current d)
        else some (if had_snapshot d then clean_snapshot w current else w, 1)
  ]

  -- Up to the call of the original `do_exit`, which does not return.
  unfoldable pub do_exit_hook : World K S T → ℕ → World K S T
  do_exit_hook w current = elim (get_task_data w.tasks current) [
    | none ↦ w
    | some d ↦ if had_snapshot d then clean_snapshot w current else w
  ]
