-- ===== src/Tests/System.antt =====
-- The module from its load on: a process takes a snapshot and writes to its heap.
use afl_snapshot_lkm.Base.{Bool, true, false, ℕ, ◌≡◌, refl, Option, none, some, []}
use afl_snapshot_lkm.Page.{SnapshotPage}
use afl_snapshot_lkm.Mmu.{PageView}
use afl_snapshot_lkm.Task.{TaskData, get_task_data, ensure_task_data}
use afl_snapshot_lkm.Task.Listed.{put_task_data}
use afl_snapshot_lkm.Ranges.{snapshot_walk_check_range, intersect}
use afl_snapshot_lkm.Files.{pos, take_files_snapshot, save_file_offsets}
use afl_snapshot_lkm.Memory.{
  ran, make_snapshot_page, mark_page, add_snapshot_page, record_dirty_page, save_page,
}
use afl_snapshot_lkm.Memory.Fault.{do_wp_page_hook}
use afl_snapshot_lkm.Memory.Take.{
  take_memory_snapshot, take_vmas, take_vma, snapshot_pte_entry, add_snapshot_vma, is_skipped,
}
use afl_snapshot_lkm.Memory.Session.{write_fault_taken}
use afl_snapshot_lkm.Snapshot.{World, take_parts, take_snapshot, do_exit_hook}
use afl_snapshot_lkm.Device.{
  Caller, Reply, replied, crashed, unfinished, mod_dev_ioctl, afl_snapshot_ioctl_take,
}
use afl_snapshot_lkm.System.Lived.{unmade}
use afl_snapshot_lkm.System.Tasks.{Consistent}
use afl_snapshot_lkm.System.Calls
use afl_snapshot_lkm.System.Calls.{loaded, then_call, ioctl, memory, reachable-Consistent}
use afl_snapshot_lkm.System.Hooks.{with_cached, with_listed, wp_page_on, rmap_on, munmap_on}
use afl_snapshot_lkm.System.Reached.{
  hook_state, looked_up_state, cached_hooks-listed, exited-forgotten,
}
use afl_snapshot_lkm.Tests.Machine.{Space, machine}
use afl_snapshot_lkm.Tests.Memory.{walk-Calls}
use afl_snapshot_lkm.Tests.Files.{Positions}
use afl_snapshot_lkm.Tests.Threads.{Group}
use afl_snapshot_lkm.Tests.Snapshot.{kernel}
use afl_snapshot_lkm.Tests.Device.{macros}
use afl_snapshot_lkm.Tests.Process.{start, chances, data_or, mm_events, vma_events}

abbrev new : World Positions Space Group
new = record start {
  tasks = [];
  cache = record { last_task = λ cpu. none; last_task_data = λ cpu. none };
}

abbrev caller : Caller Space
caller = record { copy_from_user = λ a. none; range_memory = true; chances = chances }

abbrev world_or_new : Reply (World Positions Space Group) → World Positions Space Group
world_or_new (replied w z) = w
world_or_new crashed = new
world_or_new unfinished = new

-- With MMAP, FDS and REGS.
abbrev taken : World Positions Space Group
taken =
    world_or_new (mod_dev_ioctl macros kernel 10 caller new 4 (afl_snapshot_ioctl_take macros) 13)

abbrev taken_data : TaskData
taken_data = data_or (get_task_data taken.tasks 4)

abbrev faulted : TaskData × Space × Bool
faulted =
    do_wp_page_hook machine (some 0) taken_data taken.space 0x1234
      (machine.pte_at taken.space 0x1000)

abbrev later : World Positions Space Group
later = record taken { tasks = put_task_data taken.tasks faulted.0; space = faulted.1 }

run : Calls.Run macros kernel new later
unfolding mod_dev_ioctl take_snapshot take_parts ensure_task_data get_task_data put_task_data
    take_memory_snapshot take_files_snapshot save_file_offsets take_vmas take_vma add_snapshot_vma
    is_skipped snapshot_pte_entry snapshot_walk_check_range intersect make_snapshot_page mark_page
    add_snapshot_page do_wp_page_hook record_dirty_page save_page
run =
    then_call
      (then_call loaded
        (ioctl 10 caller 4 (afl_snapshot_ioctl_take macros) 13 (pos 1) walk-Calls refl))
      (memory 4 taken_data faulted.0 faulted.1 refl
        (write_fault_taken (some 0) 0x1234 refl refl refl) refl)

reachable-Consistent_example : Consistent later.tasks later.cache
reachable-Consistent_example =
    reachable-Consistent macros kernel mm_events vma_events new later refl (λ cpu. refl) run

cached_hooks-listed_example :
    let h = hook_state later in
    let h' = looked_up_state later 0 4 in
    ((kmalloc : Option ℕ) (address : ℕ) (pte : PageView)
      → let hook = wp_page_on machine kmalloc later.space address pte in
        with_cached hook h 0 4 ≡ with_listed hook h' 4)
    × ((kmalloc : Option SnapshotPage) (address : ℕ)
        → let hook = rmap_on machine kmalloc later.space address in
          with_cached hook h 0 4 ≡ with_listed hook h' 4)
    × ((kmalloc : ℕ → Option ℕ) (start len : ℕ)
        → let hook = munmap_on machine kmalloc later.space start len in
          with_cached hook h 0 4 ≡ with_listed hook h' 4)
cached_hooks-listed_example =
    cached_hooks-listed macros kernel mm_events vma_events new refl (λ cpu. refl) later 0 4 run

abbrev ended : World Positions Space Group
ended = do_exit_hook kernel later 4

exited-forgotten_example :
    ((d : TaskData) → get_task_data ended.tasks 4 ≡ some d → d.ss ≡ unmade)
    × ((kmalloc : Option ℕ) (address : ℕ) (pte : PageView)
        → with_cached (wp_page_on machine kmalloc ended.space address pte) (hook_state ended) 0 4
          ≡ ran (looked_up_state ended 0 4, false))
    × ((kmalloc : Option SnapshotPage) (address : ℕ)
        → with_cached (rmap_on machine kmalloc ended.space address) (hook_state ended) 0 4
          ≡ ran (looked_up_state ended 0 4, false))
    × ((kmalloc : ℕ → Option ℕ) (start len : ℕ)
        → with_cached (munmap_on machine kmalloc ended.space start len) (hook_state ended) 0 4
          ≡ ran (looked_up_state ended 0 4, false))
exited-forgotten_example =
    exited-forgotten macros kernel mm_events vma_events new refl (λ cpu. refl) later 0 4 run
