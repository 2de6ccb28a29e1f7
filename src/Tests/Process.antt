-- ===== src/Tests/Process.antt =====
-- A process of three threads takes a snapshot, writes to its heap and to its registers, and restores it.
use afl_snapshot_lkm.Base.{
  ℕ, ◌≡◌, refl, Bool, true, false, Option, none, some, [], ◌∷◌, ◌==◌, if◌then◌else◌,
}
use afl_snapshot_lkm.Task.{
  TaskData, fresh_task_data, get_task_data, ensure_task_data, have_snapshot, had_snapshot,
}
use afl_snapshot_lkm.Task.Listed.{put_task_data}
use afl_snapshot_lkm.Ranges.{snapshot_walk_check_range, intersect}
use afl_snapshot_lkm.Threads.Killed.{Follow}
use afl_snapshot_lkm.Brk.{restore_brk}
use afl_snapshot_lkm.Regions.{restore_vmas, sweep, fix_interval, advance, next_cursor}
use afl_snapshot_lkm.Mmu.{view}
use afl_snapshot_lkm.Files.{take_files_snapshot, save_file_offsets}
use afl_snapshot_lkm.Memory.{
  Run, ran, oops, make_snapshot_page, mark_page, add_snapshot_page, record_dirty_page, save_page,
}
use afl_snapshot_lkm.Memory.Fault.{do_wp_page_hook}
use afl_snapshot_lkm.Memory.Take.{
  take_memory_snapshot, take_vmas, take_vma, snapshot_pte_entry, add_snapshot_vma, is_skipped,
}
use afl_snapshot_lkm.Memory.Take.Establish.{promise_of}
use afl_snapshot_lkm.Memory.Take.Kept.{Kept}
use afl_snapshot_lkm.Memory.Session.{Becomes, Reach, here, next, store, write_fault_taken}
use afl_snapshot_lkm.Snapshot.{World, Chances, take_parts, take_snapshot, restore_regions}
use afl_snapshot_lkm.Snapshot.Take.{take_snapshot-made, take_snapshot-twice, take_snapshot-oops}
use afl_snapshot_lkm.Snapshot.Events.{MmEvents, VmaEvents}
use afl_snapshot_lkm.Snapshot.Recover.{after_brk}
use afl_snapshot_lkm.Snapshot.Whole.{memory_taken}
use afl_snapshot_lkm.Tests.Machine.{Space, machine}
use afl_snapshot_lkm.Tests.Memory.{before, heap, blank_vma, walk, walk-Calls}
use afl_snapshot_lkm.Tests.Files.{Positions, opened}
use afl_snapshot_lkm.Tests.Threads.{Group, group, running, rest-Follow}
use afl_snapshot_lkm.Tests.Snapshot.{breaks, no_regions, kernel}

abbrev pub start : World Positions Space Group
start = record {
  tasks = fresh_task_data 8 ∷ [];
  cache = record { last_task = λ cpu. some 4; last_task_data = λ cpu. none };
  files = opened;
  space = before;
  threads = running;
  regs = 99;
}

abbrev pub chances : Chances Space
chances = record {
  data_memory = true;
  vma_memory = blank_vma;
  array_memory = some 40;
  vmas = heap ∷ [];
  walk_page_vma = walk;
  start_stack = 0x9000;
}

abbrev world_or : Run (World Positions Space Group × ℕ) → World Positions Space Group
world_or oops = start
world_or (ran r) = r.0

abbrev pub data_or : Option TaskData → TaskData
data_or none = fresh_task_data 4
data_or (some d) = d

-- With MMAP, FDS and REGS.
abbrev pub taken : World Positions Space Group
taken = world_or (take_snapshot kernel chances start 4 13)

abbrev pub taken_data : TaskData
taken_data = data_or (get_task_data taken.tasks 4)

abbrev pub faulted : TaskData × Space × Bool
faulted =
    do_wp_page_hook machine (some 0) taken_data taken.space 0x1234
      (machine.pte_at taken.space 0x1000)

abbrev pub written : Space
written p = if 0x1000 == p then record (faulted.1 p) { bytes = 9 } else faulted.1 p

abbrev pub ran_on : World Positions Space Group
ran_on = record taken { tasks = put_task_data taken.tasks faulted.0; space = written; regs = 7 }

pub mm_events : MmEvents machine breaks
mm_events = record {
  set_brk-Runs = λ m a. here;
  vm_munmap-Runs = λ m a n. here;
  vm_brk-Runs = λ m a n. here;
}

pub vma_events : VmaEvents machine no_regions
vma_events = record { vm_munmap-Runs = λ m a n. here; vm_mmap-Runs = λ m a n prot. here }

pub allocated : (ensure_task_data true start.tasks 4).1 ≡ some (fresh_task_data 4)
unfolding ensure_task_data get_task_data
allocated = refl

pub takes : take_snapshot kernel chances start 4 13 ≡ ran (taken, 1)
unfolding take_snapshot take_parts ensure_task_data get_task_data take_memory_snapshot
    take_files_snapshot save_file_offsets
takes = refl

pub taken_found : get_task_data taken.tasks 4 ≡ some taken_data
unfolding take_snapshot take_parts ensure_task_data get_task_data put_task_data take_memory_snapshot
    take_files_snapshot save_file_offsets take_vmas take_vma add_snapshot_vma is_skipped
    snapshot_pte_entry snapshot_walk_check_range intersect make_snapshot_page mark_page
    add_snapshot_page
taken_found = refl

pub faulted_found : get_task_data ran_on.tasks 4 ≡ some faulted.0
unfolding take_snapshot take_parts ensure_task_data get_task_data put_task_data take_memory_snapshot
    take_files_snapshot save_file_offsets take_vmas take_vma add_snapshot_vma is_skipped
    snapshot_pte_entry snapshot_walk_check_range intersect make_snapshot_page mark_page
    add_snapshot_page do_wp_page_hook record_dirty_page save_page
faulted_found = refl

store-Becomes :
    Becomes machine faulted.1 0x1000 (record (view machine faulted.1 0x1000) { bytes = 9 }) written
unfolding take_snapshot take_parts ensure_task_data get_task_data put_task_data take_memory_snapshot
    take_files_snapshot save_file_offsets take_vmas take_vma add_snapshot_vma is_skipped
    snapshot_pte_entry snapshot_walk_check_range intersect make_snapshot_page mark_page
    add_snapshot_page do_wp_page_hook record_dirty_page save_page
store-Becomes = (refl, λ q e. rw e refl)

pub run : Reach machine taken_data taken.space faulted.0 ran_on.space
unfolding take_snapshot take_parts ensure_task_data get_task_data put_task_data take_memory_snapshot
    take_files_snapshot save_file_offsets take_vmas take_vma add_snapshot_vma is_skipped
    snapshot_pte_entry snapshot_walk_check_range intersect make_snapshot_page mark_page
    add_snapshot_page do_wp_page_hook record_dirty_page save_page
run =
    next (next here (write_fault_taken (some 0) 0x1234 refl refl refl))
      (store 0x1000 9 refl store-Becomes refl)

pub follows :
    Follow group ran_on.threads (group.group_leader ran_on.threads faulted.0.tsk) (4 ∷ 5 ∷ [])
follows = rest-Follow

pub regions_done :
    restore_regions kernel 10
      (after_brk kernel ran_on faulted.0).0
      (after_brk kernel ran_on faulted.0).1
    ≡ some ((faulted.0, written), 0)
unfolding take_snapshot take_parts ensure_task_data get_task_data put_task_data take_memory_snapshot
    take_files_snapshot save_file_offsets take_vmas take_vma add_snapshot_vma is_skipped
    snapshot_pte_entry snapshot_walk_check_range intersect make_snapshot_page mark_page
    add_snapshot_page do_wp_page_hook record_dirty_page save_page restore_brk restore_vmas sweep
    fix_interval advance next_cursor
regions_done = refl

abbrev promise : ℕ → Option ℕ
promise = promise_of machine before (memory_taken kernel chances start 13 (fresh_task_data 4)).0

take_snapshot-made_example :
    (w' : World Positions Space Group) × (d' : TaskData) × (take_snapshot kernel chances start 4 13
      ≡ ran (w', 1))
    × (get_task_data w'.tasks 4 ≡ some d')
    × (have_snapshot d' ≡ true)
    × ((q : ℕ) → (4 == q) ≡ false → get_task_data w'.tasks q ≡ get_task_data start.tasks q)
    × (false ≡ false
        → (had_snapshot d' ≡ true)
          × (d'.config ≡ 13)
          × (d'.ss.regs ≡ 99)
          × (d'.ss.oldbrk ≡ 0x8000)
          × (d'.allowlist ≡ [])
          × (d'.blocklist ≡ []))
take_snapshot-made_example =
    take_snapshot-made kernel chances start 4 13 (fresh_task_data 4) walk-Calls allocated

take_snapshot-twice_example : take_snapshot kernel chances taken 4 0 ≡ ran (taken, 0)
take_snapshot-twice_example =
    take_snapshot-twice kernel chances chances start taken 4 13 0 1 walk-Calls takes

abbrev no_memory : Chances Space
no_memory = record chances { data_memory = false }

take_snapshot-oops_example :
    (take_snapshot kernel no_memory start 4 13 ≡ oops
      → (get_task_data start.tasks 4 ≡ none) × (false ≡ false))
    × ((get_task_data start.tasks 4 ≡ none) × (false ≡ false)
        → take_snapshot kernel no_memory start 4 13 ≡ oops)
take_snapshot-oops_example = take_snapshot-oops kernel no_memory start 4 13 walk-Calls
