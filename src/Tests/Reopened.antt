-- ===== src/Tests/Reopened.antt =====
-- The process of Tests/Process.antt reads on in its first file before it restores the snapshot.
use afl_snapshot_lkm.Base.{◌≡◌, refl, some, [], ◌∷◌, ◌==◌, arith, if◌then◌else◌}
use afl_snapshot_lkm.Task.{fresh_task_data, get_task_data, ensure_task_data}
use afl_snapshot_lkm.Task.Listed.{put_task_data}
use afl_snapshot_lkm.Ranges.{snapshot_walk_check_range, intersect}
use afl_snapshot_lkm.Files.{take_files_snapshot, save_file_offsets}
use afl_snapshot_lkm.Memory.{
  make_snapshot_page, mark_page, add_snapshot_page, record_dirty_page, save_page,
}
use afl_snapshot_lkm.Memory.Fault.{do_wp_page_hook}
use afl_snapshot_lkm.Memory.Take.{
  take_memory_snapshot, take_vmas, take_vma, snapshot_pte_entry, add_snapshot_vma, is_skipped,
}
use afl_snapshot_lkm.Snapshot.{World, take_parts, take_snapshot, recover_snapshot}
use afl_snapshot_lkm.Tests.Machine.{Space}
use afl_snapshot_lkm.Tests.Memory.{walk-Calls}
use afl_snapshot_lkm.Tests.Files.{Positions}
use afl_snapshot_lkm.Tests.Threads.{Group, group_laws, was_killed, references}
use afl_snapshot_lkm.Tests.Snapshot.{kernel}
use afl_snapshot_lkm.Snapshot.Reopened.{take_recover-files}
use afl_snapshot_lkm.Files.{
  pos, negsuc, recover_files_snapshot, restore_file_offsets, restore_file_offset, replace_files,
}
use afl_snapshot_lkm.Files.Seek.{first}
use afl_snapshot_lkm.Tests.Files.{position, seek_laws, each-Once}
use afl_snapshot_lkm.Tests.Process.{
  start, chances, taken, taken_data, faulted, written, ran_on, mm_events, vma_events, allocated,
  takes, taken_found, run, faulted_found, follows, regions_done,
}

abbrev read_on : World Positions Space Group
read_on = record ran_on {
  files = record (taken.files) { kernel = λ f. if f == 10 then pos 777 else negsuc 28 };
}

kept_array : read_on.files.arrays 40 ≡ taken.files.arrays 40
kept_array = refl

files_done : (recover_files_snapshot kernel.file faulted.0 read_on.files 4).1 ≡ 0
unfolding take_snapshot take_parts ensure_task_data get_task_data put_task_data take_memory_snapshot
    take_files_snapshot save_file_offsets take_vmas take_vma add_snapshot_vma is_skipped
    snapshot_pte_entry snapshot_walk_check_range intersect make_snapshot_page mark_page
    add_snapshot_page do_wp_page_hook record_dirty_page save_page recover_files_snapshot
    restore_file_offsets restore_file_offset replace_files
files_done = refl

take_recover-files_example :
    (w₂ : World Positions Space Group) × (recover_snapshot kernel 10 read_on 4 ≡ some (w₂, 0))
    × (w₂.files.kernel 10 ≡ pos 100)
take_recover-files_example =
    take_recover-files kernel chances walk-Calls mm_events vma_events was_killed references
      group_laws position seek_laws start taken read_on 4 13 1 10 (fresh_task_data 4) taken_data
      faulted.0 (4 ∷ 5 ∷ []) (faulted.0, written) 40 6 6 0 10 100 allocated refl takes taken_found
      run faulted_found follows (omega arith) regions_done refl refl refl each-Once kept_array refl
      refl files_done (first refl refl) refl
