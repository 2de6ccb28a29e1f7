-- ===== src/Tests/Memory.antt =====
-- A process with two pages in its heap: a snapshot, a write to each page, an unmap, a restore.
use afl_snapshot_lkm.Base.{
  ℕ, ◌≡◌, refl, Bool, true, false, Option, none, some, [], ◌∷◌, ◌==◌, arith, if◌then◌else◌,
}
use afl_snapshot_lkm.Page.{SnapshotPage}
use afl_snapshot_lkm.Task.{TaskData, SnapshotVma, fresh_task_data, set_snapshot}
use afl_snapshot_lkm.Ranges.{snapshot_walk_check_range, intersect}
use afl_snapshot_lkm.Memory.{
  make_snapshot_page, mark_page, add_snapshot_page, record_dirty_page, is_snapshotted_in, Run, ran,
  oops,
}
use afl_snapshot_lkm.Memory.Fault.{do_wp_page_hook, page_add_new_anon_rmap_hook, note_pte}
use afl_snapshot_lkm.Memory.Take.{
  Vma, WalkState, take_memory_snapshot, take_vmas, take_vma, snapshot_pte_entry, add_snapshot_vma,
  is_skipped,
}
use afl_snapshot_lkm.Memory.Take.Establish.{
  Calls, done, entry, promise_of, take_memory_snapshot-Inv,
}
use afl_snapshot_lkm.Memory.Invariant.{Inv}
use afl_snapshot_lkm.Memory.Record.{record_dirty_page-Inv}
use afl_snapshot_lkm.Memory.Anon.{page_add_new_anon_rmap_hook-Inv}
use afl_snapshot_lkm.Memory.Session.Noted.{Noted}
use afl_snapshot_lkm.Tests.Machine.{Space, machine, machine_laws, zeros}

-- Page 0x1000 holds 5; no other page is present.
abbrev pub before : Space
before p =
    if p == 0x1000
    then record { absent = false; writable = true; anon = true; bytes = 5; mapped = true }
    else record { absent = true; writable = false; anon = false; bytes = 0; mapped = true }

abbrev pub blank : SnapshotPage
blank = record {
  page_base = 77;
  page_prot = 77;
  page_data = none;
  has_been_copied = true;
  has_had_pte = true;
  dirty = true;
  in_dirty_list = true;
}

abbrev pub heap : Vma
heap = record { vm_start = 0x1000; vm_end = 0x3000; vm_flags = 3; is_anonymous = true }

abbrev pub blank_vma : ℕ → Option SnapshotVma
blank_vma a = some (record { vm_start = 0; vm_end = 0; is_anonymous_private = false; prot = 0 })

-- The walk over a region presents the entry of its first page.
abbrev pub walk : WalkState Space → Vma → WalkState Space × Bool
walk st vma = snapshot_pte_entry machine (some blank) st vma.vm_start 0x2000

pub walk-Calls : (st : WalkState Space) (vma : Vma) → Calls machine st (walk st vma).0
walk-Calls st vma = entry st _ (some blank) vma.vm_start 0x2000 done refl

abbrev task : TaskData
task = set_snapshot (fresh_task_data 7)

abbrev taken : TaskData × Space × Bool
taken = take_memory_snapshot machine blank_vma walk 0x9000 (heap ∷ []) task before

-- The process writes to the first page, which the hook makes writable, and touches the second.
abbrev faulted : TaskData × Space × Bool
faulted = do_wp_page_hook machine (some 0) taken.0 taken.1 0x1234 (machine.pte_at taken.1 0x1000)

abbrev written : Space
written p = if 0x1000 == p then record (faulted.1 p) { bytes = 9 } else faulted.1 p

no_pages : (p : ℕ) → task.ss.ss_pages p ≡ none
no_pages p = refl

pub unmapped_zero :
    (p : ℕ) → machine.pte_none (machine.pte_at before p) ≡ true → machine.content before p ≡ zeros p
unmapped_zero p h = ground arith

pub before_mapped : (p : ℕ) → (before p).mapped ≡ true
before_mapped p = ground arith

take_memory_snapshot-Inv_example :
    Inv machine zeros (promise_of machine before taken.0) taken.0 taken.1
take_memory_snapshot-Inv_example =
    take_memory_snapshot-Inv machine zeros machine_laws before blank_vma walk 0x9000 (heap ∷ [])
      task walk-Calls refl refl no_pages unmapped_zero

taken_Inv : Inv machine zeros (promise_of machine before taken.0) taken.0 taken.1
taken_Inv =
    take_memory_snapshot-Inv machine zeros machine_laws before blank_vma walk 0x9000 (heap ∷ [])
      task walk-Calls refl refl no_pages unmapped_zero

record_dirty_page-Inv_example :
    Inv machine zeros
      (promise_of machine before taken.0)
      (record_dirty_page machine (some 0) taken.0 taken.1 0x1000 (machine.pte_at taken.1 0x1000)).0
      taken.1
record_dirty_page-Inv_example =
    record_dirty_page-Inv machine zeros (promise_of machine before taken.0) machine_laws (some 0)
      taken.0 taken.1 0x1000 refl taken_Inv

-- The second page is touched: it is not in the table, and the hook adds it.
abbrev ran_or : TaskData → Run TaskData → TaskData
ran_or d (ran d') = d'
ran_or d oops = d

abbrev touched : TaskData
touched = ran_or taken.0 (page_add_new_anon_rmap_hook (some blank) taken.0 0x2abc)

abbrev filled : Space
filled p =
    if 0x2000 == p
    then record { absent = false; writable = true; anon = true; bytes = 0; mapped = true }
    else taken.1 p

touches : page_add_new_anon_rmap_hook (some blank) taken.0 0x2abc ≡ ran touched
unfolding take_memory_snapshot take_vmas take_vma add_snapshot_vma is_skipped snapshot_pte_entry
    snapshot_walk_check_range intersect make_snapshot_page mark_page add_snapshot_page
    page_add_new_anon_rmap_hook note_pte is_snapshotted_in
touches = refl

second_unknown : taken.0.ss.ss_pages 0x2000 ≡ none
unfolding take_memory_snapshot take_vmas take_vma add_snapshot_vma is_skipped snapshot_pte_entry
    snapshot_walk_check_range intersect make_snapshot_page mark_page add_snapshot_page
second_unknown = refl

page_add_new_anon_rmap_hook-Inv_example :
    Inv machine zeros (promise_of machine before taken.0) touched filled
page_add_new_anon_rmap_hook-Inv_example =
    page_add_new_anon_rmap_hook-Inv machine zeros (promise_of machine before taken.0) (some blank)
      taken.0 0x2abc touched taken.1 filled touches (λ q e. rw e refl)
      (λ c w sp e f. absurd (let n = second_unknown in cc)) taken_Inv
