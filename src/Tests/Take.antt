-- ===== src/Tests/Take.antt =====
-- A take over three regions, of which one is snapshotted, and a walk that presents two pages, of which
-- one is excluded.
use afl_snapshot_lkm.Base.{
  ◌+◌, ◌≡◌, refl, Bool, true, false, ◌||◌, some, List, [], ◌∷◌, ◌++◌, is_some, arith,
}
use afl_snapshot_lkm.Task.{TaskData, fresh_task_data}
use afl_snapshot_lkm.Ranges.{exclude_range}
use afl_snapshot_lkm.Ranges.Policy.{overlapping}
use afl_snapshot_lkm.Memory.Take.{Vma, WalkState, take_memory_snapshot}
use afl_snapshot_lkm.Memory.Take.Establish.{done}
use afl_snapshot_lkm.Memory.Take.Selected.{
  bounds, vma_bounds, selected, is_selected, take_memory_snapshot-Listed,
}
use afl_snapshot_lkm.Memory.Take.Entered.{Visit, visits_range, visits_page, present, chosen, ranges}
use afl_snapshot_lkm.Memory.Take.Chosen.{all_visited, take_memory_snapshot-chosen}
use afl_snapshot_lkm.Ranges.Walk.{Ascending}
use afl_snapshot_lkm.Tests.Machine.{Space, machine}
use afl_snapshot_lkm.Tests.Memory.{before, heap, blank, blank_vma}

abbrev code : Vma
code = record { vm_start = 0x4000; vm_end = 0x5000; vm_flags = 5; is_anonymous = false }

abbrev shared : Vma
shared = record { vm_start = 0x6000; vm_end = 0x7000; vm_flags = 11; is_anonymous = true }

abbrev vmas : List Vma
vmas = heap ∷ code ∷ shared ∷ []

abbrev task : TaskData
task = exclude_range (fresh_task_data 7) 0x2000 0x3000

-- A walk that presents nothing.
abbrev walk : WalkState Space → Vma → WalkState Space × Bool
walk st vma = (st, true)

heap_alone : vma_bounds (selected task 0x9000 vmas) ≡ (0x1000, 0x3000) ∷ []
unfolding is_selected overlapping
heap_alone = refl

take_memory_snapshot-Listed_example :
    let r = take_memory_snapshot machine blank_vma walk 0x9000 vmas task before in
    (r.2 ≡ true)
    × (bounds r.0.ss.all_vmas ≡ bounds [] ++ vma_bounds vmas)
    × (bounds r.0.ss.snapshotted_vmas ≡ bounds [] ++ vma_bounds (selected task 0x9000 vmas))
take_memory_snapshot-Listed_example =
    take_memory_snapshot-Listed machine blank_vma walk 0x9000 (λ st vma. done) (λ st vma. refl)
      (λ a. refl) vmas task before

-- A walk presents the region and its first two pages.
abbrev visits : Vma → List Visit
visits v =
    visits_range v.vm_start v.vm_end
    ∷ visits_page v.vm_start
    ∷ visits_page (v.vm_start + 0x1000)
    ∷ []

heap_visited : all_visited visits 0x9000 task vmas ≡ visits heap
unfolding is_selected overlapping
heap_visited = refl

heap_Ascending : Ascending 0 (ranges (all_visited visits 0x9000 task vmas))
unfolding is_selected overlapping
heap_Ascending = omega arith

take_memory_snapshot-chosen_example :
    let r =
      take_memory_snapshot machine blank_vma
        (λ st v. present machine (λ a. some blank) st (visits v))
        0x9000
        vmas
        task
        before in
    (r.2 ≡ true)
    × (is_some (r.0.ss.ss_pages 0x2000) ≡ (
        is_some (task.ss.ss_pages 0x2000)
        || chosen task (all_visited visits 0x9000 task vmas) 0x2000))
take_memory_snapshot-chosen_example =
    take_memory_snapshot-chosen machine blank_vma (λ a. some blank) visits 0x9000 (λ a. refl)
      (λ a. refl) task (omega arith) (omega arith) vmas before 0x2000 heap_Ascending
