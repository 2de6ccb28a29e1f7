-- ===== src/Tests/Snapshot.antt =====
-- The life of a snapshot of a process with two open files, two threads and no regions.
use afl_snapshot_lkm.Base.{ℕ, ◌≡◌, refl, ◌==◌, if◌then◌else◌, false, true, none, some, [], ◌∷◌}
use afl_snapshot_lkm.Task.{
  TaskData, get_task_data, fresh_task_data, set_snapshot, set_had_snapshot, had_snapshot,
}
use afl_snapshot_lkm.Task.Listed.{Distinct}
use afl_snapshot_lkm.Cache.{is_task}
use afl_snapshot_lkm.Brk.{MmOps}
use afl_snapshot_lkm.Regions.{VmaOps}
use afl_snapshot_lkm.Snapshot.{
  World, Kernel, clean_snapshot, recover_snapshot, exit_snapshot, do_exit_hook,
}
use afl_snapshot_lkm.Snapshot.Clean.{clean_snapshot-gone}
use afl_snapshot_lkm.Snapshot.Exit.{restores_on_exit, exit_snapshot-agrees, do_exit_hook-gone}
use afl_snapshot_lkm.Mmu.{PageView}
use afl_snapshot_lkm.Tests.Machine.{Space, machine}
use afl_snapshot_lkm.Tests.Files.{Positions, ops, opened, task}
use afl_snapshot_lkm.Tests.Threads.{Group, group, running}

-- The break is fixed, and the process has no region.
abbrev pub breaks : MmOps (TaskData × Space)
breaks = record {
  brk = λ m. 0x8000;
  set_brk = λ m a. m;
  vm_munmap = λ m a n. (m, true);
  vm_brk = λ m a n. (m, true);
  find_vma = λ m a. none;
}

abbrev pub no_regions : VmaOps (TaskData × Space)
no_regions = record {
  mmap = λ m. none;
  vm_next = λ m p. none;
  vm_start = λ m p. 0;
  vm_end = λ m p. 0;
  vm_munmap = λ m a n. (m, 0);
  vm_mmap = λ m a n prot. (m, some a);
}

abbrev pub kernel : Kernel Positions Space PageView Group
kernel = record { mmu = machine; mm = breaks; vma = no_regions; file = ops; thread = group }

abbrev pub world : World Positions Space Group
world = record {
  tasks = task ∷ fresh_task_data 8 ∷ [];
  cache = record { last_task = λ cpu. some 7; last_task_data = λ cpu. some 7 };
  files = opened;
  space = λ p. record { absent = false; writable = true; anon = true; bytes = 1; mapped = true };
  threads = running;
  regs = 99;
}

tasks-Distinct : Distinct (task ∷ fresh_task_data 8 ∷ [])
unfolding Distinct get_task_data
tasks-Distinct = (refl, (refl, tt))

task_found : get_task_data (task ∷ fresh_task_data 8 ∷ []) 7 ≡ some task
unfolding get_task_data
task_found = refl

clean_snapshot-gone_example :
    let w' = clean_snapshot kernel world 7 in
    (get_task_data w'.tasks 7 ≡ none)
    × ((q : ℕ) → (7 == q) ≡ false → get_task_data w'.tasks q ≡ get_task_data world.tasks q)
    × ((cpu : ℕ) → is_task (w'.cache.last_task cpu) 7 ≡ false)
clean_snapshot-gone_example = clean_snapshot-gone kernel world 7 task tasks-Distinct task_found

exit_snapshot-agrees_example : exit_snapshot kernel 10 world 7 ≡ (
    if restores_on_exit (get_task_data world.tasks 7)
    then recover_snapshot kernel 10 world 7
    else some (do_exit_hook kernel world 7, 1))
exit_snapshot-agrees_example = exit_snapshot-agrees kernel 10 world 7

-- The task has a snapshot.
abbrev ended : TaskData
ended = set_had_snapshot (set_snapshot task)

abbrev world_before_end : World Positions Space Group
world_before_end = record world { tasks = ended ∷ fresh_task_data 8 ∷ [] }

ended-Distinct : Distinct world_before_end.tasks
unfolding Distinct get_task_data
ended-Distinct = (refl, (refl, tt))

ended_found : get_task_data world_before_end.tasks 7 ≡ some ended
unfolding get_task_data
ended_found = refl

do_exit_hook-gone_example :
    let w' = do_exit_hook kernel world_before_end 7 in
    (get_task_data w'.tasks 7 ≡ none)
    × ((q : ℕ)
        → (7 == q) ≡ false
        → get_task_data w'.tasks q ≡ get_task_data world_before_end.tasks q)
    × (had_snapshot ended ≡ true → (cpu : ℕ) → is_task (w'.cache.last_task cpu) 7 ≡ false)
do_exit_hook-gone_example =
    do_exit_hook-gone kernel world_before_end 7 ended ended-Distinct ended_found
