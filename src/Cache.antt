-- ===== src/Cache.antt =====
-- The per-CPU cache of the task data that was looked up last, src/memory.c. A pointer to a task data
-- is the task it belongs to, a CPU is a number, and null is `none`.
-- `Coherent` has the events that change the cache or the list, and what each of them keeps.
pub mod Coherent
use afl_snapshot_lkm.Base.{
  ℕ, Bool, true, false, Option, none, some, List, ◌==◌, if◌then◌else◌, update,
}
use afl_snapshot_lkm.Task.{TaskData, get_task_data}

pub record Cache : Type 0 where
  pub last_task : ℕ → Option ℕ
  pub last_task_data : ℕ → Option ℕ

abbrev pub is_task : Option ℕ → ℕ → Bool
is_task none task = false
is_task (some t) task = t == task

abbrev pub pointer : Option TaskData → Option ℕ
pointer none = none
pointer (some d) = some d.tsk

unfoldable pub get_task_data_with_cache : List TaskData → Cache → ℕ → ℕ → Cache × Option ℕ
get_task_data_with_cache ds c cpu task =
    if is_task (c.last_task cpu) task
    then (c, c.last_task_data cpu)
    else let found = pointer (get_task_data ds task) in
      (
        record {
          last_task = update c.last_task cpu (some task);
          last_task_data = update c.last_task_data cpu found;
        },
        found,
      )

unfoldable pub invalidate_task_data_cache : Cache → ℕ → Cache
invalidate_task_data_cache c task = record {
  last_task = λ i. if is_task (c.last_task i) task then none else c.last_task i;
  last_task_data = λ i. if is_task (c.last_task i) task then none else c.last_task_data i;
}
