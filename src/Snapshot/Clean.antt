-- ===== src/Snapshot/Clean.antt =====
-- What `clean_snapshot` of src/snapshot.c leaves.
use afl_snapshot_lkm.Base.{ℕ, ◌≡◌, refl, ◌==◌, false, none, some, arith, ◌∙◌, sym, ap}
use afl_snapshot_lkm.Task.{TaskData, get_task_data, remove_task_data}
use afl_snapshot_lkm.Task.Listed.{
  Distinct, put_task_data, get-put, get-remove, get-remove-other, put-Distinct, get_task_data-tsk,
}
use afl_snapshot_lkm.Cache.{Cache, is_task, invalidate_task_data_cache}
use afl_snapshot_lkm.Files.{clean_files_snapshot}
use afl_snapshot_lkm.Snapshot.{World, Kernel, cleaned_data, clean_snapshot}

invalidated :
    (c : Cache) (t cpu : ℕ) → is_task ((invalidate_task_data_cache c t).last_task cpu) t ≡ false
unfolding invalidate_task_data_cache
invalidated c t cpu = ground arith

module _ {K S P T : Type 0} (o : Kernel K S P T) where
  pub cleaned-tsk : (w : World K S T) (d : TaskData) → (cleaned_data o w d).tsk ≡ d.tsk
  unfolding clean_files_snapshot
  cleaned-tsk w d = refl

  pub cleaned-tasks :
      (w : World K S T) (current : ℕ) (d : TaskData)
      → get_task_data w.tasks current ≡ some d
      → ((clean_snapshot o w current).tasks
          ≡ remove_task_data (put_task_data w.tasks (cleaned_data o w d)) (cleaned_data o w d))
        × ((clean_snapshot o w current).cache ≡ invalidate_task_data_cache w.cache d.tsk)
  unfolding clean_snapshot
  cleaned-tasks w current d h = (rw (clean_snapshot, h) refl, rw (clean_snapshot, h) refl)

  -- After `clean_snapshot` the running task has no data, the data of every other task is as it was, and
  -- no CPU has the running task in its cache, if each task has one entry at most in the list and the
  -- running task has one.
  pub clean_snapshot-gone :
      (w : World K S T) (current : ℕ) (d : TaskData)
      → Distinct w.tasks
      → get_task_data w.tasks current ≡ some d
      → let w' = clean_snapshot o w current in
        (get_task_data w'.tasks current ≡ none)
        × ((q : ℕ) → (current == q) ≡ false → get_task_data w'.tasks q ≡ get_task_data w.tasks q)
        × ((cpu : ℕ) → is_task (w'.cache.last_task cpu) current ≡ false)
  clean_snapshot-gone w current d u h =
      let c = cleaned_data o w d in
      let own : d.tsk ≡ current = get_task_data-tsk w.tasks current d h in
      let same : c.tsk ≡ current = cleaned-tsk w d ∙ own in
      let r = cleaned-tasks w current d h in
      (
        ap (λ x. get_task_data x current) r.0
            ∙ ap (get_task_data (remove_task_data (put_task_data w.tasks c) c)) (sym same)
            ∙ get-remove (put_task_data w.tasks c) c (put-Distinct w.tasks c u),
        λ q e.
            let apart : (c.tsk == q) ≡ false = ap (λ x. x == q) same ∙ e in
            ap (λ x. get_task_data x q) r.0
            ∙ get-remove-other (put_task_data w.tasks c) c q apart
            ∙ get-put w.tasks c q
            ∙ rw apart refl,
        λ cpu.
            ap (λ x. is_task (x.last_task cpu) current) r.1
            ∙ ap (λ x. is_task ((invalidate_task_data_cache w.cache d.tsk).last_task cpu) x)
                (sym own)
            ∙ invalidated w.cache d.tsk cpu,
      )
