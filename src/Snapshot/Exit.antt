-- ===== src/Snapshot/Exit.antt =====
-- How a snapshot ends: `exit_snapshot` and `do_exit_hook` of src/snapshot.c.
use afl_snapshot_lkm.Base.{
  ℕ, ◌≡◌, refl, ◌==◌, ◌&&◌, Bool, true, false, if◌then◌else◌, Option, none, some, ◌∙◌, sym, ap,
  Bool-cases, Option-cases, inl, inr, has_flag,
}
use afl_snapshot_lkm.Task.{TaskData, get_task_data, have_snapshot, had_snapshot}
use afl_snapshot_lkm.Task.Listed.{Distinct}
use afl_snapshot_lkm.Ranges.{afl_snapshot_exit}
use afl_snapshot_lkm.Cache.{is_task}
use afl_snapshot_lkm.Snapshot.{
  World, Kernel, clean_snapshot, recover_snapshot, exit_snapshot, do_exit_hook,
}
use afl_snapshot_lkm.Snapshot.Clean.{clean_snapshot-gone}

-- Whether a call of `exit_group` is to restore the snapshot.
abbrev pub restores_on_exit : Option TaskData → Bool
restores_on_exit none = false
restores_on_exit (some d) = has_flag afl_snapshot_exit d.config && have_snapshot d

module _ {K S P T : Type 0} (k : Kernel K S P T) where
  pub exit_none :
      (fuel : ℕ) (w : World K S T) (current : ℕ)
      → get_task_data w.tasks current ≡ none
      → (exit_snapshot k fuel w current ≡ some (w, 1)) × (do_exit_hook k w current ≡ w)
  unfolding exit_snapshot do_exit_hook
  exit_none fuel w current h = (rw (exit_snapshot, h) refl, rw (do_exit_hook, h) refl)

  exit_some :
      (fuel : ℕ) (w : World K S T) (current : ℕ) (d : TaskData)
      → get_task_data w.tasks current ≡ some d
      → exit_snapshot k fuel w current ≡ (
          if has_flag afl_snapshot_exit d.config && have_snapshot d
          then recover_snapshot k fuel w current
          else some (do_exit_hook k w current, 1))
  unfolding exit_snapshot do_exit_hook recover_snapshot
  exit_some fuel w current d h =
      rw (exit_snapshot, h) (rw (do_exit_hook, h) (rw (recover_snapshot, h) refl))

  -- `exit_snapshot` does what `recover_snapshot` does, and returns the same, if the task has a snapshot
  -- and has asked for a restore on exit. Otherwise it does what the hook of `do_exit` does, and returns
  -- 1, so that the process ends.
  pub exit_snapshot-agrees :
      (fuel : ℕ) (w : World K S T) (current : ℕ)
      → exit_snapshot k fuel w current ≡ (
          if restores_on_exit (get_task_data w.tasks current)
          then recover_snapshot k fuel w current
          else some (do_exit_hook k w current, 1))
  exit_snapshot-agrees fuel w current = elim (Option-cases (get_task_data w.tasks current)) [
    | inl h ↦ let e = exit_none fuel w current h in rw h (e.0 ∙ ap (λ x. some (x, 1)) (sym e.1))
    | inr (d, h) ↦ rw h (exit_some fuel w current d h)
  ]

  do_exit_some :
      (w : World K S T) (current : ℕ) (d : TaskData)
      → get_task_data w.tasks current ≡ some d
      → do_exit_hook k w current ≡ (if had_snapshot d then clean_snapshot k w current else w)
  unfolding do_exit_hook
  do_exit_some w current d h = rw (do_exit_hook, h) refl

  -- After the hook of `do_exit` a task that has had a snapshot has no data and is in the cache of no
  -- CPU; the data of a task that has had none, and of every other task, is as it was. The condition:
  -- each task has one entry at most in the list.
  pub do_exit_hook-gone :
      (w : World K S T) (current : ℕ) (d : TaskData)
      → Distinct w.tasks
      → get_task_data w.tasks current ≡ some d
      → let w' = do_exit_hook k w current in
        (get_task_data w'.tasks current ≡ (if had_snapshot d then none else some d))
        × ((q : ℕ) → (current == q) ≡ false → get_task_data w'.tasks q ≡ get_task_data w.tasks q)
        × (had_snapshot d ≡ true → (cpu : ℕ) → is_task (w'.cache.last_task cpu) current ≡ false)
  do_exit_hook-gone w current d u h =
      let r = do_exit_some w current d h in
      elim (Bool-cases (had_snapshot d)) [
        | inl e ↦
            let gone = clean_snapshot-gone k w current d u h in
            let same : do_exit_hook k w current ≡ clean_snapshot k w current = r ∙ rw e refl in
            rw same (rw e (gone.0, gone.1, λ z. gone.2))
        | inr e ↦
            let same : do_exit_hook k w current ≡ w = r ∙ rw e refl in
            rw same (rw e (h, λ q z. refl, λ z. absurd (cc)))
      ]
