-- ===== src/Device/Dispatch.antt =====
-- What each function of the user library makes the module do: lib/libaflsnapshot.c and src/module.c.
use afl_snapshot_lkm.Base.{
  ℕ, ◌%◌, ◌^◌, ◌<◌, ◌≡◌, refl, ◌==◌, Bool, false, if◌then◌else◌, Option, none, some, eq_refl, arith,
  ap, sym, ◌∙◌, Option-cases, Bool-cases, inl, inr,
}
use afl_snapshot_lkm.Task.{TaskData, get_task_data}
use afl_snapshot_lkm.Snapshot.Exit.{restores_on_exit, exit_snapshot-agrees}
use afl_snapshot_lkm.Files.{pos}
use afl_snapshot_lkm.Vmranges.{exclude_vmrange, include_vmrange}
use afl_snapshot_lkm.Snapshot.{
  World, Kernel, Chances, take_snapshot, recover_snapshot, clean_snapshot, do_exit_hook,
  restore_snapshot, returning,
}
use afl_snapshot_lkm.Device.{
  IoctlMacros, afl_snapshot_ioctl_do, afl_snapshot_ioctl_clean, afl_snapshot_ioctl_exclude,
  afl_snapshot_ioctl_include, afl_snapshot_ioctl_take, afl_snapshot_ioctl_restore, Reply, replied,
  reply_tasks, reply_run, reply_option, mod_dev_ioctl, sys_exit_group_hook, end_or_stay,
}
use afl_snapshot_lkm.Device.Library.{
  Memory, Request, afl_snapshot_exclude_vmrange, afl_snapshot_include_vmrange, afl_snapshot_take,
  afl_snapshot_do, afl_snapshot_restore, afl_snapshot_clean,
}

-- No two of the commands are the same: the labels of a `switch` are different.
pub record DistinctCommands (m : IoctlMacros) : Type 0 where
  pub exclude_include : (afl_snapshot_ioctl_include m == afl_snapshot_ioctl_exclude m) ≡ false
  pub exclude_take : (afl_snapshot_ioctl_take m == afl_snapshot_ioctl_exclude m) ≡ false
  pub include_take : (afl_snapshot_ioctl_take m == afl_snapshot_ioctl_include m) ≡ false
  pub exclude_do : (afl_snapshot_ioctl_do m == afl_snapshot_ioctl_exclude m) ≡ false
  pub include_do : (afl_snapshot_ioctl_do m == afl_snapshot_ioctl_include m) ≡ false
  pub take_do : (afl_snapshot_ioctl_do m == afl_snapshot_ioctl_take m) ≡ false
  pub exclude_restore : (afl_snapshot_ioctl_restore m == afl_snapshot_ioctl_exclude m) ≡ false
  pub include_restore : (afl_snapshot_ioctl_restore m == afl_snapshot_ioctl_include m) ≡ false
  pub take_restore : (afl_snapshot_ioctl_restore m == afl_snapshot_ioctl_take m) ≡ false
  pub do_restore : (afl_snapshot_ioctl_restore m == afl_snapshot_ioctl_do m) ≡ false
  pub exclude_clean : (afl_snapshot_ioctl_clean m == afl_snapshot_ioctl_exclude m) ≡ false
  pub include_clean : (afl_snapshot_ioctl_clean m == afl_snapshot_ioctl_include m) ≡ false
  pub take_clean : (afl_snapshot_ioctl_clean m == afl_snapshot_ioctl_take m) ≡ false
  pub do_clean : (afl_snapshot_ioctl_clean m == afl_snapshot_ioctl_do m) ≡ false
  pub restore_clean : (afl_snapshot_ioctl_clean m == afl_snapshot_ioctl_restore m) ≡ false

module _ {K S P T : Type 0} (m : IoctlMacros) (distinct : DistinctCommands m) (k : Kernel K S P T)
    (fuel : ℕ) (chances : Chances S) (range_memory : Bool) (w : World K S T) (current : ℕ) where
  -- The device's reply to a request.
  abbrev pub handled : Request → Reply (World K S T)
  handled r =
      mod_dev_ioctl m k fuel
        (record { copy_from_user = r.memory; range_memory = range_memory; chances = chances }) w
        current r.cmd r.arg

  handled-exclude :
      (memory : Memory) (args start end : ℕ)
      → handled (afl_snapshot_exclude_vmrange m memory args start end)
        ≡ reply_tasks w (exclude_vmrange chances.data_memory range_memory w.tasks current start end)
  unfolding mod_dev_ioctl
  handled-exclude memory args start end =
      rw (mod_dev_ioctl, eq_refl (afl_snapshot_ioctl_exclude m), eq_refl args) refl

  handled-include :
      (memory : Memory) (args start end : ℕ)
      → handled (afl_snapshot_include_vmrange m memory args start end)
        ≡ reply_tasks w (include_vmrange chances.data_memory range_memory w.tasks current start end)
  unfolding mod_dev_ioctl
  handled-include memory args start end =
      rw
        (
          mod_dev_ioctl,
          distinct.exclude_include,
          eq_refl (afl_snapshot_ioctl_include m),
          eq_refl args,
        )
        refl

  handled-take :
      (memory : Memory) (config : ℕ)
      → handled (afl_snapshot_take m memory config)
        ≡ reply_run (take_snapshot k chances w current (config % 2 ^ 32))
  unfolding mod_dev_ioctl
  handled-take memory config =
      rw
        (
          mod_dev_ioctl,
          distinct.exclude_take,
          distinct.include_take,
          eq_refl (afl_snapshot_ioctl_take m),
        )
        refl

  handled-do :
      (memory : Memory) (rest : ℕ)
      → handled (afl_snapshot_do m memory rest) ≡ reply_run (take_snapshot k chances w current 29)
  unfolding mod_dev_ioctl
  handled-do memory rest =
      rw
        (
          mod_dev_ioctl,
          distinct.exclude_do,
          distinct.include_do,
          distinct.take_do,
          eq_refl (afl_snapshot_ioctl_do m),
        )
        refl

  handled-restore :
      (memory : Memory) (rest : ℕ)
      → handled (afl_snapshot_restore m memory rest)
        ≡ reply_option (recover_snapshot k fuel w current)
  unfolding mod_dev_ioctl
  handled-restore memory rest =
      rw
        (
          mod_dev_ioctl,
          distinct.exclude_restore,
          distinct.include_restore,
          distinct.take_restore,
          distinct.do_restore,
          eq_refl (afl_snapshot_ioctl_restore m),
        )
        refl

  handled-clean :
      (memory : Memory) (rest : ℕ)
      → handled (afl_snapshot_clean m memory rest) ≡ replied (clean_snapshot k w current) (pos 0)
  unfolding mod_dev_ioctl
  handled-clean memory rest =
      rw
        (
          mod_dev_ioctl,
          distinct.exclude_clean,
          distinct.include_clean,
          distinct.take_clean,
          distinct.do_clean,
          distinct.restore_clean,
          eq_refl (afl_snapshot_ioctl_clean m),
        )
        refl

  -- Each function of the user library makes the module call the handler that it is for, with the
  -- arguments that it is given, and return what that returns: the two ranges reach the blocklist and
  -- the allowlist of the running task through the caller's memory, the configuration is the one asked
  -- for if it fits an `int`, and `afl_snapshot_do` is `afl_snapshot_take` with MMAP, FDS, REGS and EXIT.
  -- The condition: the commands are different from each other.
  pub library-handled :
      (memory : Memory) (args start end config rest : ℕ)
      → config < 2 ^ 32
      → (handled (afl_snapshot_exclude_vmrange m memory args start end)
          ≡ reply_tasks w
              (exclude_vmrange chances.data_memory range_memory w.tasks current start end))
        × (handled (afl_snapshot_include_vmrange m memory args start end)
            ≡ reply_tasks w
                (include_vmrange chances.data_memory range_memory w.tasks current start end))
        × (handled (afl_snapshot_take m memory config)
            ≡ reply_run (take_snapshot k chances w current config))
        × (handled (afl_snapshot_do m memory rest) ≡ handled (afl_snapshot_take m memory 29))
        × (handled (afl_snapshot_restore m memory rest)
            ≡ reply_option (recover_snapshot k fuel w current))
        × (handled (afl_snapshot_clean m memory rest)
            ≡ replied (clean_snapshot k w current) (pos 0))
  library-handled memory args start end config rest l =
      let fits : config % 2 ^ 32 ≡ config = omega arith in
      (
        handled-exclude memory args start end,
        handled-include memory args start end,
        handled-take memory config ∙ ap (λ x. reply_run (take_snapshot k chances w current x)) fits,
        handled-do memory rest ∙ sym (handled-take memory 29),
        handled-restore memory rest,
        handled-clean memory rest,
      )

module _ {K S P T : Type 0} (k : Kernel K S P T) where
  recovered :
      (orig : World K S T → Reply (World K S T)) (fuel : ℕ) (w : World K S T) (current : ℕ)
      (d : TaskData)
      → get_task_data w.tasks current ≡ some d
      → end_or_stay orig (recover_snapshot k fuel w current)
        ≡ reply_option (recover_snapshot k fuel w current)
  unfolding recover_snapshot
  recovered orig fuel w current d h =
      rw (recover_snapshot, h) (by_result (restore_snapshot k fuel w current d))
    where
      by_result :
          (r : Option (World K S T))
          → end_or_stay orig (returning k 0 r) ≡ reply_option (returning k 0 r)
      by_result none = refl
      by_result (some x) = refl

  -- The hook of `exit_group` restores the snapshot, and the process goes on, if the running task has one
  -- and has asked for a restore on exit. Otherwise the original handler is called, in the state that
  -- the hook of `do_exit` would leave.
  pub sys_exit_group_hook-stays :
      (orig : World K S T → Reply (World K S T)) (fuel : ℕ) (w : World K S T) (current : ℕ)
      → sys_exit_group_hook k orig fuel w current ≡ (
          if restores_on_exit (get_task_data w.tasks current)
          then reply_option (recover_snapshot k fuel w current)
          else orig (do_exit_hook k w current))
  unfolding sys_exit_group_hook
  sys_exit_group_hook-stays orig fuel w current =
      ap (end_or_stay orig) (exit_snapshot-agrees k fuel w current)
      ∙ elim (Option-cases (get_task_data w.tasks current)) [
        | inl h ↦ rw h refl
        | inr (d, h) ↦
            let e = recovered orig fuel w current d h in
            elim (Bool-cases (restores_on_exit (some d))) [
              | inl z ↦ rw (h, z) e
              | inr z ↦ rw (h, z) refl
            ]
      ]
