-- ===== src/Device.antt =====
-- The device of the module: `mod_dev_ioctl` and the hook of `exit_group`, src/module.c, with the commands of
-- include/afl_snapshot.h. `Library` has the user's functions, and `Dispatch` what they make the module do.
-- The macros that make a command from its parts are a parameter. The `config` of `take_snapshot` is an
-- `int`, of which the bits are kept. `DBG_PRINT` is left out.
pub mod Library
pub mod Dispatch
use afl_snapshot_lkm.Base.{
  ℕ, ◌%◌, ◌^◌, ◌==◌, Bool, true, false, if◌then◌else◌, Option, none, some, List,
}
use afl_snapshot_lkm.Task.{TaskData}
use afl_snapshot_lkm.Files.{ℤ, pos, negsuc}
use afl_snapshot_lkm.Memory.{Run, ran, oops}
use afl_snapshot_lkm.Vmranges.{exclude_vmrange, include_vmrange}
use afl_snapshot_lkm.Snapshot.{
  World, Kernel, Chances, take_snapshot, recover_snapshot, exit_snapshot, clean_snapshot,
}

-- `_IO` of a type and a number, and `_IOW` of these and the size of the argument.
pub record IoctlMacros : Type 0 where
  pub io : ℕ → ℕ → ℕ
  pub iow : ℕ → ℕ → ℕ → ℕ

abbrev pub afl_snapshot_ioctl_magic : ℕ
afl_snapshot_ioctl_magic = 44313

module _ (m : IoctlMacros) where
  abbrev pub afl_snapshot_ioctl_do : ℕ
  afl_snapshot_ioctl_do = m.io afl_snapshot_ioctl_magic 1

  abbrev pub afl_snapshot_ioctl_clean : ℕ
  afl_snapshot_ioctl_clean = m.io afl_snapshot_ioctl_magic 2

  -- The size is that of a pointer.
  abbrev pub afl_snapshot_ioctl_exclude : ℕ
  afl_snapshot_ioctl_exclude = m.iow afl_snapshot_ioctl_magic 3 8

  abbrev pub afl_snapshot_ioctl_include : ℕ
  afl_snapshot_ioctl_include = m.iow afl_snapshot_ioctl_magic 4 8

  abbrev pub afl_snapshot_ioctl_take : ℕ
  afl_snapshot_ioctl_take = m.iow afl_snapshot_ioctl_magic 5 4

  abbrev pub afl_snapshot_ioctl_restore : ℕ
  afl_snapshot_ioctl_restore = m.io afl_snapshot_ioctl_magic 6

-- What a call of the module ends in: the state and the number that is returned, a use of a null pointer,
-- or the end of the fuel.
pub data Reply (W : Type 0) : Type 0 where
  replied : W → ℤ → Reply W
  crashed : Reply W
  unfinished : Reply W

-- What one call of the device finds: the structure at each address of the caller, whether memory for a
-- range can be had, and what `take_snapshot` finds.
pub record Caller (S : Type 0) : Type 0 where
  pub copy_from_user : ℕ → Option (ℕ × ℕ)
  pub range_memory : Bool
  pub chances : Chances S

module _ {K S T : Type 0} where
  abbrev pub reply_tasks : World K S T → Run (List TaskData) → Reply (World K S T)
  reply_tasks w oops = crashed
  reply_tasks w (ran ds) = replied (record w { tasks = ds }) (pos 0)

  abbrev pub reply_run : Run (World K S T × ℕ) → Reply (World K S T)
  reply_run oops = crashed
  reply_run (ran r) = replied r.0 (pos r.1)

  abbrev pub reply_option : Option (World K S T × ℕ) → Reply (World K S T)
  reply_option none = unfinished
  reply_option (some r) = replied r.0 (pos r.1)

  -- The two commands that read a range: -EINVAL if it cannot be read.
  abbrev pub reply_range :
      World K S T → (ℕ → ℕ → Run (List TaskData)) → Option (ℕ × ℕ) → Reply (World K S T)
  reply_range w change none = replied w (negsuc 21)
  reply_range w change (some args) = reply_tasks w (change args.0 args.1)

  module _ {P : Type 0} (m : IoctlMacros) (k : Kernel K S P T) where
    -- `AFL_SNAPSHOT_MMAP | AFL_SNAPSHOT_FDS | AFL_SNAPSHOT_REGS | AFL_SNAPSHOT_EXIT` is 29.
    unfoldable pub mod_dev_ioctl : ℕ → Caller S → World K S T → ℕ → ℕ → ℕ → Reply (World K S T)
    mod_dev_ioctl fuel c w current cmd arg =
        let alloc = c.chances.data_memory in
        if cmd == afl_snapshot_ioctl_exclude m
        then reply_range w (exclude_vmrange alloc c.range_memory w.tasks current)
            (c.copy_from_user arg)
        else if cmd == afl_snapshot_ioctl_include m
        then reply_range w (include_vmrange alloc c.range_memory w.tasks current)
            (c.copy_from_user arg)
        else if cmd == afl_snapshot_ioctl_take m
        then reply_run (take_snapshot k c.chances w current (arg % 2 ^ 32))
        else if cmd == afl_snapshot_ioctl_do m
        then reply_run (take_snapshot k c.chances w current 29)
        else if cmd == afl_snapshot_ioctl_restore m
        then reply_option (recover_snapshot k fuel w current)
        else if cmd == afl_snapshot_ioctl_clean m
        then replied (clean_snapshot k w current) (pos 0)
        else replied w (negsuc 21)

  -- After `exit_snapshot`: `orig` is the handler that the hook stands in for.
  abbrev pub end_or_stay :
      (World K S T → Reply (World K S T)) → Option (World K S T × ℕ) → Reply (World K S T)
  end_or_stay orig none = unfinished
  end_or_stay orig (some r) = if r.1 == 0 then replied r.0 (pos 0) else orig r.0

  unfoldable pub sys_exit_group_hook :
      {P : Type 0}
      → Kernel K S P T
      → (World K S T → Reply (World K S T))
      → ℕ
      → World K S T
      → ℕ
      → Reply (World K S T)
  sys_exit_group_hook k orig fuel w current = end_or_stay orig (exit_snapshot k fuel w current)
