-- ===== src/Device/Library.antt =====
-- The user library, lib/libaflsnapshot.c: the call of `ioctl` that each function makes, and
-- `afl_snapshot_init`.
-- The descriptor is that of the device. `args` is the address of the local structure, and `rest` is what
-- stands for an argument that is not given.
use afl_snapshot_lkm.Base.{ℕ, Option, some, update}
use afl_snapshot_lkm.Files.{ℤ}
use afl_snapshot_lkm.Device.{
  IoctlMacros, afl_snapshot_ioctl_do, afl_snapshot_ioctl_clean, afl_snapshot_ioctl_exclude,
  afl_snapshot_ioctl_include, afl_snapshot_ioctl_take, afl_snapshot_ioctl_restore,
}

-- The ranges that the caller's memory holds.
abbrev pub Memory : Type 0
Memory = ℕ → Option (ℕ × ℕ)

pub record Request : Type 0 where
  pub memory : Memory
  pub cmd : ℕ
  pub arg : ℕ

-- `dev_fd`, the descriptor for the calls that follow, becomes what `open` returns, and so does the result.
abbrev pub afl_snapshot_init : ℤ → ℤ × ℤ
afl_snapshot_init opened = (opened, opened)

module _ (m : IoctlMacros) (memory : Memory) where
  abbrev pub afl_snapshot_exclude_vmrange : ℕ → ℕ → ℕ → Request
  afl_snapshot_exclude_vmrange args start end = record {
    memory = update memory args (some (start, end));
    cmd = afl_snapshot_ioctl_exclude m;
    arg = args;
  }

  abbrev pub afl_snapshot_include_vmrange : ℕ → ℕ → ℕ → Request
  afl_snapshot_include_vmrange args start end = record {
    memory = update memory args (some (start, end));
    cmd = afl_snapshot_ioctl_include m;
    arg = args;
  }

  abbrev pub afl_snapshot_take : ℕ → Request
  afl_snapshot_take config = record {
    memory = memory;
    cmd = afl_snapshot_ioctl_take m;
    arg = config;
  }

  abbrev pub afl_snapshot_do : ℕ → Request
  afl_snapshot_do rest = record { memory = memory; cmd = afl_snapshot_ioctl_do m; arg = rest }

  abbrev pub afl_snapshot_restore : ℕ → Request
  afl_snapshot_restore rest = record {
    memory = memory;
    cmd = afl_snapshot_ioctl_restore m;
    arg = rest;
  }

  abbrev pub afl_snapshot_clean : ℕ → Request
  afl_snapshot_clean rest = record { memory = memory; cmd = afl_snapshot_ioctl_clean m; arg = rest }
