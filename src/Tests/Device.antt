-- ===== src/Tests/Device.antt =====
-- The commands as the kernel's headers make them, and a process that calls the user library.
use afl_snapshot_lkm.Base.{◌*◌, ◌≡◌, refl, if◌then◌else◌, true, none, bit_or, arith}
use afl_snapshot_lkm.Task.{get_task_data}
use afl_snapshot_lkm.Files.{pos}
use afl_snapshot_lkm.Vmranges.{exclude_vmrange, include_vmrange}
use afl_snapshot_lkm.Snapshot.{World, take_snapshot, recover_snapshot, clean_snapshot, do_exit_hook}
use afl_snapshot_lkm.Snapshot.Exit.{restores_on_exit}
use afl_snapshot_lkm.Device.{
  IoctlMacros, Reply, replied, reply_tasks, reply_run, reply_option, sys_exit_group_hook,
}
use afl_snapshot_lkm.Device.Library.{
  Memory, afl_snapshot_exclude_vmrange, afl_snapshot_include_vmrange, afl_snapshot_take,
  afl_snapshot_do, afl_snapshot_restore, afl_snapshot_clean,
}
use afl_snapshot_lkm.Device.Dispatch.{
  DistinctCommands, handled, library-handled, sys_exit_group_hook-stays,
}
use afl_snapshot_lkm.Tests.Machine.{Space}
use afl_snapshot_lkm.Tests.Files.{Positions}
use afl_snapshot_lkm.Tests.Threads.{Group}
use afl_snapshot_lkm.Tests.Snapshot.{kernel, world}
use afl_snapshot_lkm.Tests.Process.{chances}

-- The direction in bits 30 and 31, the size from bit 16 on, the type from bit 8 on, and the number.
abbrev pub macros : IoctlMacros
macros = record {
  io = λ type number. bit_or (type * 256) number;
  iow = λ type number size. bit_or 0x40000000 (bit_or (size * 65536) (bit_or (type * 256) number));
}

commands : DistinctCommands macros
commands = record {
  exclude_include = refl;
  exclude_take = refl;
  include_take = refl;
  exclude_do = refl;
  include_do = refl;
  take_do = refl;
  exclude_restore = refl;
  include_restore = refl;
  take_restore = refl;
  do_restore = refl;
  exclude_clean = refl;
  include_clean = refl;
  take_clean = refl;
  do_clean = refl;
  restore_clean = refl;
}

abbrev nowhere : Memory
nowhere a = none

library-handled_example :
    let reply = handled macros commands kernel 10 chances true world 7 in
    (reply (afl_snapshot_exclude_vmrange macros nowhere 0x5000 1 2)
      ≡ reply_tasks world (exclude_vmrange true true world.tasks 7 1 2))
    × (reply (afl_snapshot_include_vmrange macros nowhere 0x5000 1 2)
        ≡ reply_tasks world (include_vmrange true true world.tasks 7 1 2))
    × (reply (afl_snapshot_take macros nowhere 13)
        ≡ reply_run (take_snapshot kernel chances world 7 13))
    × (reply (afl_snapshot_do macros nowhere 0) ≡ reply (afl_snapshot_take macros nowhere 29))
    × (reply (afl_snapshot_restore macros nowhere 0)
        ≡ reply_option (recover_snapshot kernel 10 world 7))
    × (reply (afl_snapshot_clean macros nowhere 0)
        ≡ replied (clean_snapshot kernel world 7) (pos 0))
library-handled_example =
    library-handled macros commands kernel 10 chances true world 7 nowhere 0x5000 1 2 13 0
      (omega arith)

abbrev ends : World Positions Space Group → Reply (World Positions Space Group)
ends w = replied w (pos 1)

sys_exit_group_hook-stays_example : sys_exit_group_hook kernel ends 10 world 7 ≡ (
    if restores_on_exit (get_task_data world.tasks 7)
    then reply_option (recover_snapshot kernel 10 world 7)
    else ends (do_exit_hook kernel world 7))
sys_exit_group_hook-stays_example = sys_exit_group_hook-stays kernel ends 10 world 7
