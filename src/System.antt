-- ===== src/System.antt =====
-- The module as a whole: the calls that reach it, in any order and for any tasks. They are the
-- commands of the device and the hook of `exit_group` (src/module.c), the hook of `do_exit`
-- (src/snapshot.c), and the hooks on the memory (src/memory.c).
-- `Lived` is about the data of one task, `Tasks` about the list of task data, `Operations` and
-- `Device` about one call, `Calls` about a sequence of them, `Hooks` about the look-up of the hooks
-- on the memory, and `Reached` about them after any calls.
pub mod Lived
pub mod Tasks
pub mod Operations
pub mod Device
pub mod Hooks
pub mod Calls
pub mod Reached
