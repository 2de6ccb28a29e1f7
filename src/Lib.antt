-- ===== src/Lib.antt =====
-- The AFL++ snapshot module, a kernel module that takes a snapshot of a process and gives it back at
-- every restore (src/, include/).
--
-- A process asks for a snapshot through an ioctl. The module keeps a `struct task_data` per task
-- (src/task_data.c), in which it notes the memory regions and the writable pages, which it
-- write-protects (src/memory.c). Hooks on the kernel's page-fault and unmap functions then save each
-- page before it changes and put it on a list of dirty pages; a restore goes through that list, copies
-- the saved bytes back, drops pages that did not exist, and protects the pages again.
--
-- The parts:
--   Base.antt, Base/      the names shared by all files: Boolean tests, flags of a word (with the
--                         agreement with bitwise operations), maps and lists of addresses
--   Page.antt             src/snapshot.h: `struct snapshot_page` and its flags
--   Task.antt             src/task_data.h, src/task_data.c and the structures of src/snapshot.h
--   Task/Listed.antt      the list of task data as a map
--   Task/Freed.antt       `task_data_free_callback`
--   Ranges.antt           src/memory.c: `intersect_*`, `snapshot_walk_check_range`, and what
--                         `exclude_vmrange` and `include_vmrange` leave in the lists
--   Ranges/Policy, Cache, Walk    the decision without the two remembered addresses, what these stand
--                         for, and the walk that uses them
--   Ranges/Links          `exclude_vmrange` and `include_vmrange` on the links of the kernel's lists
--   Vmranges.antt         `exclude_vmrange` and `include_vmrange` on the list of task data
--   Mmu.antt              the interface of the kernel's page tables, with its documented effects
--   Memory.antt           src/memory.c: the table of pages, `make_snapshot_page`, `record_dirty_page`
--   Memory/Fault.antt     `do_wp_page_hook`, `page_add_new_anon_rmap_hook`, `__do_munmap_hook`
--   Memory/Recover.antt   `do_recover_page`, `do_recover_none_pte`, the loop of
--                         `recover_memory_snapshot`
--   Memory/Take.antt      `add_snapshot_vma`, the walk entries, `take_memory_snapshot`
--   Memory/Invariant.antt the three states of a page and the invariant of a snapshot
--   Memory/Record, Restore, Anon, Take/Promise, Take/Establish    the operations keep it or set it up
--   Memory/Session.antt   the events between a snapshot and a restore, as a step relation
--   Memory/Session/...    every event keeps the invariant
--   Memory/Take/Kept, Session/Kept    what a walk and a run leave alone in the task data
--   Memory/Take/Selected, Entered, Chosen    the regions and the pages that a take chooses
--   Memory/Session/Noted  what is on the dirty list
--   Memory/RoundTrip.antt taking, any run of events, and restoring
--   Cache.antt, Cache/    src/memory.c: the per-CPU cache of task data
--   Brk.antt              src/memory.c: `restore_brk`
--   Regions.antt          src/memory.c: `restore_vmas`, the sweep over two lists of regions
--   Regions/Spans, Space  positions in one list, and the interface of the address space
--   Regions/Round, Interval, Fix, After, Exact    one round of the sweep, and the whole sweep
--   Regions/Logged, Requests    what the sweep asks the kernel for
--   Threads.antt, Threads/      src/threads.c: `recover_threads_snapshot`
--   Files.antt, Files/    src/files.c: the open files; Seek and Offsets have their positions, Users, Counts,
--                         Copied and Balance the reference counts of the file tables
--   Hook.antt, Hook/      src/hook.c: the list of function hooks
--   Snapshot.antt         src/snapshot.c: `take_snapshot`, `recover_snapshot`, `exit_snapshot`,
--                         `clean_snapshot`, `do_exit_hook`, with `recover_memory_snapshot` and
--                         `clean_memory_snapshot` of src/memory.c, on one state that all parts share
--   Snapshot/Taken, Take, Recover, Clean, Exit    what each of them leaves
--   Snapshot/Events       the kernel's functions on the memory as events of a run
--   Snapshot/Whole        from `take_snapshot` to `recover_snapshot`
--   Snapshot/Reopened     the open files from one to the other
--   Snapshot/Ends         the loops of `recover_snapshot` end
--   Device.antt           src/module.c: `mod_dev_ioctl` and the hook of `exit_group`
--   Device/Library        lib/libaflsnapshot.c, with include/afl_snapshot.h
--   Device/Dispatch       from the user library to the handlers
--   Module.antt, Module/  src/module.c: `mod_init`, `mod_exit`, `resolve_non_exported_symbols`
--   System.antt           the calls of the module in any order, from its load on
--   System/Lived, Tasks, Operations, Device, Calls    what every call keeps
--   System/Hooks, Reached the hooks on the memory with the look-up that they begin with
--   Tests.antt, Tests/    the theorems at concrete inputs, on a small machine
--
-- How the model stands for the code. Words are natural numbers, with `% 2 ^ 64` where the code can wrap
-- around. A pointer to a page of the table is the page's address, one to a task data the task. The
-- contents of a page are one number, since they are only moved. Kernel functions are parameters with
-- their documented effect as laws. What an allocation returns is an argument, and memory from `kmalloc`
-- has any contents. The functions have their branches for failures; but a run of `Step`, the events between
-- a snapshot and a restore, has no failed allocation, since a hook then loses a page. A loop over a list of the module is recursion over
-- that list. The loops that follow the kernel's own pointers, in `restore_vmas` and in
-- `recover_threads_snapshot`, have fuel: more than twice the number of regions, and the number of threads, is
-- enough. So have the two loops of `task_data_free_callback`: more than the number of ranges is enough.
-- The hash table of pages is a map from addresses.
--
-- Not modelled: locks and RCU; messages and the DEBUG dump; the freeing of memory but for the
-- ranges and the data of a task; the tests. src/ftrace_helper.h is a helper library of another author: what
-- `mod_init` and `mod_exit` call of it is a parameter.
pub mod Base
pub mod Page
pub mod Task
pub mod Ranges
pub mod Mmu
pub mod Cache
pub mod Vmranges
pub mod Brk
pub mod Regions
pub mod Threads
pub mod Device
pub mod Module
pub mod Files
pub mod Hook
pub mod Snapshot
pub mod Memory
pub mod System
pub mod Tests
