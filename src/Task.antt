-- ===== src/Task.antt =====
-- `struct task_data`, `struct snapshot` and what they hold (src/task_data.h, src/snapshot.h), the
-- status of a snapshot, and the list of task data (src/task_data.c).
-- A task is named by a number. A list of the kernel is a sequence, the table `ss_pages` a map from
-- a page's address to its entry, and an entry of a list of pages is the address of that page.
-- `regs` stands for all registers; `files` and `offsets` are pointers, null as `none`.
pub mod Listed
pub mod Freed
use afl_snapshot_lkm.Base.{
  ℕ, Bool, ◌==◌, if◌then◌else◌, Option, none, some, List, [], ◌∷◌, has_flag, set_flag, clear_flag,
}
use afl_snapshot_lkm.Page.{SnapshotPage}

pub record Vmrange : Type 0 where
  pub start : ℕ
  pub end : ℕ

pub record SnapshotVma : Type 0 where
  pub vm_start : ℕ
  pub vm_end : ℕ
  pub is_anonymous_private : Bool
  pub prot : ℕ

pub record OpenFilesSnapshot : Type 0 where
  pub files : Option ℕ
  pub offsets : Option ℕ

pub record Snapshot : Type 0 where
  pub status : ℕ
  pub oldbrk : ℕ
  pub all_vmas : List SnapshotVma
  pub snapshotted_vmas : List SnapshotVma
  pub regs : ℕ
  pub ss_files : OpenFilesSnapshot
  pub ss_pages : ℕ → Option SnapshotPage
  pub dirty_pages : List ℕ

pub record TaskData : Type 0 where
  pub tsk : ℕ
  pub ss : Snapshot
  pub allowlist : List Vmrange
  pub blocklist : List Vmrange
  pub config : ℕ

abbrev pub snapshot_made : ℕ
snapshot_made = 0x1

abbrev pub snapshot_had : ℕ
snapshot_had = 0x2

abbrev pub with_status : TaskData → ℕ → TaskData
with_status d x = record d { ss = record (d.ss) { status = x } }

abbrev pub clear_snapshot : TaskData → TaskData
clear_snapshot d = with_status d (clear_flag snapshot_made d.ss.status)

abbrev pub set_had_snapshot : TaskData → TaskData
set_had_snapshot d = with_status d (set_flag snapshot_had d.ss.status)

abbrev pub set_snapshot : TaskData → TaskData
set_snapshot d = with_status d (set_flag snapshot_made d.ss.status)

abbrev pub have_snapshot : TaskData → Bool
have_snapshot d = has_flag snapshot_made d.ss.status

abbrev pub had_snapshot : TaskData → Bool
had_snapshot d = has_flag snapshot_had d.ss.status

-- `kzalloc` and the initialisation of the lists.
abbrev pub fresh_task_data : ℕ → TaskData
fresh_task_data tsk = record {
  tsk = tsk;
  ss = record {
    status = 0;
    oldbrk = 0;
    all_vmas = [];
    snapshotted_vmas = [];
    regs = 0;
    ss_files = record { files = none; offsets = none };
    ss_pages = λ p. none;
    dirty_pages = [];
  };
  allowlist = [];
  blocklist = [];
  config = 0;
}

-- `task_data_list`; a task data is found by the task that it belongs to.
unfoldable pub get_task_data : List TaskData → ℕ → Option TaskData
get_task_data [] tsk = none
get_task_data (d ∷ ds) tsk = if d.tsk == tsk then some d else get_task_data ds tsk

-- `alloc` is whether `kzalloc` succeeds. The result is the list, and what the function returns.
unfoldable pub ensure_task_data : Bool → List TaskData → ℕ → List TaskData × Option TaskData
ensure_task_data alloc ds tsk = elim (get_task_data ds tsk) [
  | some d ↦ (ds, some d)
  | none ↦ if alloc then (fresh_task_data tsk ∷ ds, some (fresh_task_data tsk)) else (ds, none)
]

-- The entry of `data` is taken off the list; its memory is freed once no reader is left.
unfoldable pub remove_task_data : List TaskData → TaskData → List TaskData
remove_task_data [] data' = []
remove_task_data (d ∷ ds) data' = if d.tsk == data'.tsk then ds else d ∷ remove_task_data ds data'
