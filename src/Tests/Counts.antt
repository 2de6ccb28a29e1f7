-- ===== src/Tests/Counts.antt =====
-- A process of two threads that share a file table, with the reference counts of three tables.
use afl_snapshot_lkm.Base.{
  Once, ℕ, ◌+◌, ◌-◌, ◌≡◌, refl, ◌==◌, if◌then◌else◌, Option, none, some, [], ◌∷◌, elem, arith, true,
}
use afl_snapshot_lkm.Task.{TaskData, fresh_task_data}
use afl_snapshot_lkm.Files.{
  pos, negsuc, FileOps, FilesState, take_files_snapshot, recover_files_snapshot,
  clean_files_snapshot, save_file_offsets, restore_file_offsets, restore_file_offset, replace_files,
}
use afl_snapshot_lkm.Files.Users.{users}
use afl_snapshot_lkm.Files.Counts.{CountLaws, counted}
use afl_snapshot_lkm.Files.Copied.{Balanced}
use afl_snapshot_lkm.Files.Balance.{start, take, recover, clean, files_balanced}

-- The count of each table, and the table of each thread.
abbrev Tables : Type 0
Tables = (ℕ → ℕ) × (ℕ → ℕ)

abbrev count : Tables → ℕ → ℕ
count k q = k.0 q

-- The copy is the first free one of the tables 6 and 7.
abbrev free_table : Tables → Option ℕ
free_table k = if k.0 6 == 0 then some 6 else if k.0 7 == 0 then some 7 else none

abbrev ops : FileOps Tables
ops = record {
  dup_fd = λ k t. ((counted (free_table k) k.0, k.1), free_table k, 24);
  iterate_fd = λ k t. (0, 10) ∷ (1, 11) ∷ [];
  vfs_llseek_cur = λ k f. (k, pos 100);
  vfs_llseek_set = λ k f n. (k, pos n);
  put_files_struct = λ k t. (λ q. k.0 q - (if t == q then 1 else 0), k.1);
  files_of = λ k u. k.1 u;
  set_files_of = λ k t r. (k.0, λ u. if t == u then r else k.1 u);
  threads = λ k t. 3 ∷ 4 ∷ [];
  atomic_inc = λ k t. (λ q. (if t == q then 1 else 0) + k.0 q, k.1);
}

count_laws : CountLaws ops count
count_laws = record {
  count-dup = λ k t q. refl;
  fresh-dup = λ k t r h. ground arith;
  count-cur = λ k f q. refl;
  count-set = λ k f n q. refl;
  count-put = λ k t q h. refl;
  count-set_files = λ k t r q. refl;
  count-inc = λ k t q. refl;
  files-dup = λ k t u. refl;
  files-cur = λ k f u. refl;
  files-set = λ k f n u. refl;
  files-put = λ k t u. refl;
  files-set_files = λ k t r u. refl;
  files-inc = λ k t u. refl;
  threads-dup = λ k t u. refl;
  threads-cur = λ k f u. refl;
  threads-set = λ k f n u. refl;
  threads-put = λ k t u. refl;
  threads-set_files = λ k t r u. refl;
  threads-inc = λ k t u. refl;
}

abbrev task : TaskData
task = record (fresh_task_data 7) { config = 4 }

-- Both threads use table 5.
abbrev shared : FilesState Tables
shared = record { kernel = (λ q. if 5 == q then 2 else 0, λ u. 5); arrays = λ a fd. negsuc 0 }

abbrev taken : TaskData × FilesState Tables × ℕ
taken = take_files_snapshot ops (some 40) task shared 3

abbrev restored : FilesState Tables × ℕ
restored = recover_files_snapshot ops taken.0 taken.1 3

each-Once : Once (3 ∷ 4 ∷ [])
unfolding Once elem
each-Once = (refl, (refl, tt))

first_is_listed : elem 3 (3 ∷ 4 ∷ []) ≡ true
unfolding elem
first_is_listed = refl

shared-Balanced : Balanced ops count (3 ∷ 4 ∷ []) (λ q. 0) 3 none shared.kernel
unfolding users
shared-Balanced = record { counts = λ q. ground arith; threads = refl }

-- After a take and a restore, the two threads have table 7 and the snapshot has table 6.
restored_counts :
    (restored.0.kernel.0 5 ≡ 0) × (restored.0.kernel.0 6 ≡ 1) × (restored.0.kernel.0 7 ≡ 2)
unfolding take_files_snapshot recover_files_snapshot save_file_offsets restore_file_offsets
    restore_file_offset replace_files
restored_counts = (refl, refl, refl)

files_balanced_example :
    Balanced ops count
      (3 ∷ 4 ∷ [])
      (λ q. 0)
      3
      (clean_files_snapshot ops taken.0 restored.0).0.ss.ss_files.files
      (clean_files_snapshot ops taken.0 restored.0).1.kernel
files_balanced_example =
    files_balanced ops count (3 ∷ 4 ∷ []) (λ q. 0) 3 count_laws each-Once first_is_listed task
      shared (clean_files_snapshot ops taken.0 restored.0).0
      (clean_files_snapshot ops taken.0 restored.0).1 shared-Balanced
      (clean taken.0 restored.0 (recover taken.0 taken.1 (take task shared (some 40) start refl)))
