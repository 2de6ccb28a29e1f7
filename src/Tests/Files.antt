-- ===== src/Tests/Files.antt =====
-- A process with two open files, one of which cannot seek.
use afl_snapshot_lkm.Base.{ℕ, ◌≡◌, refl, ◌==◌, if◌then◌else◌, some, [], ◌∷◌, elem, update, eq_refl}
use afl_snapshot_lkm.Task.{TaskData, fresh_task_data}
use afl_snapshot_lkm.Files.{
  ℤ, pos, negsuc, FileOps, FilesState, take_files_snapshot, recover_files_snapshot,
  save_file_offsets, restore_file_offsets, restore_file_offset, replace_files,
}
use afl_snapshot_lkm.Files.Seek.{SeekLaws, Once, first}
use afl_snapshot_lkm.Files.Offsets.{files_restored}

-- The state is the position of each file; every thread has table 5.
abbrev pub Positions : Type 0
Positions = ℕ → ℤ

abbrev pub ops : FileOps Positions
ops = record {
  dup_fd = λ k t. (k, some 6, 0);
  iterate_fd = λ k t. (0, 10) ∷ (1, 11) ∷ [];
  vfs_llseek_cur = λ k f. (k, k f);
  vfs_llseek_set = λ k f n. (update k f (pos n), pos n);
  put_files_struct = λ k t. k;
  files_of = λ k t. 5;
  set_files_of = λ k t r. k;
  threads = λ k t. 3 ∷ 4 ∷ [];
  atomic_inc = λ k t. k;
}

abbrev pub position : Positions → ℕ → ℤ
position k f = k f

pub seek_laws : SeekLaws ops position
seek_laws = record {
  cur-at = λ k f. refl;
  at-cur = λ k f g. refl;
  at-set = λ k f n h. rw (eq_refl f) refl;
  at-set_other = λ k f n g h. rw h refl;
  at-dup = λ k t g. refl;
  at-put = λ k t g. refl;
  at-set_files = λ k t r g. refl;
  at-inc = λ k t g. refl;
}

abbrev pub task : TaskData
task = record (fresh_task_data 7) { config = 4 }

abbrev pub opened : FilesState Positions
opened = record { kernel = λ f. if f == 10 then pos 100 else negsuc 28; arrays = λ a fd. negsuc 0 }

-- The process reads on in the first file.
abbrev read_on : FilesState Positions
read_on = record (take_files_snapshot ops (some 40) task opened 3).1 {
  kernel = λ f. if f == 10 then pos 777 else negsuc 28;
}

pub each-Once : Once ((0, 10) ∷ (1, 11) ∷ [])
unfolding Once elem
each-Once = (refl, (refl, tt))

restores :
    (recover_files_snapshot ops (take_files_snapshot ops (some 40) task opened 3).0 read_on 3).1 ≡ 0
unfolding take_files_snapshot recover_files_snapshot save_file_offsets restore_file_offsets
    restore_file_offset replace_files
restores = refl

files_restored_example :
    (recover_files_snapshot ops
        (take_files_snapshot ops (some 40) task opened 3).0
        read_on
        3).0.kernel
      10
    ≡ pos 100
files_restored_example =
    files_restored ops position seek_laws task opened read_on 3 40 6 6 0 10 100 refl refl each-Once
      refl refl refl restores (first refl refl) refl
