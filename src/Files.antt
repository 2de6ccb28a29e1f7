-- ===== src/Files.antt =====
-- The snapshot of the open files, src/files.c: the file table is duplicated and the position of each file
-- noted; a restore seeks every file back and gives the threads a copy of the saved table.
-- A file table, a file, a thread and an array of offsets are named by numbers. `K` is the state of the
-- kernel's files; an error is a number other than 0. Messages and locks are left out.
pub mod Users
pub mod Counts
pub mod Copied
pub mod Balance
pub mod Seek
pub mod Offsets
use afl_snapshot_lkm.Base.{
  ℕ, ◌+◌, ◌==◌, Bool, true, false, not, if◌then◌else◌, Option, none, some, List, [], ◌∷◌, has_flag,
  update, elem,
}
use afl_snapshot_lkm.Task.{TaskData, OpenFilesSnapshot}
use afl_snapshot_lkm.Ranges.{afl_snapshot_fds}

-- `loff_t`: an offset or, below zero, an error.
pub data ℤ : Type 0 where
  pos : ℕ → ℤ
  negsuc : ℕ → ℤ

pub record FileOps (K : Type 0) : Type 0 where
  -- the new state, the copy or null, and the error
  pub dup_fd : K → ℕ → K × Option ℕ × ℕ
  -- the descriptors and files that `iterate_fd` presents
  pub iterate_fd : K → ℕ → List (ℕ × ℕ)
  -- `vfs_llseek` with SEEK_CUR by 0, and with SEEK_SET
  pub vfs_llseek_cur : K → ℕ → K × ℤ
  pub vfs_llseek_set : K → ℕ → ℕ → K × ℤ
  pub put_files_struct : K → ℕ → K
  -- `files` of a thread, its threads, and `atomic_inc` of a table's count
  pub files_of : K → ℕ → ℕ
  pub set_files_of : K → ℕ → ℕ → K
  pub threads : K → ℕ → List ℕ
  pub atomic_inc : K → ℕ → K

-- The kernel, and the arrays of offsets.
pub record FilesState (K : Type 0) : Type 0 where
  pub kernel : K
  pub arrays : ℕ → ℕ → ℤ

abbrev pub with_files : TaskData → Option ℕ → Option ℕ → TaskData
with_files d f o = record d { ss = record (d.ss) { ss_files = record { files = f; offsets = o } } }

-- The result of the seek is an error, another offset than the one asked for, or that one.
abbrev pub seek_error : ℤ → ℕ → ℕ
seek_error (pos r) offset = if r == offset then 0 else 1
seek_error (negsuc e) offset = e + 1

-- `memset` with -1.
abbrev pub no_offsets : ℕ → ℤ
no_offsets fd = negsuc 0

module _ {K : Type 0} (o : FileOps K) where
  -- `save_file_offset` for each descriptor that is presented; it always returns 0.
  unfoldable pub save_file_offsets : K → (ℕ → ℤ) → List (ℕ × ℕ) → K × (ℕ → ℤ)
  save_file_offsets k offsets [] = (k, offsets)
  save_file_offsets k offsets ((fd, file) ∷ fds) =
      let (k', at) = o.vfs_llseek_cur k file in save_file_offsets k' (update offsets fd at) fds

  -- The second part of the result is what the function returns.
  unfoldable pub restore_file_offset : K → (ℕ → ℤ) → ℕ → ℕ → K × ℕ
  restore_file_offset k offsets file fd = elim (offsets fd) [
    | negsuc e ↦ (k, 0)
    | pos offset ↦ let (k', res) = o.vfs_llseek_set k file offset in (k', seek_error res offset)
  ]

  -- `iterate_fd` stops at the first result other than 0.
  unfoldable pub restore_file_offsets : K → (ℕ → ℤ) → List (ℕ × ℕ) → K × ℕ
  restore_file_offsets k offsets [] = (k, 0)
  restore_file_offsets k offsets ((fd, file) ∷ fds) =
      let (k', error) = restore_file_offset k offsets file fd in
      let rest = restore_file_offsets k' offsets fds in if error == 0 then rest else (k', error)

  -- `kmalloc` is the new array or null. The last part of the result is what the function returns.
  unfoldable pub take_files_snapshot :
      Option ℕ → TaskData → FilesState K → ℕ → TaskData × FilesState K × ℕ
  take_files_snapshot kmalloc d s current =
      if not (has_flag afl_snapshot_fds d.config)
      then (with_files d none none, s, 0)
      else let (k, files_copy, error) = o.dup_fd s.kernel (o.files_of s.kernel current) in
        elim files_copy [
          | none ↦ (d, record s { kernel = k }, error)
          | some copy ↦ elim kmalloc [
            | none ↦ (d, record s { kernel = o.put_files_struct k copy }, 12)
            | some array ↦
                let (k', offsets) = save_file_offsets k no_offsets (o.iterate_fd k copy) in
                (
                  with_files d (some copy) (some array),
                  record { kernel = k'; arrays = update s.arrays array offsets },
                  0,
                )
          ]
        ]

  -- The loop over the threads of the process.
  unfoldable pub replace_files : K → ℕ → ℕ → ℕ → List ℕ → K
  replace_files k current current_old_files restored [] = k
  replace_files k current current_old_files restored (t ∷ ts) =
      let counted = if t == current then k else o.atomic_inc k restored in
      let replaced = o.put_files_struct (o.set_files_of counted t restored) (o.files_of k t) in
      replace_files (if o.files_of k t == current_old_files then replaced else k) current
        current_old_files restored ts

  unfoldable pub recover_files_snapshot : TaskData → FilesState K → ℕ → FilesState K × ℕ
  recover_files_snapshot d s current =
      if not (has_flag afl_snapshot_fds d.config) then (s, 0) else elim d.ss.ss_files.files [
        | none ↦ (s, 22)
        | some files ↦ elim d.ss.ss_files.offsets [
          | none ↦ (s, 22)
          | some array ↦
              let (k, found, error) = o.dup_fd s.kernel files in
              elim found [
                | none ↦ (record s { kernel = k }, error)
                | some restored ↦
                    let (k', error') =
                      restore_file_offsets k (s.arrays array) (o.iterate_fd k restored) in
                    if error' == 0
                    then (
                      record s {
                        kernel =
                            replace_files k' current (o.files_of k' current) restored
                              (o.threads k' current);
                      },
                      0,
                    )
                    else (record s { kernel = o.put_files_struct k' restored }, error')
              ]
        ]
      ]

-- `kfree` of the offsets has no effect that can be observed here.
unfoldable pub clean_files_snapshot :
    {K : Type 0} → FileOps K → TaskData → FilesState K → TaskData × FilesState K
clean_files_snapshot o d s = (
  with_files d none none,
  elim d.ss.ss_files.files [
    | none ↦ s
    | some files ↦ record s { kernel = o.put_files_struct s.kernel files }
  ],
)
