-- ===== src/Files/Offsets.antt =====
-- From `take_files_snapshot` to `recover_files_snapshot`, src/files.c.
use afl_snapshot_lkm.Base.{
  ℕ, ◌≡◌, refl, ◌==◌, if◌then◌else◌, Bool, true, false, some, List, [], ◌∷◌, Bool-cases, inl, inr,
  ◌∙◌, sym, ap, subst, has_flag, update, eq_refl, arith, ◌⊎◌,
}
use afl_snapshot_lkm.Task.{TaskData}
use afl_snapshot_lkm.Ranges.{afl_snapshot_fds}
use afl_snapshot_lkm.Files.{
  ℤ, pos, FileOps, FilesState, with_files, no_offsets, save_file_offsets, restore_file_offsets,
  replace_files, take_files_snapshot, recover_files_snapshot,
}
use afl_snapshot_lkm.Files.Seek.{SeekLaws, Once, Presented, save-offset, all-at}

module _ {K : Type 0} (o : FileOps K) (at : K → ℕ → ℤ) (laws : SeekLaws o at) where
  -- Replacing the tables of the threads moves no file.
  replace-at :
      (k : K) (current old restored : ℕ) (ts : List ℕ) (g : ℕ)
      → at (replace_files o k current old restored ts) g ≡ at k g
  unfolding replace_files
  replace-at k current old restored [] g = refl
  replace-at k current old restored (t ∷ ts) g =
      let counted = if t == current then k else o.atomic_inc k restored in
      let replaced = o.put_files_struct (o.set_files_of counted t restored) (o.files_of k t) in
      replace-at (if o.files_of k t == old then replaced else k) current old restored ts g
      ∙ one (o.files_of k t == old) (t == current)
    where
      one :
          (b c : Bool)
          → at
              (if b
                then o.put_files_struct
                    (o.set_files_of (if c then k else o.atomic_inc k restored) t restored)
                    (o.files_of k t)
                else k)
              g
            ≡ at k g
      one false c = refl
      one true true = laws.at-put _ _ g ∙ laws.at-set_files _ _ _ g
      one true false = laws.at-put _ _ g ∙ laws.at-set_files _ _ _ g ∙ laws.at-inc _ _ g

  -- The state after a successful take.
  abbrev taken_state : FilesState K → ℕ → ℕ → ℕ → FilesState K
  taken_state s current array copy =
      let k = (o.dup_fd s.kernel (o.files_of s.kernel current)).0 in
      let r = save_file_offsets o k no_offsets (o.iterate_fd k copy) in
      record { kernel = r.0; arrays = update s.arrays array r.1 }

  taken :
      (d : TaskData) (s : FilesState K) (current array copy : ℕ)
      → has_flag afl_snapshot_fds d.config ≡ true
      → (o.dup_fd s.kernel (o.files_of s.kernel current)).1 ≡ some copy
      → take_files_snapshot o (some array) d s current
        ≡ (with_files d (some copy) (some array), taken_state s current array copy, 0)
  unfolding take_files_snapshot
  taken d s current array copy c h = rw (take_files_snapshot, c, h) refl

  -- The restore of a saved table whose copy can be had.
  abbrev restored_state : FilesState K → ℕ → ℕ → ℕ → K → FilesState K × ℕ
  restored_state s current array restored k =
      let r = restore_file_offsets o k (s.arrays array) (o.iterate_fd k restored) in
      if r.1 == 0
      then (
        record s {
          kernel =
              replace_files o r.0 current (o.files_of r.0 current) restored (o.threads r.0 current);
        },
        0,
      )
      else (record s { kernel = o.put_files_struct r.0 restored }, r.1)

  recovered :
      (d : TaskData) (s : FilesState K) (current array copy restored : ℕ)
      → has_flag afl_snapshot_fds d.config ≡ true
      → (o.dup_fd s.kernel copy).1 ≡ some restored
      → recover_files_snapshot o (with_files d (some copy) (some array)) s current
        ≡ restored_state s current array restored (o.dup_fd s.kernel copy).0
  unfolding recover_files_snapshot
  recovered d s current array copy restored c h = rw (recover_files_snapshot, c, h) refl

  restored-at :
      (s : FilesState K) (current array restored : ℕ) (k : K) (fd file n : ℕ)
      → ((i : ℕ) → Presented i file (o.iterate_fd k restored) → s.arrays array i ≡ pos n)
      → Presented fd file (o.iterate_fd k restored)
      → (restored_state s current array restored k).1 ≡ 0
      → at (restored_state s current array restored k).0.kernel file ≡ pos n
  restored-at s current array restored k fd file n a p z = go (Bool-cases (r.1 == 0))
    where
      r : K × ℕ
      r = restore_file_offsets o k (s.arrays array) (o.iterate_fd k restored)

      go :
          ((r.1 == 0) ≡ true) ⊎ ((r.1 == 0) ≡ false)
          → at (restored_state s current array restored k).0.kernel file ≡ pos n
      go (inl e) = rw e (
          replace-at r.0 current (o.files_of r.0 current) restored (o.threads r.0 current) file
          ∙ all-at o at laws k (s.arrays array) (o.iterate_fd k restored) fd file n a p e)
      go (inr e) = absurd (ground arith)

  -- The saved offset of each presented descriptor is the position of its file before the take.
  taken-offset :
      (s : FilesState K) (current array copy fd file : ℕ)
      → Once (o.iterate_fd (o.dup_fd s.kernel (o.files_of s.kernel current)).0 copy)
      → Presented fd file (o.iterate_fd (o.dup_fd s.kernel (o.files_of s.kernel current)).0 copy)
      → (taken_state s current array copy).arrays array fd ≡ at s.kernel file
  taken-offset s current array copy fd file u p =
      let k = (o.dup_fd s.kernel (o.files_of s.kernel current)).0 in
      rw (eq_refl array) (
        save-offset o at laws k no_offsets (o.iterate_fd k copy) fd file u p
        ∙ laws.at-dup s.kernel (o.files_of s.kernel current) file)

  -- The open files are put back: take a snapshot of the files, let anything happen that leaves the saved
  -- table and the array of its offsets; if the restore then returns 0, each file that was open and had
  -- a position has it again. The conditions: AFL_SNAPSHOT_FDS is set, the allocations succeed, the copy
  -- of the saved table presents the same files, each descriptor once, and seeks are as documented.
  pub files_restored :
      (d : TaskData) (s : FilesState K) (s₂ : FilesState K) (current array copy restored : ℕ)
      (fd file n : ℕ)
      → has_flag afl_snapshot_fds d.config ≡ true
      → (o.dup_fd s.kernel (o.files_of s.kernel current)).1 ≡ some copy
      → let saved = o.iterate_fd (o.dup_fd s.kernel (o.files_of s.kernel current)).0 copy in
        let t = take_files_snapshot o (some array) d s current in
        Once saved
        → s₂.arrays array ≡ t.1.arrays array
        → (o.dup_fd s₂.kernel copy).1 ≡ some restored
        → o.iterate_fd (o.dup_fd s₂.kernel copy).0 restored ≡ saved
        → (recover_files_snapshot o t.0 s₂ current).1 ≡ 0
        → Presented fd file saved
        → at s.kernel file ≡ pos n
        → at (recover_files_snapshot o t.0 s₂ current).0.kernel file ≡ pos n
  files_restored d s s₂ current array copy restored fd file n c h u a f same z p w =
      let t = taken d s current array copy c h in
      let back : recover_files_snapshot o (take_files_snapshot o (some array) d s current).0 s₂
            current
          ≡ restored_state s₂ current array restored (o.dup_fd s₂.kernel copy).0 =
        ap (λ x. recover_files_snapshot o x.0 s₂ current) t
        ∙ recovered d s₂ current array copy restored c f in
      ap (λ x. at x.0.kernel file) back
      ∙ restored-at s₂ current array restored (o.dup_fd s₂.kernel copy).0 fd file n
          (λ i q.
            ap (λ x. x i) (a ∙ ap (λ x. x.1.arrays array) t)
            ∙ taken-offset s current array copy i file u (subst (Presented i file) same q)
            ∙ w)
          (subst (Presented fd file) (sym same) p) (sym (ap (λ x. x.1) back) ∙ z)
