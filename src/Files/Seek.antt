-- ===== src/Files/Seek.antt =====
-- The positions of files under the operations of src/files.c.
use afl_snapshot_lkm.Base.{
  ℕ, ◌≡◌, refl, ◌==◌, true, false, List, [], ◌∷◌, map, ◌⊎◌, inl, inr, Bool-cases, arith, elem,
  update, eq_refl, ==_iff, ◌∙◌, sym, ap, subst,
}
use afl_snapshot_lkm.Files.{
  ℤ, pos, negsuc, FileOps, save_file_offsets, restore_file_offset, restore_file_offsets, seek_error,
}

-- The documented effects, for the position `at` of a file (below zero where it cannot seek).
pub record SeekLaws {K : Type 0} (o : FileOps K) (at : K → ℕ → ℤ) : Type 0 where
  pub cur-at : (k : K) (f : ℕ) → (o.vfs_llseek_cur k f).1 ≡ at k f
  pub at-cur : (k : K) (f g : ℕ) → at (o.vfs_llseek_cur k f).0 g ≡ at k g
  -- a seek that reports the offset has gone there, and no seek moves another file
  pub at-set :
      (k : K) (f n : ℕ)
      → (o.vfs_llseek_set k f n).1 ≡ pos n
      → at (o.vfs_llseek_set k f n).0 f ≡ pos n
  pub at-set_other :
      (k : K) (f n g : ℕ) → (f == g) ≡ false → at (o.vfs_llseek_set k f n).0 g ≡ at k g
  pub at-dup : (k : K) (t g : ℕ) → at (o.dup_fd k t).0 g ≡ at k g
  -- a file that is open elsewhere is not moved when a table is put
  pub at-put : (k : K) (t g : ℕ) → at (o.put_files_struct k t) g ≡ at k g
  pub at-set_files : (k : K) (t r g : ℕ) → at (o.set_files_of k t r) g ≡ at k g
  pub at-inc : (k : K) (t g : ℕ) → at (o.atomic_inc k t) g ≡ at k g

-- No descriptor is presented twice.
unfoldable pub Once : List (ℕ × ℕ) → Type 0
Once [] = Unit {0}
Once ((fd, file) ∷ fds) = (elem fd (map (λ r. r.0) fds) ≡ false) × Once fds

-- The descriptor is presented with the file.
pub data Presented (fd file : ℕ) : List (ℕ × ℕ) → Type 0 where
  first : {e f : ℕ} {fds : List (ℕ × ℕ)} → fd ≡ e → file ≡ f → Presented fd file ((e, f) ∷ fds)
  later : {r : ℕ × ℕ} {fds : List (ℕ × ℕ)} → Presented fd file fds → Presented fd file (r ∷ fds)

-- A seek that is no error has reached the offset.
seek_error-zero : (r : ℤ) (n : ℕ) → (seek_error r n == 0) ≡ true → r ≡ pos n
seek_error-zero (pos r) n h = ap pos (ground arith)
seek_error-zero (negsuc e) n h = absurd (ground arith)

module _ {K : Type 0} (o : FileOps K) (at : K → ℕ → ℤ) (laws : SeekLaws o at) where
  -- Noting the positions moves no file,
  pub save-at :
      (k : K) (offsets : ℕ → ℤ) (fds : List (ℕ × ℕ)) (g : ℕ)
      → at (save_file_offsets o k offsets fds).0 g ≡ at k g
  unfolding save_file_offsets
  save-at k offsets [] g = refl
  save-at k offsets ((fd, file) ∷ fds) g =
      save-at (o.vfs_llseek_cur k file).0 (update offsets fd (o.vfs_llseek_cur k file).1) fds g
      ∙ laws.at-cur k file g

  -- leaves the entries of other descriptors,
  save-other :
      (k : K) (offsets : ℕ → ℤ) (fds : List (ℕ × ℕ)) (fd : ℕ)
      → elem fd (map (λ r. r.0) fds) ≡ false
      → (save_file_offsets o k offsets fds).1 fd ≡ offsets fd
  unfolding save_file_offsets elem
  save-other k offsets [] fd h = refl
  save-other k offsets ((e, file) ∷ fds) fd h =
      save-other (o.vfs_llseek_cur k file).0 (update offsets e (o.vfs_llseek_cur k file).1) fds fd
        (ground arith)
      ∙ ground arith

  -- and notes the position of each that is presented.
  pub save-offset :
      (k : K) (offsets : ℕ → ℤ) (fds : List (ℕ × ℕ)) (fd file : ℕ)
      → Once fds
      → Presented fd file fds
      → (save_file_offsets o k offsets fds).1 fd ≡ at k file
  unfolding save_file_offsets Once
  save-offset k offsets [] fd file u p = elim p [ ]
  save-offset k offsets ((e, f) ∷ fds) fd file u (first x y) =
      let moved =
        save-other (o.vfs_llseek_cur k f).0 (update offsets e (o.vfs_llseek_cur k f).1) fds fd
          (rw x u.0) in
      moved ∙ rw (x, eq_refl e, y) (laws.cur-at k f)
  save-offset k offsets ((e, f) ∷ fds) fd file u (later p) =
      save-offset (o.vfs_llseek_cur k f).0 (update offsets e (o.vfs_llseek_cur k f).1) fds fd file
        u.1 p
      ∙ laws.at-cur k f file

  opened :
      (k : K) (offsets : ℕ → ℤ) (file fd n : ℕ)
      → offsets fd ≡ pos n
      → restore_file_offset o k offsets file fd
        ≡ ((o.vfs_llseek_set k file n).0, seek_error (o.vfs_llseek_set k file n).1 n)
  unfolding restore_file_offset
  opened k offsets file fd n e = rw (restore_file_offset, e) refl

  -- One seek brings its file to the saved offset, if it returns 0,
  seek-at :
      (k : K) (offsets : ℕ → ℤ) (file fd n : ℕ)
      → offsets fd ≡ pos n
      → ((restore_file_offset o k offsets file fd).1 == 0) ≡ true
      → at (restore_file_offset o k offsets file fd).0 file ≡ pos n
  unfolding restore_file_offset
  seek-at k offsets file fd n e h =
      rw (restore_file_offset, e)
        (laws.at-set k file n (
          seek_error-zero (o.vfs_llseek_set k file n).1 n
            (subst (λ x. (x.1 == 0) ≡ true) (opened k offsets file fd n e) h)))

  -- and moves no other file.
  seek-other :
      (k : K) (offsets : ℕ → ℤ) (file fd g : ℕ)
      → (file == g) ≡ false
      → at (restore_file_offset o k offsets file fd).0 g ≡ at k g
  unfolding restore_file_offset
  seek-other k offsets file fd g h = go (offsets fd) refl
    where
      go : (x : ℤ) → offsets fd ≡ x → at (restore_file_offset o k offsets file fd).0 g ≡ at k g
      go (pos n) e = rw (restore_file_offset, e) (laws.at-set_other k file n g h)
      go (negsuc n) e = rw (restore_file_offset, e) refl

  -- If the seeks all return 0, then the first one and the others do.
  went :
      (k : K) (offsets : ℕ → ℤ) (fd file : ℕ) (fds : List (ℕ × ℕ))
      → ((restore_file_offsets o k offsets ((fd, file) ∷ fds)).1 == 0) ≡ true
      → let next = restore_file_offset o k offsets file fd in
        ((next.1 == 0) ≡ true)
        × (((restore_file_offsets o next.0 offsets fds).1 == 0) ≡ true)
        × (restore_file_offsets o k offsets ((fd, file) ∷ fds)
            ≡ restore_file_offsets o next.0 offsets fds)
  unfolding restore_file_offsets
  went k offsets fd file fds h = go (Bool-cases ((restore_file_offset o k offsets file fd).1 == 0))
    where
      next : K × ℕ
      next = restore_file_offset o k offsets file fd

      go :
          (((next.1 == 0) ≡ true) ⊎ ((next.1 == 0) ≡ false))
          → ((next.1 == 0) ≡ true)
            × (((restore_file_offsets o next.0 offsets fds).1 == 0) ≡ true)
            × (restore_file_offsets o k offsets ((fd, file) ∷ fds)
                ≡ restore_file_offsets o next.0 offsets fds)
      go (inl e) =
          let same : restore_file_offsets o k offsets ((fd, file) ∷ fds)
              ≡ restore_file_offsets o next.0 offsets fds =
            rw (restore_file_offsets, e) refl in
          (e, ap (λ r. r.1 == 0) (sym same) ∙ h, same)
      go (inr e) =
          let stopped : restore_file_offsets o k offsets ((fd, file) ∷ fds) ≡ next =
            rw (restore_file_offsets, e) refl in
          absurd (let x = ap (λ r. r.1 == 0) (sym stopped) ∙ h in cc)

  -- A file at the saved offset stays there, where all descriptors of the file have it saved.
  stays :
      (k : K) (offsets : ℕ → ℤ) (fds : List (ℕ × ℕ)) (g n : ℕ)
      → ((fd : ℕ) → Presented fd g fds → offsets fd ≡ pos n)
      → at k g ≡ pos n
      → ((restore_file_offsets o k offsets fds).1 == 0) ≡ true
      → at (restore_file_offsets o k offsets fds).0 g ≡ pos n
  unfolding restore_file_offsets
  stays k offsets [] g n s a h = a
  stays k offsets ((fd, file) ∷ fds) g n s a h =
      let w = went k offsets fd file fds h in
      subst (λ x. at x.0 g ≡ pos n) (sym w.2)
        (stays (restore_file_offset o k offsets file fd).0 offsets fds g n (λ e p. s e (later p))
          (elim (Bool-cases (file == g)) [
            | inl e ↦
                let f = (==_iff file g).0 e in
                subst (λ x. at (restore_file_offset o k offsets file fd).0 x ≡ pos n) f
                  (seek-at k offsets file fd n (s fd (first refl (sym f))) w.0)
            | inr e ↦ seek-other k offsets file fd g e ∙ a
          ])
          w.1)

  -- After seeks that all return 0, each file that is presented is where its descriptor has it saved.
  pub all-at :
      (k : K) (offsets : ℕ → ℤ) (fds : List (ℕ × ℕ)) (fd file n : ℕ)
      → ((e : ℕ) → Presented e file fds → offsets e ≡ pos n)
      → Presented fd file fds
      → ((restore_file_offsets o k offsets fds).1 == 0) ≡ true
      → at (restore_file_offsets o k offsets fds).0 file ≡ pos n
  unfolding restore_file_offsets
  all-at k offsets [] fd file n s p h = elim p [ ]
  all-at k offsets ((e, f) ∷ fds) fd file n s (first x y) h =
      let w = went k offsets e f fds h in
      subst (λ z. at z.0 file ≡ pos n) (sym w.2)
        (stays (restore_file_offset o k offsets f e).0 offsets fds file n (λ i p. s i (later p))
          (subst (λ z. at (restore_file_offset o k offsets f e).0 z ≡ pos n) (sym y)
            (seek-at k offsets f e n (s e (first refl y)) w.0))
          w.1)
  all-at k offsets ((e, f) ∷ fds) fd file n s (later p) h =
      let w = went k offsets e f fds h in
      subst (λ z. at z.0 file ≡ pos n) (sym w.2)
        (all-at (restore_file_offset o k offsets f e).0 offsets fds fd file n (λ i q. s i (later q))
          p w.1)
