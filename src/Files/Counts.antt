-- ===== src/Files/Counts.antt =====
-- The reference counts of file tables under the kernel's functions that src/files.c calls, and under
-- its loop over the threads.
use afl_snapshot_lkm.Base.{
  ◌<◌, ◌≤◌, eq_refl, Once, ℕ, ◌+◌, ◌-◌, ◌≡◌, refl, ◌==◌, ◌&&◌, not, if◌then◌else◌, true, false,
  Option, none, some, List, [], ◌∷◌, update, elem, elem-cons, elem-nil, arith, Bool-cases, inl, inr,
  ◌∙◌, sym, ap, subst, ==_iff,
}
use afl_snapshot_lkm.Files.{
  FileOps, ℤ, pos, negsuc, save_file_offsets, restore_file_offset, restore_file_offsets,
  replace_files,
}
use afl_snapshot_lkm.Files.Users.{users, other_users, users-same, other_users-same}

-- The count of a table after `dup_fd`: the new one has one reference.
abbrev pub counted : Option ℕ → (ℕ → ℕ) → ℕ → ℕ
counted none c q = c q
counted (some r) c q = if r == q then 1 else c q

-- The documented effects on the count of each table, on the table of each thread, and on which
-- threads a process has. `dup_fd` gives a table that nobody has used. Nothing is said of the counts once a reference
-- is dropped that is not there.
pub record CountLaws {K : Type 0} (o : FileOps K) (count : K → ℕ → ℕ) : Type 0 where
  pub count-dup :
      (k : K) (t q : ℕ) → count (o.dup_fd k t).0 q ≡ counted (o.dup_fd k t).1 (count k) q
  pub fresh-dup : (k : K) (t r : ℕ) → (o.dup_fd k t).1 ≡ some r → count k r ≡ 0
  pub count-cur : (k : K) (f q : ℕ) → count (o.vfs_llseek_cur k f).0 q ≡ count k q
  pub count-set : (k : K) (f n q : ℕ) → count (o.vfs_llseek_set k f n).0 q ≡ count k q
  pub count-put :
      (k : K) (t q : ℕ)
      → 0 < count k t
      → count (o.put_files_struct k t) q ≡ count k q - (if t == q then 1 else 0)
  pub count-set_files : (k : K) (t r q : ℕ) → count (o.set_files_of k t r) q ≡ count k q
  pub count-inc :
      (k : K) (t q : ℕ) → count (o.atomic_inc k t) q ≡ (if t == q then 1 else 0) + count k q
  pub files-dup : (k : K) (t u : ℕ) → o.files_of (o.dup_fd k t).0 u ≡ o.files_of k u
  pub files-cur : (k : K) (f u : ℕ) → o.files_of (o.vfs_llseek_cur k f).0 u ≡ o.files_of k u
  pub files-set : (k : K) (f n u : ℕ) → o.files_of (o.vfs_llseek_set k f n).0 u ≡ o.files_of k u
  pub files-put : (k : K) (t u : ℕ) → o.files_of (o.put_files_struct k t) u ≡ o.files_of k u
  pub files-set_files :
      (k : K) (t r u : ℕ)
      → o.files_of (o.set_files_of k t r) u ≡ (if t == u then r else o.files_of k u)
  pub files-inc : (k : K) (t u : ℕ) → o.files_of (o.atomic_inc k t) u ≡ o.files_of k u
  pub threads-dup : (k : K) (t u : ℕ) → o.threads (o.dup_fd k t).0 u ≡ o.threads k u
  pub threads-cur : (k : K) (f u : ℕ) → o.threads (o.vfs_llseek_cur k f).0 u ≡ o.threads k u
  pub threads-set : (k : K) (f n u : ℕ) → o.threads (o.vfs_llseek_set k f n).0 u ≡ o.threads k u
  pub threads-put : (k : K) (t u : ℕ) → o.threads (o.put_files_struct k t) u ≡ o.threads k u
  pub threads-set_files : (k : K) (t r u : ℕ) → o.threads (o.set_files_of k t r) u ≡ o.threads k u
  pub threads-inc : (k : K) (t u : ℕ) → o.threads (o.atomic_inc k t) u ≡ o.threads k u

module _ {K : Type 0} (o : FileOps K) (count : K → ℕ → ℕ) (laws : CountLaws o count) where
  -- Nothing that is counted changes.
  pub record SameCounts (k k' : K) : Type 0 where
    pub counts : (q : ℕ) → count k' q ≡ count k q
    pub files : (u : ℕ) → o.files_of k' u ≡ o.files_of k u
    pub threads : (u : ℕ) → o.threads k' u ≡ o.threads k u

  pub save-SameCounts :
      (k : K) (offsets : ℕ → ℤ) (fds : List (ℕ × ℕ))
      → SameCounts k (save_file_offsets o k offsets fds).0
  unfolding save_file_offsets
  save-SameCounts k offsets [] = record {
    counts = λ q. refl;
    files = λ u. refl;
    threads = λ u. refl;
  }
  save-SameCounts k offsets ((fd, file) ∷ fds) =
      let r = o.vfs_llseek_cur k file in
      let later = save-SameCounts r.0 (update offsets fd r.1) fds in
      record {
        counts = λ q. later.counts q ∙ laws.count-cur k file q;
        files = λ u. later.files u ∙ laws.files-cur k file u;
        threads = λ u. later.threads u ∙ laws.threads-cur k file u;
      }

  offset-SameCounts :
      (k : K) (offsets : ℕ → ℤ) (file fd : ℕ)
      → SameCounts k (restore_file_offset o k offsets file fd).0
  unfolding restore_file_offset
  offset-SameCounts k offsets file fd = by_offset (offsets fd) refl
    where
      by_offset :
          (z : ℤ) → offsets fd ≡ z → SameCounts k (restore_file_offset o k offsets file fd).0
      by_offset (negsuc e) h =
          rw (restore_file_offset, h)
            (record { counts = λ q. refl; files = λ u. refl; threads = λ u. refl })
      by_offset (pos n) h =
          rw (restore_file_offset, h)
            (record {
              counts = λ q. laws.count-set k file n q;
              files = λ u. laws.files-set k file n u;
              threads = λ u. laws.threads-set k file n u;
            })

  pub restore-SameCounts :
      (k : K) (offsets : ℕ → ℤ) (fds : List (ℕ × ℕ))
      → SameCounts k (restore_file_offsets o k offsets fds).0
  unfolding restore_file_offsets
  restore-SameCounts k offsets [] = record {
    counts = λ q. refl;
    files = λ u. refl;
    threads = λ u. refl;
  }
  restore-SameCounts k offsets ((fd, file) ∷ fds) =
      let r = restore_file_offset o k offsets file fd in
      let first = offset-SameCounts k offsets file fd in
      let later = restore-SameCounts r.0 offsets fds in
      elim (Bool-cases (r.1 == 0)) [
        | inr e ↦ rw (restore_file_offsets, e) first
        | inl e ↦
            rw (restore_file_offsets, e)
              (record {
                counts = λ q. later.counts q ∙ first.counts q;
                files = λ u. later.files u ∙ first.files u;
                threads = λ u. later.threads u ∙ first.threads u;
              })
      ]

  -- One round of the loop over the threads.
  abbrev pub moved : K → ℕ → ℕ → ℕ → ℕ → K
  moved k current old restored t =
      let counted = if t == current then k else o.atomic_inc k restored in
      if o.files_of k t == old
      then o.put_files_struct (o.set_files_of counted t restored) (o.files_of k t)
      else k

  moved-files :
      (k : K) (current old restored t u : ℕ)
      → o.files_of (moved k current old restored t) u
        ≡ (if t == u && o.files_of k t == old then restored else o.files_of k u)
  moved-files k current old restored t u =
      let c = if t == current then k else o.atomic_inc k restored in
      ground (
        arith,
        laws.files-put (o.set_files_of c t restored) (o.files_of k t) u,
        laws.files-set_files c t restored u,
        laws.files-inc k restored u,
      )

  moved-count :
      (k : K) (current old restored t q : ℕ)
      → (restored == old) ≡ false
      → ((o.files_of k t == old) ≡ true → 0 < count k old)
      → count (moved k current old restored t) q
        ≡ (if restored == q && o.files_of k t == old && not (t == current) then 1 else 0)
          + count k q
          - (if old == q && o.files_of k t == old then 1 else 0)
  moved-count k current old restored t q n h = elim (Bool-cases (o.files_of k t == old)) [
    | inr e ↦ rw e ground arith
    | inl e ↦
        let c = if t == current then k else o.atomic_inc k restored in
        let mine : count k (o.files_of k t) ≡ count k old =
          ap (count k) ((==_iff (o.files_of k t) old).0 e) in
        let held = h e in
        let set = laws.count-set_files c t restored (o.files_of k t) in
        let inc = laws.count-inc k restored (o.files_of k t) in
        let there : 0 < count (o.set_files_of c t restored) (o.files_of k t) = ground arith in
        ground (
          arith,
          laws.count-put (o.set_files_of c t restored) (o.files_of k t) q there,
          laws.count-set_files c t restored q,
          laws.count-inc k restored q,
          ==_iff (o.files_of k t) old,
        )
  ]

  -- The loop gives each thread that had `old` the table `restored`,
  pub replace-files :
      (k : K) (current old restored : ℕ) (ts : List ℕ) (u : ℕ)
      → (restored == old) ≡ false
      → o.files_of (replace_files o k current old restored ts) u
        ≡ (if elem u ts && o.files_of k u == old then restored else o.files_of k u)
  unfolding replace_files
  replace-files k current old restored [] u n = rw (elem-nil u) refl
  replace-files k current old restored (t ∷ ts) u n =
      let k' = moved k current old restored t in
      let rest = replace-files k' current old restored ts u n in
      let f = moved-files k current old restored t u in
      let c = elem-cons u t ts in
      let same : (t == u) ≡ true → o.files_of k t ≡ o.files_of k u =
        λ e. ap (o.files_of k) ((==_iff t u).0 e) in
      ground (arith, same)

  -- and moves the references of these threads, but for the one of the current thread.
  pub replace-count :
      (k : K) (current old restored : ℕ) (ts : List ℕ) (q : ℕ)
      → (restored == old) ≡ false
      → Once ts
      → users (o.files_of k) ts old ≤ count k old
      → count (replace_files o k current old restored ts) q
        ≡ (if restored == q then other_users (o.files_of k) current ts old else 0)
          + count k q
          - (if old == q then users (o.files_of k) ts old else 0)
  unfolding replace_files users other_users Once
  replace-count k current old restored [] q n a b = ground arith
  replace-count k current old restored (t ∷ ts) q n a b =
      let k' = moved k current old restored t in
      let used : (o.files_of k t == old) ≡ true → 0 < count k old = λ e. ground arith in
      let c = moved-count k current old restored t q n used in
      let left = moved-count k current old restored t old n used in
      let apart =
        λ (u : ℕ) (e : elem u ts ≡ true). by_thread u e (moved-files k current old restored t u) in
      let same = users-same (o.files_of k) (o.files_of k') ts old apart in
      let same' = other_users-same (o.files_of k) (o.files_of k') current ts old apart in
      let self = eq_refl old in
      let enough : users (o.files_of k') ts old ≤ count k' old = ground arith in
      let rest = replace-count k' current old restored ts q n a.1 enough in ground arith
    where
      by_thread :
          (u : ℕ)
          → elem u ts ≡ true
          → o.files_of (moved k current old restored t) u
            ≡ (if t == u && o.files_of k t == old then restored else o.files_of k u)
          → o.files_of (moved k current old restored t) u ≡ o.files_of k u
      by_thread u e m = elim (Bool-cases (t == u)) [
        | inl y ↦ absurd (
            let here = subst (λ x. elem x ts ≡ true) (sym ((==_iff t u).0 y)) e in
            let away = a.0 in cc)
        | inr y ↦ m ∙ rw y refl
      ]

  -- The process has the threads it had.
  pub replace-threads :
      (k : K) (current old restored : ℕ) (ts : List ℕ) (u : ℕ)
      → o.threads (replace_files o k current old restored ts) u ≡ o.threads k u
  unfolding replace_files
  replace-threads k current old restored [] u = refl
  replace-threads k current old restored (t ∷ ts) u =
      replace-threads (moved k current old restored t) current old restored ts u ∙ moved-threads
    where
      moved-threads : o.threads (moved k current old restored t) u ≡ o.threads k u
      moved-threads =
          let c = if t == current then k else o.atomic_inc k restored in
          ground (
            arith,
            laws.threads-put (o.set_files_of c t restored) (o.files_of k t) u,
            laws.threads-set_files c t restored u,
            laws.threads-inc k restored u,
          )
