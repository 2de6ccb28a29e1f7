-- ===== src/Files/Balance.antt =====
-- No reference to a file table is lost or dropped twice by the operations of src/files.c.
use afl_snapshot_lkm.Base.{
  Once, ℕ, ◌≡◌, ◌==◌, true, Option, none, some, List, has_flag, elem, arith, Bool-cases,
  Option-cases, inl, inr, sym, subst,
}
use afl_snapshot_lkm.Task.{TaskData}
use afl_snapshot_lkm.Ranges.{afl_snapshot_fds}
use afl_snapshot_lkm.Files.{
  FileOps, FilesState, no_offsets, with_files, save_file_offsets, restore_file_offsets,
  take_files_snapshot, recover_files_snapshot, clean_files_snapshot,
}
use afl_snapshot_lkm.Files.Counts.{CountLaws, save-SameCounts, restore-SameCounts}
use afl_snapshot_lkm.Files.Copied.{
  Balanced, Copied, dup-Copied, missing-Balanced, same-Copied, put-Balanced, replace-Balanced,
  keep-Balanced,
}

module _ {K : Type 0} (o : FileOps K) (current : ℕ) where
  -- The calls for one process, in any order and with any results of `dup_fd`, `vfs_llseek` and
  -- `kmalloc`. A snapshot of the files is taken only where there is none.
  pub data Calls (d : TaskData) (s : FilesState K) : TaskData → FilesState K → Type 0 where
    start : Calls d s d s
    take :
        (d' : TaskData) (s' : FilesState K) (kmalloc : Option ℕ)
        → Calls d s d' s'
        → d'.ss.ss_files.files ≡ none
        → Calls d s
            (take_files_snapshot o kmalloc d' s' current).0
            (take_files_snapshot o kmalloc d' s' current).1
    recover :
        (d' : TaskData) (s' : FilesState K)
        → Calls d s d' s'
        → Calls d s d' (recover_files_snapshot o d' s' current).0
    clean :
        (d' : TaskData) (s' : FilesState K)
        → Calls d s d' s'
        → Calls d s (clean_files_snapshot o d' s').0 (clean_files_snapshot o d' s').1

module _ {K : Type 0} (o : FileOps K) (count : K → ℕ → ℕ) (ts : List ℕ) (holders : ℕ → ℕ)
    (current : ℕ) (laws : CountLaws o count) (once : Once ts) (mine : elem current ts ≡ true) where
  abbrev Balances : Option ℕ → K → Type 0
  Balances f k = Balanced o count ts holders current f k

  take-Balanced :
      (kmalloc : Option ℕ) (d : TaskData) (s : FilesState K)
      → d.ss.ss_files.files ≡ none
      → Balances d.ss.ss_files.files s.kernel
      → Balances
          (take_files_snapshot o kmalloc d s current).0.ss.ss_files.files
          (take_files_snapshot o kmalloc d s current).1.kernel
  unfolding take_files_snapshot
  take-Balanced kmalloc d s e b = elim (Bool-cases (has_flag afl_snapshot_fds d.config)) [
    | inr c ↦ rw (take_files_snapshot, c) bare
    | inl c ↦ elim (Option-cases (o.dup_fd s.kernel table).1) [
      | inl h ↦
          rw (take_files_snapshot, c, h)
            (missing-Balanced o count ts holders current laws once mine d.ss.ss_files.files s.kernel
              table b h)
      | inr (r, h) ↦
          let copied =
            dup-Copied o count ts holders current laws once mine none s.kernel table r bare h in
          by_array kmalloc r c h copied
    ]
  ]
    where
      table : ℕ
      table = o.files_of s.kernel current

      bare : Balances none s.kernel
      bare = subst (λ f. Balances f s.kernel) e b

      by_array :
          (kmalloc : Option ℕ) (r : ℕ)
          → has_flag afl_snapshot_fds d.config ≡ true
          → (o.dup_fd s.kernel table).1 ≡ some r
          → Copied o count ts holders current none (o.dup_fd s.kernel table).0 r
          → Balances
              (take_files_snapshot o kmalloc d s current).0.ss.ss_files.files
              (take_files_snapshot o kmalloc d s current).1.kernel
      by_array none r c h copied =
          rw (take_files_snapshot, c, h)
            (subst (λ f. Balances f (o.put_files_struct (o.dup_fd s.kernel table).0 r)) (sym e)
              (put-Balanced o count ts holders current laws once mine none
                (o.dup_fd s.kernel table).0 r copied.counts copied.threads))
      by_array (some array) r c h copied =
          let k = (o.dup_fd s.kernel table).0 in
          let fds = o.iterate_fd k r in
          rw (take_files_snapshot, c, h)
            (keep-Balanced o count ts holders current laws once mine
              (save_file_offsets o k no_offsets fds).0 r
              (same-Copied o count ts holders current laws once mine none k
                (save_file_offsets o k no_offsets fds).0 r
                (save-SameCounts o count laws k no_offsets fds) copied))

  recover-Balanced :
      (d : TaskData) (s : FilesState K)
      → Balances d.ss.ss_files.files s.kernel
      → Balances d.ss.ss_files.files (recover_files_snapshot o d s current).0.kernel
  unfolding recover_files_snapshot
  recover-Balanced d s b = elim (Bool-cases (has_flag afl_snapshot_fds d.config)) [
    | inr c ↦ rw (recover_files_snapshot, c) b
    | inl c ↦ by_snapshot c d.ss.ss_files.files d.ss.ss_files.offsets b
  ]
    where
      result : Option ℕ → Option ℕ → K
      result f a = (recover_files_snapshot o (with_files d f a) s current).0.kernel

      by_snapshot :
          has_flag afl_snapshot_fds d.config ≡ true
          → (f a : Option ℕ) → Balances f s.kernel
          → Balances f (recover_files_snapshot o (with_files d f a) s current).0.kernel
      by_snapshot c none a b = rw (recover_files_snapshot, c) b
      by_snapshot c (some f) none b = rw (recover_files_snapshot, c) b
      by_snapshot c (some f) (some array) b = elim (Option-cases (o.dup_fd s.kernel f).1) [
        | inl h ↦
            rw (recover_files_snapshot, c, h)
              (missing-Balanced o count ts holders current laws once mine (some f) s.kernel f b h)
        | inr (r, h) ↦
            let k = (o.dup_fd s.kernel f).0 in
            let offsets = s.arrays array in
            let fds = o.iterate_fd k r in
            let sought = restore_file_offsets o k offsets fds in
            let copied =
              same-Copied o count ts holders current laws once mine (some f) k sought.0 r
                (restore-SameCounts o count laws k offsets fds)
                (dup-Copied o count ts holders current laws once mine (some f) s.kernel f r b h) in
            elim (Bool-cases (sought.1 == 0)) [
              | inl z ↦
                  rw (recover_files_snapshot, c, h, z)
                    (replace-Balanced o count ts holders current laws once mine (some f) sought.0 r
                      copied)
              | inr z ↦
                  rw (recover_files_snapshot, c, h, z)
                    (put-Balanced o count ts holders current laws once mine (some f) sought.0 r
                      copied.counts copied.threads)
            ]
      ]

  clean-Balanced :
      (d : TaskData) (s : FilesState K)
      → Balances d.ss.ss_files.files s.kernel
      → Balances
          (clean_files_snapshot o d s).0.ss.ss_files.files
          (clean_files_snapshot o d s).1.kernel
  unfolding clean_files_snapshot
  clean-Balanced d s b = by_snapshot d.ss.ss_files.files b
    where
      by_snapshot :
          (f : Option ℕ)
          → Balances f s.kernel
          → Balances none (clean_files_snapshot o (with_files d f d.ss.ss_files.offsets) s).1.kernel
      by_snapshot none b = b
      by_snapshot (some f) b =
          put-Balanced o count ts holders current laws once mine none s.kernel f
            (λ q. let c = b.counts q in omega arith) b.threads

  -- Every reference to a file table is accounted for: if the count of each table is the number of
  -- the threads of the process that use it, of its holders elsewhere, and of the snapshot's
  -- references, then so it is after any sequence of takes, restores and cleans, whatever the
  -- allocations, copies and seeks give, so none is lost or dropped twice: of a reference that is not
  -- there any more, the law on dropping one says nothing. The conditions: the threads of the
  -- process, the current one among them, are each in the list once, a take is for a process without
  -- a snapshot of its files, and the kernel's functions count as documented.
  pub files_balanced :
      (d : TaskData) (s : FilesState K) (d' : TaskData) (s' : FilesState K)
      → Balances d.ss.ss_files.files s.kernel
      → Calls o current d s d' s'
      → Balances d'.ss.ss_files.files s'.kernel
  files_balanced d s d' s' b start = b
  files_balanced d s d' s' b (take d₁ s₁ kmalloc c e) =
      take-Balanced kmalloc d₁ s₁ e (files_balanced d s d₁ s₁ b c)
  files_balanced d s d' s' b (recover d₁ s₁ c) =
      recover-Balanced d₁ s₁ (files_balanced d s d₁ s₁ b c)
  files_balanced d s d' s' b (clean d₁ s₁ c) = clean-Balanced d₁ s₁ (files_balanced d s d₁ s₁ b c)
