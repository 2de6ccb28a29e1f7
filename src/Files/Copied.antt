-- ===== src/Files/Copied.antt =====
-- The references to a file table while src/files.c makes a copy of it, gives the copy up or gives it
-- away.
use afl_snapshot_lkm.Base.{
  ◌<◌, Once, ℕ, ◌+◌, ◌≡◌, refl, ◌==◌, ◌&&◌, if◌then◌else◌, true, false, Option, none, some, List,
  elem, arith, Bool-cases, ◌⊎◌, inl, inr, ◌∙◌, sym, ap, subst, ==_iff, eq_refl,
}
use afl_snapshot_lkm.Files.{FileOps, replace_files}
use afl_snapshot_lkm.Files.Users.{users, users-same, users-pos, others_lem, users-moved}
use afl_snapshot_lkm.Files.Counts.{
  CountLaws, counted, SameCounts, replace-files, replace-count, replace-threads,
}

-- The references of a snapshot to a table.
abbrev pub references : Option ℕ → ℕ → ℕ
references none q = 0
references (some f) q = if f == q then 1 else 0

module _ {K : Type 0} (o : FileOps K) (count : K → ℕ → ℕ) (ts : List ℕ) (holders : ℕ → ℕ)
    (current : ℕ) where
  -- The count of each table is the number of the threads that use it, of its holders outside the
  -- process, and of the references of the snapshot. The threads of the process are `ts`.
  pub record Balanced (f : Option ℕ) (k : K) : Type 0 where
    pub counts : (q : ℕ) → count k q ≡ users (o.files_of k) ts q + holders q + references f q
    pub threads : o.threads k current ≡ ts

  -- A copy of a table is one that nobody used, with a reference that is the caller's.
  pub record Copied (f : Option ℕ) (k : K) (r : ℕ) : Type 0 where
    pub counts :
        (q : ℕ)
        → count k q ≡ users (o.files_of k) ts q + holders q + references f q + references (some r) q
    pub fresh : users (o.files_of k) ts r + holders r + references f r ≡ 0
    pub threads : o.threads k current ≡ ts

  module _ (laws : CountLaws o count) (once : Once ts) (mine : elem current ts ≡ true) where
    same-Balanced :
        (f : Option ℕ) (k k' : K) → SameCounts o count laws k k' → Balanced f k → Balanced f k'
    same-Balanced f k k' same b = record {
      counts = λ q.
          let u = users-same (o.files_of k) (o.files_of k') ts q (λ u e. same.files u) in
          let c = same.counts q in let c' = b.counts q in omega arith;
      threads = same.threads current ∙ b.threads;
    }

    pub dup-Copied :
        (f : Option ℕ) (k : K) (t r : ℕ)
        → Balanced f k
        → (o.dup_fd k t).1 ≡ some r
        → Copied f (o.dup_fd k t).0 r
    dup-Copied f k t r b e =
        let same = λ (q : ℕ).
          users-same (o.files_of k) (o.files_of (o.dup_fd k t).0) ts q
            (λ u e. laws.files-dup k t u) in
        let fresh : users (o.files_of k) ts r + holders r + references f r ≡ 0 =
          sym (b.counts r) ∙ laws.fresh-dup k t r e in
        record {
          counts = λ q.
              by_table q (Bool-cases (r == q)) (same q) (b.counts q) fresh
                (laws.count-dup k t q ∙ ap (λ x. counted x (count k) q) e);
          fresh = rw (same r) fresh;
          threads = laws.threads-dup k t current ∙ b.threads;
        }
      where
        by_table :
            (q : ℕ)
            → ((r == q) ≡ true) ⊎ ((r == q) ≡ false)
            → users (o.files_of (o.dup_fd k t).0) ts q ≡ users (o.files_of k) ts q
            → count k q ≡ users (o.files_of k) ts q + holders q + references f q
            → users (o.files_of k) ts r + holders r + references f r ≡ 0
            → count (o.dup_fd k t).0 q ≡ counted (some r) (count k) q
            → count (o.dup_fd k t).0 q
              ≡ users (o.files_of (o.dup_fd k t).0) ts q
                + holders q
                + references f q
                + references (some r) q
        by_table q (inr y) same c z d = ground arith
        by_table q (inl y) same c z d =
            let z' =
              subst (λ x. users (o.files_of k) ts x + holders x + references f x ≡ 0)
                ((==_iff r q).0 y) z in
            ground arith

    pub missing-Balanced :
        (f : Option ℕ) (k : K) (t : ℕ)
        → Balanced f k
        → (o.dup_fd k t).1 ≡ none
        → Balanced f (o.dup_fd k t).0
    missing-Balanced f k t b e =
        same-Balanced f k (o.dup_fd k t).0
          (record {
            counts = λ q. laws.count-dup k t q ∙ ap (λ x. counted x (count k) q) e;
            files = λ u. laws.files-dup k t u;
            threads = λ u. laws.threads-dup k t u;
          })
          b

    pub same-Copied :
        (f : Option ℕ) (k k' : K) (r : ℕ)
        → SameCounts o count laws k k'
        → Copied f k r
        → Copied f k' r
    same-Copied f k k' r same b =
        let users_at =
          λ (q : ℕ). users-same (o.files_of k) (o.files_of k') ts q (λ u e. same.files u) in
        record {
          counts = λ q.
              let u = users_at q in let c = same.counts q in let c' = b.counts q in omega arith;
          fresh = rw (users_at r) b.fresh;
          threads = same.threads current ∙ b.threads;
        }

    pub put-Balanced :
        (f : Option ℕ) (k : K) (r : ℕ)
        → ((q : ℕ)
            → count k q
              ≡ users (o.files_of k) ts q + holders q + references f q + references (some r) q)
        → o.threads k current ≡ ts
        → Balanced f (o.put_files_struct k r)
    put-Balanced f k r counts threads = record {
      counts = λ q.
          let u =
            users-same (o.files_of k) (o.files_of (o.put_files_struct k r)) ts q
              (λ u e. laws.files-put k r u) in
          let c = laws.count-put k r q held in let c' = counts q in omega arith;
      threads = laws.threads-put k r current ∙ threads;
    }
      where
        held : 0 < count k r
        held = let c = counts r in let e = eq_refl r in ground arith

    pub replace-Balanced :
        (f : Option ℕ) (k : K) (r : ℕ)
        → Copied f k r
        → Balanced f (replace_files o k current (o.files_of k current) r (o.threads k current))
    replace-Balanced f k r b =
        subst (λ l. Balanced f (replace_files o k current (o.files_of k current) r l))
          (sym b.threads)
          (record {
            counts = at_table;
            threads =
                replace-threads o count laws k current (o.files_of k current) r ts current
                ∙ b.threads;
          })
      where
        apart : (r == o.files_of k current) ≡ false
        apart = elim (Bool-cases (r == o.files_of k current)) [
          | inr y ↦ y
          | inl y ↦ absurd (
              users-pos (o.files_of k) ts current mine (
                subst (λ x. users (o.files_of k) ts x ≡ 0) ((==_iff r (o.files_of k current)).0 y)
                  (let z = b.fresh in omega arith)))
        ]

        by_member :
            (u : ℕ)
            → elem u ts ≡ true
            → o.files_of (replace_files o k current (o.files_of k current) r ts) u
              ≡ (if elem u ts && o.files_of k u == o.files_of k current then r else o.files_of k u)
            → o.files_of (replace_files o k current (o.files_of k current) r ts) u
              ≡ (if o.files_of k u == o.files_of k current then r else o.files_of k u)
        by_member u e m = m ∙ rw e refl

        at_table :
            (q : ℕ)
            → count (replace_files o k current (o.files_of k current) r ts) q
              ≡ users (o.files_of (replace_files o k current (o.files_of k current) r ts)) ts q
                + holders q
                + references f q
        at_table q =
            let old = o.files_of k current in
            let k' = replace_files o k current old r ts in
            let c =
              replace-count o count laws k current old r ts q apart once
                (let c = b.counts old in omega arith) in
            let u =
              users-moved (o.files_of k) (o.files_of k') old r ts q
                (λ u e. by_member u e (replace-files o count laws k current old r ts u apart))
                (let z = b.fresh in omega arith) apart in
            let others = others_lem (o.files_of k) current ts once mine in
            let all = b.counts q in
            let z = b.fresh in
            elim (Bool-cases (r == q)) [
              | inl y ↦
                  let same = (==_iff r q).0 y in
                  let z' =
                    subst (λ x. users (o.files_of k) ts x + holders x + references f x ≡ 0) same
                      z in
                  let n : (old == q) ≡ false = elim (Bool-cases (old == q)) [
                    | inr x ↦ x
                    | inl x ↦ absurd (
                        let w = apart in
                        let w' : (r == old) ≡ true =
                          rw (same ∙ sym ((==_iff old q).0 x)) (eq_refl old) in
                        cc)
                  ] in
                  ground arith
              | inr y ↦ elim (Bool-cases (old == q)) [
                | inl x ↦
                    let here : users (o.files_of k) ts old ≡ users (o.files_of k) ts q =
                      ap (users (o.files_of k) ts) ((==_iff old q).0 x) in
                    ground arith
                | inr x ↦ ground arith
              ]
            ]

    -- The caller's reference becomes the one of the snapshot.
    pub keep-Balanced : (k : K) (r : ℕ) → Copied none k r → Balanced (some r) k
    keep-Balanced k r b = record {
      counts = λ q. let c = b.counts q in omega arith;
      threads = b.threads;
    }
