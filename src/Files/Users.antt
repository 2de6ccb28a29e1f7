-- ===== src/Files/Users.antt =====
-- How many threads use a file table, for the reference counts of src/files.c.
use afl_snapshot_lkm.Base.{
  Once, ℕ, suc, ◌+◌, ◌≡◌, refl, ◌==◌, ◌&&◌, not, if◌then◌else◌, true, false, List, [], ◌∷◌, elem,
  elem-cons, elem-nil, arith, Bool-cases, inl, inr, subst, ==_iff, eq_refl,
}

-- The threads of a list whose table, by `f`, is `q`;
unfoldable pub users : (ℕ → ℕ) → List ℕ → ℕ → ℕ
users f [] q = 0
users f (t ∷ ts) q = (if f t == q then 1 else 0) + users f ts q

-- those among them that are not `current`.
unfoldable pub other_users : (ℕ → ℕ) → ℕ → List ℕ → ℕ → ℕ
other_users f current [] q = 0
other_users f current (t ∷ ts) q =
    (if f t == q && not (t == current) then 1 else 0) + other_users f current ts q

-- `f'` agrees with `f` on the threads of a list.
pub users-same :
    (f f' : ℕ → ℕ) (ts : List ℕ) (q : ℕ)
    → ((u : ℕ) → elem u ts ≡ true → f' u ≡ f u)
    → users f' ts q ≡ users f ts q
unfolding users
users-same f f' [] q h = refl
users-same f f' (t ∷ ts) q h =
    let first : f' t ≡ f t = h t (rw (elem-cons t t ts, eq_refl t) refl) in
    let rest = users-same f f' ts q (λ u e. h u (let c = elem-cons u t ts in ground arith)) in
    rw first (rw rest refl)

pub other_users-same :
    (f f' : ℕ → ℕ) (current : ℕ) (ts : List ℕ) (q : ℕ)
    → ((u : ℕ) → elem u ts ≡ true → f' u ≡ f u)
    → other_users f' current ts q ≡ other_users f current ts q
unfolding other_users
other_users-same f f' current [] q h = refl
other_users-same f f' current (t ∷ ts) q h =
    let first : f' t ≡ f t = h t (rw (elem-cons t t ts, eq_refl t) refl) in
    let rest =
      other_users-same f f' current ts q (λ u e. h u (let c = elem-cons u t ts in ground arith)) in
    rw first (rw rest refl)

-- A thread of the list is one of the users.
pub users-pos : (f : ℕ → ℕ) (ts : List ℕ) (t : ℕ) → elem t ts ≡ true → users f ts (f t) ≡ 0 → ⊥
unfolding users
users-pos f [] t e z = let n = elem-nil t in cc
users-pos f (u ∷ ts) t e z = elim (Bool-cases (u == t)) [
  | inl y ↦ let same : (f u == f t) ≡ true = rw ((==_iff u t).0 y) (eq_refl (f t)) in ground arith
  | inr y ↦ users-pos f ts t (let c = elem-cons t u ts in ground arith) (omega arith)
]

-- All users but one are others.
pub others_lem :
    (f : ℕ → ℕ) (current : ℕ) (ts : List ℕ)
    → Once ts
    → elem current ts ≡ true
    → users f ts (f current) ≡ suc (other_users f current ts (f current))
unfolding users other_users Once
others_lem f current [] o e = absurd (let n = elem-nil current in cc)
others_lem f current (t ∷ ts) o e = elim (Bool-cases (t == current)) [
  | inl y ↦
      let here = (==_iff t current).0 y in
      let same : (f t == f current) ≡ true = rw here (eq_refl (f current)) in
      let rest = without f current ts (subst (λ x. elem x ts ≡ false) here o.0) in ground arith
  | inr y ↦
      let rest = others_lem f current ts o.1 (let c = elem-cons current t ts in ground arith) in
      ground arith
]
  where
    without :
        (f : ℕ → ℕ) (current : ℕ) (ts : List ℕ)
        → elem current ts ≡ false
        → users f ts (f current) ≡ other_users f current ts (f current)
    without f current [] e = refl
    without f current (t ∷ ts) e =
        let c = elem-cons current t ts in ground (arith, without f current ts (ground arith))

-- Every user of `old` becomes one of `new`, which had none.
pub users-moved :
    (f f' : ℕ → ℕ) (old new : ℕ) (ts : List ℕ) (q : ℕ)
    → ((u : ℕ) → elem u ts ≡ true → f' u ≡ (if f u == old then new else f u))
    → users f ts new ≡ 0
    → (new == old) ≡ false
    → users f' ts q ≡ (if new == q then users f ts old else if old == q then 0 else users f ts q)
unfolding users
users-moved f f' old new [] q h z n = ground arith
users-moved f f' old new (t ∷ ts) q h z n =
    let first = h t (rw (elem-cons t t ts, eq_refl t) refl) in
    let rest =
      users-moved f f' old new ts q (λ u e. h u (let c = elem-cons u t ts in ground arith))
        (omega arith) n in
    ground arith
