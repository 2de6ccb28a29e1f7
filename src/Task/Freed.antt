-- ===== src/Task/Freed.antt =====
-- `task_data_free_callback` of src/task_data.c, which runs when no reader of a removed task data is left:
-- it frees the ranges and the data. A `list_head` is named by its address, and so is the object that it
-- stands in. The result has the addresses that are passed to `kfree`, in that order. The loops follow the
-- links, so they have fuel: more than the number of the ranges is enough.
use afl_snapshot_lkm.Base.{
  Once, ℕ, zero, suc, ◌<◌, ◌≡◌, ◌≢◌, refl, ◌==◌, true, false, if◌then◌else◌, Option, none, some,
  List, [], ◌∷◌, ◌++◌, length, elem, elem-cons, elem-nil, elem-append, elem-tail, arith, Bool-cases,
  inl, inr, ◌⊎◌, ◌∙◌, sym, ap, subst, ==_iff, eq_refl, eq_false,
}
use afl_snapshot_lkm.Ranges.Links.{ListOps, ListLaws, Entries, stop, visit}

module _ {L : Type 0} (k : ListOps L) where
  -- `list_for_each_entry_safe`, which reads the next link before the body runs, with `list_del` and `kfree`.
  unfoldable pub free_ranges : ℕ → L → ℕ → ℕ → Option (L × List ℕ)
  free_ranges zero l head range = none
  free_ranges (suc fuel) l head range =
      let rest = free_ranges fuel (k.list_del l range) head (k.next l range) in
      if range == head
      then some (l, [])
      else elim rest [ none ↦ none | some r ↦ some (r.0, range ∷ r.1) ]

  unfoldable pub task_data_free_callback : ℕ → L → ℕ → ℕ → ℕ → Option (List ℕ)
  task_data_free_callback fuel l blocklist allowlist d =
      elim (free_ranges fuel l blocklist (k.next l blocklist)) [
        | none ↦ none
        | some r ↦ elim (free_ranges fuel r.0 allowlist (k.next r.0 allowlist)) [
          | none ↦ none
          | some r' ↦ some (r.1 ++ (r'.1 ++ (d ∷ [])))
        ]
      ]

-- The entries of a list depend on their own links alone.
Entries-same :
    (f f' : ℕ → ℕ) (head cur : ℕ) (ns : List ℕ)
    → Entries f head cur ns
    → ((q : ℕ) → elem q ns ≡ true → f' q ≡ f q)
    → Entries f' head cur ns
Entries-same f f' head cur ns stop h = stop
Entries-same f f' head cur ns (visit {cur = c} {ns = ns'} e x) h =
    let here : f' c ≡ f c = h c (rw (elem-cons c c ns', eq_refl c) refl) in
    visit e (
      subst (λ y. Entries f' head y ns') (sym here)
        (Entries-same f f' head (f c) ns' x
          (λ q y. h q (rw (elem-cons q c ns', y) (let b = c == q in ground arith)))))

-- The first entry, or the head.
Entries-first :
    (f : ℕ → ℕ) (head cur : ℕ) (ns : List ℕ)
    → Entries f head cur ns
    → (elem cur ns ≡ true) ⊎ (cur ≡ head)
Entries-first f head cur ns stop = inr refl
Entries-first f head cur ns (visit {cur = c} {ns = ns'} e x) =
    inl (rw (elem-cons c c ns', eq_refl c) refl)

-- The link of an entry is to another entry or to the head.
Entries-next :
    (f : ℕ → ℕ) (head cur : ℕ) (ns : List ℕ) (q : ℕ)
    → Entries f head cur ns
    → elem q ns ≡ true
    → (elem (f q) ns ≡ true) ⊎ (f q ≡ head)
Entries-next f head cur ns q stop h = absurd (let z = elem-nil q in cc)
Entries-next f head cur ns q (visit {cur = c} {ns = ns'} e x) h = elim (Bool-cases (c == q)) [
  | inl y ↦
      let here : f c ≡ f q = ap f ((==_iff c q).0 y) in
      in_tail
        (subst (λ z. (elem z ns' ≡ true) ⊎ (z ≡ head)) here (Entries-first f head (f c) ns' x))
  | inr y ↦ in_tail (Entries-next f head (f c) ns' q x (elem-tail q c ns' y h))
]
  where
    in_tail : (elem (f q) ns' ≡ true) ⊎ (f q ≡ head) → (elem (f q) (c ∷ ns') ≡ true) ⊎ (f q ≡ head)
    in_tail (inl z) = inl (rw (elem-cons (f q) c ns', z) (let b = c == f q in ground arith))
    in_tail (inr z) = inr z

-- A number that is not in a list is not its first entry, nor a later one.
not_first : (a x : ℕ) (xs : List ℕ) → elem a (x ∷ xs) ≡ false → a ≢ x
not_first a x xs h = λ p.
    let z = elem-cons a x xs in
    let y : (x == a) ≡ true = ap (λ b. x == b) p ∙ eq_refl x in absurd (ground arith)

not_later : (a x : ℕ) (xs : List ℕ) → elem a (x ∷ xs) ≡ false → elem a xs ≡ false
not_later a x xs h = let z = elem-cons a x xs in ground arith

-- An entry and one that is not differ.
differ : (a b : ℕ) (xs : List ℕ) → elem a xs ≡ true → elem b xs ≡ false → a ≢ b
differ a b xs h n = λ p. absurd (let z : elem b xs ≡ true = ap (λ x. elem x xs) (sym p) ∙ h in cc)

Once-left : (xs ys : List ℕ) → Once (xs ++ ys) → Once xs
unfolding Once
Once-left [] ys u = tt
Once-left (x ∷ xs) ys u =
    (let z = elem-append x xs ys in let z' = u.0 in ground arith, Once-left xs ys u.1)

Once-right : (xs ys : List ℕ) → Once (xs ++ ys) → Once ys
unfolding Once
Once-right [] ys u = u
Once-right (x ∷ xs) ys u = Once-right xs ys u.1

Once-apart : (xs ys : List ℕ) (q : ℕ) → Once (xs ++ ys) → elem q ys ≡ true → elem q xs ≡ false
unfolding Once
Once-apart [] ys q u h = elem-nil q
Once-apart (x ∷ xs) ys q u h =
    let later = Once-apart xs ys q u.1 h in
    elim (Bool-cases (x == q)) [
      | inr y ↦ rw (elem-cons q x xs, y) later
      | inl y ↦ absurd (
          let n : elem q (xs ++ ys) ≡ false =
            ap (λ z. elem z (xs ++ ys)) (sym ((==_iff x q).0 y)) ∙ u.0 in
          let a = elem-append q xs ys in ground arith)
    ]

module _ {L : Type 0} (k : ListOps L) (laws : ListLaws k) where
  -- The entries of one list are freed, and links elsewhere that do not lead to one are kept.
  free_ranges-Entries :
      (fuel : ℕ) (l : L) (head cur : ℕ) (ns : List ℕ)
      → Entries (k.next l) head cur ns
      → Once ns
      → length ns < fuel
      → (l' : L) × (free_ranges k fuel l head cur ≡ some (l', ns))
        × ((q : ℕ) → elem q ns ≡ false → elem (k.next l q) ns ≡ false → k.next l' q ≡ k.next l q)
  unfolding free_ranges Once
  free_ranges-Entries zero l head cur ns x u h = absurd (omega arith)
  free_ranges-Entries (suc fuel) l head cur [] stop u h =
      (l, rw (free_ranges, eq_refl head) refl, λ q a b. refl)
  free_ranges-Entries (suc fuel) l head cur (c ∷ ns) (visit e x) u h =
      let l₁ = k.list_del l c in
      let step = λ (q : ℕ) (a : q ≢ c) (b : k.next l q ≢ c). laws.next-list_del l c q a b in
      let same = λ (q : ℕ) (y : elem q ns ≡ true).
        step q (differ q c ns y u.0)
          (link_apart q (Entries-next (k.next l) head (k.next l c) ns q x y)) in
      let rest =
        free_ranges-Entries fuel l₁ head (k.next l c) ns
          (Entries-same (k.next l) (k.next l₁) head (k.next l c) ns x same) u.1 (omega arith) in
      (
        rest.0,
        rw (free_ranges, eq_false c head e) (rw rest.1 refl),
        λ q a b.
            let one = step q (not_first q c ns a) (not_first (k.next l q) c ns b) in
            rest.2 q (not_later q c ns a) (ap (λ y. elem y ns) one ∙ not_later (k.next l q) c ns b)
            ∙ one,
      )
    where
      link_apart : (q : ℕ) → (elem (k.next l q) ns ≡ true) ⊎ (k.next l q ≡ head) → k.next l q ≢ c
      link_apart q (inl y) = differ (k.next l q) c ns y u.0
      link_apart q (inr y) = λ p. e (sym p ∙ y)

  -- Once a task data is unreachable, every range of its two lists and then the data itself is freed,
  -- each once and nothing else, on fuel above the number of ranges in either list. The conditions: the two
  -- lists are closed, the objects and the head of the allowlist are all different, and `list_del` is as
  -- documented.
  pub task_data_free_callback_lem :
      (fuel : ℕ) (l : L) (blocklist allowlist d : ℕ) (ns ms : List ℕ)
      → Entries (k.next l) blocklist (k.next l blocklist) ns
      → Entries (k.next l) allowlist (k.next l allowlist) ms
      → Once (ns ++ (ms ++ (d ∷ [])))
      → elem allowlist ns ≡ false
      → length ns < fuel
      → length ms < fuel
      → task_data_free_callback k fuel l blocklist allowlist d ≡ some (ns ++ (ms ++ (d ∷ [])))
  unfolding task_data_free_callback
  task_data_free_callback_lem fuel l blocklist allowlist d ns ms x y u n f g =
      let first =
        free_ranges-Entries fuel l blocklist (k.next l blocklist) ns x (Once-left ns _ u) f in
      let l' = first.0 in
      let kept_head : k.next l' allowlist ≡ k.next l allowlist =
        first.2 allowlist n (off (Entries-first (k.next l) allowlist _ ms y)) in
      let kept = λ (q : ℕ) (m : elem q ms ≡ true).
        first.2 q (off (inl m)) (off (Entries-next (k.next l) allowlist _ ms q y m)) in
      let still : Entries (k.next l') allowlist (k.next l' allowlist) ms =
        subst (λ c. Entries (k.next l') allowlist c ms) (sym kept_head)
          (Entries-same (k.next l) (k.next l') allowlist (k.next l allowlist) ms y kept) in
      let second =
        free_ranges-Entries fuel l' allowlist (k.next l' allowlist) ms still
          (Once-left ms (d ∷ []) (Once-right ns _ u)) g in
      rw (task_data_free_callback, first.1) (rw second.1 refl)
    where
      off : {q : ℕ} → (elem q ms ≡ true) ⊎ (q ≡ allowlist) → elem q ns ≡ false
      off {q = q} (inl m) =
          Once-apart ns (ms ++ (d ∷ [])) q u (elem-append q ms (d ∷ []) ∙ rw m refl)
      off (inr e) = ap (λ z. elem z ns) e ∙ n
