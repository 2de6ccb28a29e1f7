-- ===== src/Base/Maps.antt =====
-- Maps as functions, and lists of addresses with their Boolean membership test.
use Prim.Native.Nat.{ℕ, suc}
use mathlib.Core.Path.{◌≡◌, refl}
use mathlib.Core.Bool.{Bool, true, false, ◌||◌}
use mathlib.Core.List.{List, [], ◌∷◌, ◌++◌}
use native.Mathlib.Omega.{arith}
use afl_snapshot_lkm.Base.Tests.{◌==◌, if◌then◌else◌}

abbrev pub update {ℓ} : {A : Type ℓ} → (ℕ → A) → ℕ → A → ℕ → A
update f k v j = if k == j then v else f j

unfoldable pub elem : ℕ → List ℕ → Bool
elem a [] = false
elem a (x ∷ xs) = x == a || elem a xs

unfoldable pub remove : ℕ → List ℕ → List ℕ
remove a [] = []
remove a (x ∷ xs) = if x == a then remove a xs else x ∷ remove a xs

module _ {ℓ} {A : Type ℓ} where
  abbrev pub length : List A → ℕ
  length [] = 0
  length (x ∷ xs) = suc (length xs)

-- No number is in the list twice.
unfoldable pub Once : List ℕ → Type 0
Once [] = Unit {0}
Once (x ∷ xs) = (elem x xs ≡ false) × Once xs

pub elem-cons : (a x : ℕ) (xs : List ℕ) → elem a (x ∷ xs) ≡ (x == a || elem a xs)
unfolding elem
elem-cons a x xs = refl

pub elem-append : (a : ℕ) (xs ys : List ℕ) → elem a (xs ++ ys) ≡ (elem a xs || elem a ys)
unfolding elem
elem-append a [] ys = refl
elem-append a (x ∷ xs) ys = ground (arith, elem-append a xs ys)

pub elem-snoc : (a x : ℕ) (xs : List ℕ) → elem a (xs ++ x ∷ []) ≡ (elem a xs || x == a)
unfolding elem
elem-snoc a x xs = ground (arith, elem-append a xs (x ∷ []))

pub elem-remove :
    (a b : ℕ) (xs : List ℕ) → elem a (remove b xs) ≡ (if b == a then false else elem a xs)
unfolding elem remove
elem-remove a b [] = ground arith
elem-remove a b (x ∷ xs) = ground (arith, elem-remove a b xs)

pub elem-nil : (a : ℕ) → elem a [] ≡ false
unfolding elem
elem-nil a = refl

pub elem-tail :
    (a x : ℕ) (xs : List ℕ) → (x == a) ≡ false → elem a (x ∷ xs) ≡ true → elem a xs ≡ true
unfolding elem
elem-tail a x xs e h = ground arith
