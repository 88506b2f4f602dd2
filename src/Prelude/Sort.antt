-- ===== src/Prelude/Sort.antt =====
-- The stable sort of `sort_by`, by a key in the natural numbers.
use Prim.Native.Nat.{ℕ, ◌≤◌, ◌+◌}
use mathlib.Core.Path.{◌≡◌, refl}
use mathlib.Core.Logic.{inl, inr}
use mathlib.Core.List.{List, [], ◌∷◌, Perm}
use mathlib.Core.List.Perm
use native.Mathlib.Omega.{arith}
use qvod_player.Prelude.Tests.{leb, if◌then◌else◌, Bool-cases}
use qvod_player.Prelude.Lists.{All}

module _ {ℓ} {A : Type ℓ} (key : A → ℕ) where
  unfoldable pub place_key : A → List A → List A
  place_key x [] = x ∷ []
  place_key x (y ∷ ys) =
      let rest = place_key x ys in if leb (key x) (key y) then x ∷ y ∷ ys else y ∷ rest

  unfoldable pub sort_key : List A → List A
  unfolding place_key
  sort_key [] = []
  sort_key (x ∷ xs) = place_key x (sort_key xs)

  abbrev pub Ascending : List A → Type 0
  Ascending [] = Unit
  Ascending (x ∷ xs) = All (λ y. key x ≤ key y) xs × Ascending xs

  All-le :
      (x y : A) (ys : List A)
      → key x ≤ key y
      → All (λ z. key y ≤ key z) ys
      → All (λ z. key x ≤ key z) ys
  All-le x y [] le h = tt
  All-le x y (z ∷ zs) le (h, hs) = (omega (arith, le, h), All-le x y zs le hs)

  All-place_key :
      (m : ℕ) (x : A) (ys : List A)
      → m ≤ key x
      → All (λ z. m ≤ key z) ys
      → All (λ z. m ≤ key z) (place_key x ys)
  unfolding place_key
  All-place_key m x [] le h = (le, tt)
  All-place_key m x (y ∷ ys) le (h, hs) = elim (Bool-cases (leb (key x) (key y))) [
    | inl p ↦ rw p (le, (h, hs))
    | inr p ↦ rw p (h, All-place_key m x ys le hs)
  ]

  place_key-Ascending : (x : A) (ys : List A) → Ascending ys → Ascending (place_key x ys)
  unfolding place_key
  place_key-Ascending x [] h = (tt, tt)
  place_key-Ascending x (y ∷ ys) (h, hs) = elim (Bool-cases (leb (key x) (key y))) [
    | inl p ↦ let le : key x ≤ key y = ground (arith, p) in rw p ((le, All-le x y ys le h), (h, hs))
    | inr p ↦
        let le : key y ≤ key x = ground (arith, p) in
        rw p (All-place_key (key y) x ys le h, place_key-Ascending x ys hs)
  ]

  pub sort_key-Ascending : (xs : List A) → Ascending (sort_key xs)
  unfolding sort_key
  sort_key-Ascending [] = tt
  sort_key-Ascending (x ∷ xs) = place_key-Ascending x (sort_key xs) (sort_key-Ascending xs)

  place_key-Perm : (x : A) (ys : List A) → Perm (place_key x ys) (x ∷ ys)
  unfolding place_key
  place_key-Perm x [] = Perm.refl (x ∷ [])
  place_key-Perm x (y ∷ ys) = elim (Bool-cases (leb (key x) (key y))) [
    | inl p ↦ rw p (Perm.refl (x ∷ y ∷ ys))
    | inr p ↦ rw p (Perm.trans (Perm.cons y (place_key-Perm x ys)) (Perm.swap x y ys))
  ]

  pub sort_key-Perm : (xs : List A) → Perm (sort_key xs) xs
  unfolding sort_key
  sort_key-Perm [] = Perm.refl []
  sort_key-Perm (x ∷ xs) =
      Perm.trans (place_key-Perm x (sort_key xs)) (Perm.cons x (sort_key-Perm xs))

-- The sum of a weight, which a sort keeps.
unfoldable pub total {ℓ} : {A : Type ℓ} → (A → ℕ) → List A → ℕ
total weight [] = 0
total weight (x ∷ xs) = weight x + total weight xs

module _ {ℓ} {A : Type ℓ} (key weight : A → ℕ) where
  total-place_key :
      (x : A) (ys : List A) → total weight (place_key key x ys) ≡ weight x + total weight ys
  unfolding total place_key
  total-place_key x [] = refl
  total-place_key x (y ∷ ys) = elim (Bool-cases (leb (key x) (key y))) [
    | inl p ↦ rw p refl
    | inr p ↦ rw p (omega (arith, total-place_key x ys))
  ]

  pub total-sort_key : (xs : List A) → total weight (sort_key key xs) ≡ total weight xs
  unfolding total sort_key
  total-sort_key [] = refl
  total-sort_key (x ∷ xs) = omega (arith, total-place_key x (sort_key key xs), total-sort_key xs)
