-- ===== src/Prelude/Slices.antt =====
-- Laws of `take`, `drop` and `slice`, and of copying a slice over another (`copy_from_slice`).
use Prim.Native.Nat.{ℕ, zero, suc, ◌+◌, ◌-◌, ◌≤◌}
use mathlib.Core.Path.{◌≡◌, refl, sym, ap, ◌∙◌}
use mathlib.Core.List.{List, [], ◌∷◌, ◌++◌, append_assoc}
use native.Mathlib.Omega.{arith}
use qvod_player.Prelude.Lists.{
  length, take, drop, slice, length-append, length-take, length-drop, take-append,
}

-- `dst[at..at + src.len()].copy_from_slice(src)`
abbrev pub overwrite {ℓ} : {A : Type ℓ} → List A → ℕ → List A → List A
overwrite dst at src = take at dst ++ (src ++ drop (at + length src) dst)

module _ {ℓ} {A : Type ℓ} where
  pub take_all : (xs : List A) → take (length xs) xs ≡ xs
  take_all [] = refl
  take_all (x ∷ xs) = ap (λ r. x ∷ r) (take_all xs)

  pub drop-take-append :
      (at : ℕ) (xs ys : List A) → at ≤ length xs → drop at (take at xs ++ ys) ≡ ys
  drop-take-append zero xs ys h = refl
  drop-take-append (suc at) [] ys h = absurd (omega arith)
  drop-take-append (suc at) (x ∷ xs) ys h = drop-take-append at xs ys (omega arith)

  pub take-take-append :
      (z at : ℕ) (xs ys : List A) → z ≤ at → at ≤ length xs → take z (take at xs ++ ys) ≡ take z xs
  take-take-append zero at xs ys h k = refl
  take-take-append (suc z) zero xs ys h k = absurd (omega arith)
  take-take-append (suc z) (suc at) [] ys h k = absurd (omega arith)
  take-take-append (suc z) (suc at) (x ∷ xs) ys h k =
      ap (λ r. x ∷ r) (take-take-append z at xs ys (omega arith) (omega arith))

  take_nil : (n : ℕ) → take {A = A} n [] ≡ []
  take_nil zero = refl
  take_nil (suc n) = refl

  drop_nil : (n : ℕ) → drop {A = A} n [] ≡ []
  drop_nil zero = refl
  drop_nil (suc n) = refl

  pub slice-drop-take : (a z : ℕ) (xs : List A) → slice xs a z ≡ drop a (take z xs)
  slice-drop-take zero z xs = let e : z - 0 ≡ z = omega arith in ap (λ n. take n xs) e
  slice-drop-take (suc a) zero xs =
      let e : 0 - suc a ≡ 0 = omega arith in ap (λ n. take n (drop (suc a) xs)) e
  slice-drop-take (suc a) (suc z) [] = take_nil (suc z - suc a)
  slice-drop-take (suc a) (suc z) (x ∷ xs) =
      let e : suc z - suc a ≡ z - a = omega arith in
      ap (λ n. take n (drop a xs)) e ∙ slice-drop-take a z xs

  pub drop_add-append : (k : ℕ) (xs ys : List A) → drop (length xs + k) (xs ++ ys) ≡ drop k ys
  drop_add-append k [] ys = let e : 0 + k ≡ k = omega arith in ap (λ n. drop n ys) e
  drop_add-append k (x ∷ xs) ys =
      let e : length (x ∷ xs) + k ≡ suc (length xs + k) = omega arith in
      ap (λ n. drop n (x ∷ (xs ++ ys))) e ∙ drop_add-append k xs ys

  pub drop-drop : (k n : ℕ) (xs : List A) → drop k (drop n xs) ≡ drop (n + k) xs
  drop-drop k zero xs = let e : 0 + k ≡ k = omega arith in ap (λ m. drop m xs) (sym e)
  drop-drop k (suc n) [] = drop_nil k ∙ sym (drop_nil (suc n + k))
  drop-drop k (suc n) (x ∷ xs) =
      let e : suc n + k ≡ suc (n + k) = omega arith in
      drop-drop k n xs ∙ ap (λ m. drop m (x ∷ xs)) (sym e)

  pub length-overwrite :
      (dst : List A) (at : ℕ) (src : List A)
      → at + length src ≤ length dst
      → length (overwrite dst at src) ≡ length dst
  length-overwrite dst at src h = omega (
    arith,
    length-append (take at dst) (src ++ drop (at + length src) dst),
    length-append src (drop (at + length src) dst),
    length-take at dst,
    length-drop (at + length src) dst,
  )

  -- The part that was written.
  pub slice-overwrite :
      (dst : List A) (at : ℕ) (src : List A)
      → at ≤ length dst
      → slice (overwrite dst at src) at (at + length src) ≡ src
  slice-overwrite dst at src h =
      let e : at + length src - at ≡ length src = omega arith in
      rw (e, drop-take-append at dst (src ++ drop (at + length src) dst) h, take-append)

  -- A part that ends before it.
  pub slice-overwrite_before :
      (dst : List A) (at : ℕ) (src : List A) (a z : ℕ)
      → z ≤ at
      → at ≤ length dst
      → slice (overwrite dst at src) a z ≡ slice dst a z
  slice-overwrite_before dst at src a z hz h =
      slice-drop-take a z (overwrite dst at src)
      ∙ ap (drop a) (take-take-append z at dst (src ++ drop (at + length src) dst) hz h)
      ∙ sym (slice-drop-take a z dst)

  drop-overwrite :
      (dst : List A) (at : ℕ) (src : List A) (k : ℕ)
      → at ≤ length dst
      → drop (at + length src + k) (overwrite dst at src) ≡ drop (at + length src + k) dst
  drop-overwrite dst at src k h =
      let front = take at dst ++ src in
      let rest = drop (at + length src) dst in
      let e : length front + k ≡ at + length src + k =
        omega (arith, length-append (take at dst) src, length-take at dst) in
      let joined = append_assoc (take at dst) src rest in
      rw (← joined) (rw (← e) (drop_add-append k front rest)) ∙ drop-drop k (at + length src) dst

  -- A part that starts behind it.
  pub slice-overwrite_behind :
      (dst : List A) (at : ℕ) (src : List A) (a z : ℕ)
      → at + length src ≤ a
      → at ≤ length dst
      → slice (overwrite dst at src) a z ≡ slice dst a z
  slice-overwrite_behind dst at src a z ha h =
      let e : at + length src + (a - (at + length src)) ≡ a = omega arith in
      let same = drop-overwrite dst at src (a - (at + length src)) h in
      ap (take (z - a)) (rw e at same)
