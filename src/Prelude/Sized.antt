-- ===== src/Prelude/Sized.antt =====
-- Parts of a buffer whose front has a known length.
use Prim.Native.Nat.{ℕ, suc, ◌+◌}
use mathlib.Core.Path.{◌≡◌, ap, ◌∙◌}
use mathlib.Core.List.{List, [], ◌∷◌, ◌++◌}
use native.Mathlib.Omega.{arith}
use qvod_player.Prelude.Lists.{length, get_or, take, drop, take-append, drop-append}
use qvod_player.Prelude.Slices.{drop_add-append, take_all}

module _ {ℓ} {A : Type ℓ} where
  pub take_sized : (n : ℕ) (xs ys : List A) → length xs ≡ n → take n (xs ++ ys) ≡ xs
  take_sized n xs ys e = rw (← e) (take-append xs ys)

  pub drop_sized : (n : ℕ) (xs ys : List A) → length xs ≡ n → drop n (xs ++ ys) ≡ ys
  drop_sized n xs ys e = rw (← e) (drop-append xs ys)

  pub drop_past :
      (n k m : ℕ) (xs ys : List A) → length xs ≡ n → n + k ≡ m → drop m (xs ++ ys) ≡ drop k ys
  drop_past n k m xs ys e s = rw (← s, ← e) (drop_add-append k xs ys)

  get_or_add-append :
      (k : ℕ) (xs ys : List A) (d : A) → get_or (xs ++ ys) (length xs + k) d ≡ get_or ys k d
  get_or_add-append k [] ys d = let e : 0 + k ≡ k = omega arith in ap (λ n. get_or ys n d) e
  get_or_add-append k (x ∷ xs) ys d =
      let e : length (x ∷ xs) + k ≡ suc (length xs + k) = omega arith in
      ap (λ n. get_or (x ∷ (xs ++ ys)) n d) e ∙ get_or_add-append k xs ys d

  pub get_or_past :
      (n k m : ℕ) (xs ys : List A) (d : A)
      → length xs ≡ n
      → n + k ≡ m
      → get_or (xs ++ ys) m d ≡ get_or ys k d
  get_or_past n k m xs ys d e s = rw (← s, ← e) (get_or_add-append k xs ys d)

  pub take_exact : (n : ℕ) (xs : List A) → length xs ≡ n → take n xs ≡ xs
  take_exact n xs e = rw (← e) (take_all xs)
