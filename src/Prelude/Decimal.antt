-- ===== src/Prelude/Decimal.antt =====
-- Decimal numbers as ASCII bytes: `to_string`, and `str::parse` into `u64`.
use Prim.Native.Nat.{ℕ, zero, suc, ◌+◌, ◌-◌, ◌*◌, ◌/◌, ◌%◌, ◌^◌, ◌≤◌, ◌<◌}
use mathlib.Core.Path.{◌≡◌, refl, ◌∙◌}
use mathlib.Core.Logic.{inl, inr}
use mathlib.Core.Bool.{Bool, true, false, ◌&&◌, not}
use mathlib.Core.Option.{Option, none, some}
use mathlib.Core.List.{[], ◌∷◌, ◌++◌}
use native.Mathlib.Omega.{arith}
use native.Mathlib.Decide.{dec_lt}
use qvod_player.Prelude.Tests.{ltb, leb, ◌==◌, if◌then◌else◌, Bool-cases}
use qvod_player.Prelude.Lists.{All, length, length-append}
use qvod_player.Prelude.Words.{Bytes}

abbrev pub is_digit : ℕ → Bool
is_digit c = leb b'0' c && leb c b'9'

-- The digits, last one first taken off; the fuel bounds their number.
unfoldable pub print_fuel : ℕ → ℕ → Bytes
print_fuel zero n = []
print_fuel (suc f) n =
    let front = print_fuel f (n / 10) in
    if ltb n 10 then (b'0' + n) ∷ [] else front ++ (b'0' + n % 10) ∷ []

unfoldable pub print : ℕ → Bytes
unfolding print_fuel
print n = print_fuel (suc n) n

-- The digits of a number up to `bound`, read behind `acc`.
unfoldable pub scan_digits : ℕ → ℕ → Bytes → Option ℕ
scan_digits bound acc [] = some acc
scan_digits bound acc (c ∷ s) =
    let v = acc * 10 + (c - b'0') in
    let rest = scan_digits bound v s in
    if not (is_digit c) then none else if ltb bound v then none else rest

unfoldable pub scan_number : ℕ → Bytes → Option ℕ
unfolding scan_digits
scan_number bound [] = none
scan_number bound (c ∷ s) = scan_digits bound 0 (c ∷ s)

-- An optional plus sign, and one digit or more.
unfoldable pub parse_unsigned : ℕ → Bytes → Option ℕ
unfolding scan_number
parse_unsigned bound [] = none
parse_unsigned bound (c ∷ s) = if c == b'+' then scan_number bound s else scan_number bound (c ∷ s)

abbrev pub parse_u64 : Bytes → Option ℕ
parse_u64 = parse_unsigned (2 ^ 64 - 1)

scan_digits-snoc :
    (bound acc v d : ℕ) (xs : Bytes)
    → scan_digits bound acc xs ≡ some v
    → d < 10
    → v * 10 + d ≤ bound
    → scan_digits bound acc (xs ++ (b'0' + d) ∷ []) ≡ some (v * 10 + d)
unfolding scan_digits
scan_digits-snoc bound acc v d [] h hd hb =
    let e : b'0' + d - b'0' ≡ d = omega arith in ground (arith, e)
scan_digits-snoc bound acc v d (c ∷ xs) h hd hb =
    ground (arith, scan_digits-snoc bound (acc * 10 + (c - b'0')) v d xs)

scan_digits-print_fuel :
    (f bound n : ℕ) → n < f → n ≤ bound → scan_digits bound 0 (print_fuel f n) ≡ some n
unfolding print_fuel
scan_digits-print_fuel zero bound n h hb = absurd (omega arith)
scan_digits-print_fuel (suc f) bound n h hb = elim (dec_lt n 10) [
  | yes p ↦
      ground
        (arith, p, scan_digits-snoc bound 0 0 n [] (unfold scan_digits in refl) p (omega arith))
  | no p ↦
      let front = scan_digits-print_fuel f bound (n / 10) (omega arith) (omega arith) in
      let whole : n / 10 * 10 + n % 10 ≡ n = omega arith in
      let last =
        scan_digits-snoc bound 0 (n / 10) (n % 10) (print_fuel f (n / 10)) front (omega arith)
          (omega arith) in
      ground (arith, p, last, whole)
]

-- The first byte of a printed number is a digit.
abbrev pub StartsWithDigit : Bytes → Type 0
StartsWithDigit [] = ⊥
StartsWithDigit (c ∷ s) = is_digit c ≡ true

-- What a printed number is made of.
abbrev pub Digits : Bytes → Type 0
Digits = All (λ c. is_digit c ≡ true)

Digits-snoc : (xs : Bytes) (d : ℕ) → Digits xs → d < 10 → Digits (xs ++ (b'0' + d) ∷ [])
Digits-snoc [] d h lt = (ground arith, tt)
Digits-snoc (c ∷ xs) d h lt = (h.0, Digits-snoc xs d h.1 lt)

StartsWithDigit-snoc :
    (xs : Bytes) (d : ℕ) → Digits xs → d < 10 → StartsWithDigit (xs ++ (b'0' + d) ∷ [])
StartsWithDigit-snoc [] d h lt = ground arith
StartsWithDigit-snoc (c ∷ xs) d h lt = h.0

Digits-print_fuel : (f n : ℕ) → Digits (print_fuel f n)
unfolding print_fuel
Digits-print_fuel zero n = tt
Digits-print_fuel (suc f) n = elim (Bool-cases (ltb n 10)) [
  | inl p ↦ let lt : n < 10 = ground (arith, p) in rw p (Digits-snoc [] n tt lt)
  | inr p ↦
      rw p
        (Digits-snoc (print_fuel f (n / 10)) (n % 10) (Digits-print_fuel f (n / 10)) (omega arith))
]

pub Digits-print : (n : ℕ) → Digits (print n)
unfolding print
Digits-print n = Digits-print_fuel (suc n) n

StartsWithDigit-print : (n : ℕ) → StartsWithDigit (print n)
unfolding print print_fuel
StartsWithDigit-print n = elim (Bool-cases (ltb n 10)) [
  | inl p ↦ let lt : n < 10 = ground (arith, p) in rw p (StartsWithDigit-snoc [] n tt lt)
  | inr p ↦ rw p (
      StartsWithDigit-snoc (print_fuel n (n / 10)) (n % 10) (Digits-print_fuel n (n / 10))
        (omega arith))
]

parse_unsigned-scan :
    (bound : ℕ) (xs : Bytes) → StartsWithDigit xs → parse_unsigned bound xs ≡ scan_digits bound 0 xs
unfolding parse_unsigned scan_number
parse_unsigned-scan bound [] h = elim h [ ]
parse_unsigned-scan bound (c ∷ xs) h =
    let no_plus : (c == b'+') ≡ false = ground (arith, h) in rw no_plus refl

-- A printed number is read back.
pub parse_unsigned-print : (bound n : ℕ) → n ≤ bound → parse_unsigned bound (print n) ≡ some n
unfolding print
parse_unsigned-print bound n h =
    parse_unsigned-scan bound (print n) (StartsWithDigit-print n)
    ∙ scan_digits-print_fuel (suc n) bound n (omega arith) h

-- A printed number is not empty.
pub print-cons : (n : ℕ) → (c : ℕ) × (s : Bytes) × (print n ≡ c ∷ s) × (is_digit c ≡ true)
print-cons n = starts (print n) (StartsWithDigit-print n)
  where
    starts :
        (xs : Bytes)
        → StartsWithDigit xs
        → (c : ℕ) × (s : Bytes) × (xs ≡ c ∷ s) × (is_digit c ≡ true)
    starts [] h = elim h [ ]
    starts (c ∷ s) h = (c, s, refl, h)

scan_number-scan :
    (bound : ℕ) (xs : Bytes) → StartsWithDigit xs → scan_number bound xs ≡ scan_digits bound 0 xs
unfolding scan_number
scan_number-scan bound [] h = elim h [ ]
scan_number-scan bound (c ∷ xs) h = refl

pub scan_number-print : (bound n : ℕ) → n ≤ bound → scan_number bound (print n) ≡ some n
unfolding print
scan_number-print bound n h =
    scan_number-scan bound (print n) (StartsWithDigit-print n)
    ∙ scan_digits-print_fuel (suc n) bound n (omega arith) h

length-print_fuel : (f n : ℕ) → length (print_fuel f n) ≤ n / 10 + 1
unfolding print_fuel
length-print_fuel zero n = omega arith
length-print_fuel (suc f) n = elim (Bool-cases (ltb n 10)) [
  | inl p ↦ rw p (omega arith)
  | inr p ↦
      let big : 10 ≤ n = ground (arith, p) in
      rw (p, length-append (print_fuel f (n / 10)) ((b'0' + n % 10) ∷ []))
        (omega (arith, length-print_fuel f (n / 10), big))
]

-- A printed number is short.
pub length-print : (n : ℕ) → length (print n) ≤ n / 10 + 1
unfolding print
length-print n = length-print_fuel (suc n) n
