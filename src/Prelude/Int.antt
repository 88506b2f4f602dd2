-- ===== src/Prelude/Int.antt =====
-- The integers over the native numbers, the `i64` of the source with its decimal text, and the casts
-- between `i64` and `u64`.
use Prim.Native.Nat.{ℕ, zero, suc, ◌-◌, ◌^◌, ◌<◌}
use mathlib.Core.Path.{◌≡◌, refl, ◌∙◌}
use mathlib.Core.Bool.{true, false}
use mathlib.Core.Option.{Option, none, some, map}
use mathlib.Core.List.{[], ◌∷◌}
use native.Mathlib.Omega.{arith}
use qvod_player.Prelude.Tests.{ltb, ◌==◌, if◌then◌else◌}
use qvod_player.Prelude.Words.{Bytes}
use qvod_player.Prelude.Decimal.{
  print, scan_number, parse_unsigned, parse_unsigned-print, scan_number-print, print-cons, is_digit,
}

-- `negsuc n` is -(n + 1).
pub data ℤ : Type 0 where
  pos : ℕ → ℤ
  negsuc : ℕ → ℤ

abbrev pub IsI64 : ℤ → Type 0
IsI64 (pos n) = n < 2 ^ 63
IsI64 (negsuc n) = n < 2 ^ 63

-- `to_string`
unfoldable pub print_int : ℤ → Bytes
print_int (pos n) = print n
print_int (negsuc n) = b'-' ∷ print (suc n)

abbrev pub negated : ℕ → ℤ
negated zero = pos 0
negated (suc n) = negsuc n

-- `str::parse::<i64>`: a sign or none, and one digit or more.
unfoldable pub parse_i64 : Bytes → Option ℤ
parse_i64 [] = none
parse_i64 (c ∷ s) =
    if c == b'-'
    then map negated (scan_number (2 ^ 63) s)
    else map pos (parse_unsigned (2 ^ 63 - 1) (c ∷ s))

-- `n as i64` of a `u64`, and back.
unfoldable pub to_i64 : ℕ → ℤ
to_i64 n = if ltb n (2 ^ 63) then pos n else negsuc (2 ^ 64 - 1 - n)

unfoldable pub to_u64 : ℤ → ℕ
to_u64 (pos n) = n
to_u64 (negsuc n) = 2 ^ 64 - 1 - n

pub to_u64-to_i64 : (n : ℕ) → n < 2 ^ 64 → to_u64 (to_i64 n) ≡ n
unfolding to_u64 to_i64
to_u64-to_i64 n h = ground arith

pub to_i64-IsI64 : (n : ℕ) → n < 2 ^ 64 → IsI64 (to_i64 n)
unfolding to_i64
to_i64-IsI64 n h = ground arith

parse_i64-digit :
    (c : ℕ) (s : Bytes)
    → is_digit c ≡ true
    → parse_i64 (c ∷ s) ≡ map pos (parse_unsigned (2 ^ 63 - 1) (c ∷ s))
unfolding parse_i64
parse_i64-digit c s h = let other : (c == b'-') ≡ false = ground (arith, h) in rw other refl

-- A printed integer is read back.
pub parse_i64-print_int : (i : ℤ) → IsI64 i → parse_i64 (print_int i) ≡ some i
unfolding print_int
parse_i64-print_int (pos n) h =
    let (c, s, e, d) = print-cons n in
    let read = parse_unsigned-print (2 ^ 63 - 1) n (omega arith) in
    rw e (parse_i64-digit c s d ∙ rw (← e) (rw read refl))
parse_i64-print_int (negsuc n) h =
    unfold parse_i64 in rw (scan_number-print (2 ^ 63) (suc n) (omega arith)) refl
