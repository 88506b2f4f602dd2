-- ===== src/Format/Bencode/Text.antt =====
-- crates/qvs-format/src/bencode.rs: what the decoder finds in the text of a number and of a string.
use qvod_player.Prelude.{
  ℕ, suc, ◌+◌, ◌-◌, ◌^◌, ◌<◌, ◌≡◌, refl, ◌∙◌, false, some, [], ◌∷◌, ◌++◌, ltb, leb, ◌==◌, length,
  arith, Bytes, All, Digits, Digits-print, print, is_utf8-ascii, parse_unsigned-print, take-append,
  drop_past, append_assoc, ℤ, pos, negsuc, IsI64, print_int, parse_i64-print_int, length-append,
  length-print, drop-append,
}
use qvod_player.Core.Outcome.{ok}
use qvod_player.Format.Bencode.Defs.{int, encode_str}
use qvod_player.Format.Bencode.Decode.{position, utf8, decode_int, cut_str, decode_str}

-- Digits hold neither mark, and are ASCII.
position-Digits :
    (c : ℕ) (xs ys : Bytes) → b'9' < c → Digits xs → position c (xs ++ c ∷ ys) ≡ some (length xs)
unfolding position
position-Digits c [] ys lt h = ground arith
position-Digits c (x ∷ xs) ys lt (d, h) =
    let other : (x == c) ≡ false = ground (arith, d) in
    rw (other, position-Digits c xs ys lt h) refl

ascii-Digits : (xs : Bytes) → Digits xs → All (λ c. c < 0x80) xs
ascii-Digits [] h = tt
ascii-Digits (x ∷ xs) (d, h) = (ground (arith, d), ascii-Digits xs h)

utf8-ascii : (xs : Bytes) → All (λ c. c < 0x80) xs → utf8 xs ≡ some xs
unfolding utf8
utf8-ascii xs h = rw (is_utf8-ascii xs h) refl

position-print_int :
    (i : ℤ) (ys : Bytes) → position b'e' (print_int i ++ b'e' ∷ ys) ≡ some (length (print_int i))
unfolding print_int position
position-print_int (pos n) ys = position-Digits b'e' (print n) ys (omega arith) (Digits-print n)
position-print_int (negsuc n) ys =
    rw (position-Digits b'e' (print (suc n)) ys (omega arith) (Digits-print (suc n))) refl

ascii-print_int : (i : ℤ) → All (λ c. c < 0x80) (print_int i)
unfolding print_int
ascii-print_int (pos n) = ascii-Digits (print n) (Digits-print n)
ascii-print_int (negsuc n) = (omega arith, ascii-Digits (print (suc n)) (Digits-print (suc n)))

-- The text of an integer up to its `e` is read.
pub decode_int-print_int :
    (i : ℤ) (rest : Bytes) → IsI64 i → decode_int (print_int i ++ b'e' ∷ rest) ≡ ok (int i, rest)
unfolding decode_int
decode_int-print_int i rest h =
    rw
      (
        position-print_int i rest,
        take-append (print_int i) (b'e' ∷ rest),
        utf8-ascii (print_int i) (ascii-print_int i),
        parse_i64-print_int i h,
        drop_past (length (print_int i)) 1 (length (print_int i) + 1) (print_int i) (b'e' ∷ rest)
            refl refl,
      )
      refl

cut_str-append :
    (xs s rest : Bytes)
    → length xs + 1 + length s < 2 ^ 64
    → cut_str (xs ++ b':' ∷ (s ++ rest)) (length xs + 1) (length s) ≡ ok (s, rest)
unfolding cut_str
cut_str-append xs s rest h =
    let whole : length (xs ++ b':' ∷ (s ++ rest)) ≡ length xs + (1 + (length s + length rest)) =
      omega (arith, length-append xs (b':' ∷ (s ++ rest)), length-append s rest) in
    let fits : leb (2 ^ 64) (length xs + 1 + length s) ≡ false = ground (arith, h) in
    let there : ltb (length (xs ++ b':' ∷ (s ++ rest))) (length xs + 1 + length s) ≡ false =
      ground (arith, whole) in
    rw
      (
        fits,
        there,
        drop_past (length xs) 1 (length xs + 1) xs (b':' ∷ (s ++ rest)) refl refl,
        take-append s rest,
        drop_past (length xs) (suc (length s)) (length xs + 1 + length s) xs (b':' ∷ (s ++ rest))
            refl (omega arith),
        drop-append s rest,
      )
      refl

-- A length and a colon are read.
pub decode_str-print :
    (n : ℕ) (rest : Bytes)
    → n < 2 ^ 64
    → decode_str (print n ++ b':' ∷ rest)
      ≡ cut_str (print n ++ b':' ∷ rest) (length (print n) + 1) n
unfolding decode_str
decode_str-print n rest h =
    rw
      (
        position-Digits b':' (print n) rest (omega arith) (Digits-print n),
        take-append (print n) (b':' ∷ rest),
        utf8-ascii (print n) (ascii-Digits (print n) (Digits-print n)),
        parse_unsigned-print (2 ^ 64 - 1) n (omega arith),
      )
      refl

pub decode_str-encode_str :
    (s rest : Bytes) → length s < 2 ^ 63 → decode_str (encode_str s ++ rest) ≡ ok (s, rest)
unfolding encode_str
decode_str-encode_str s rest h =
    let len = length-print (length s) in
    rw (append_assoc (print (length s)) (b':' ∷ s) rest) (
      decode_str-print (length s) (s ++ rest) (omega arith)
      ∙ cut_str-append (print (length s)) s rest (omega (arith, len)))
