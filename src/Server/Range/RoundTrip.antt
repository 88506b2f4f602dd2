-- ===== src/Server/Range/RoundTrip.antt =====
-- A header that is written out from two numbers.
use qvod_player.Prelude.{
  ℕ, ◌-◌, ◌<◌, ◌^◌, ◌≡◌, refl, min, true, false, some, List, [], ◌∷◌, ◌++◌, ◌==◌, Bytes, arith, All,
  print, parse_unsigned-print, Digits, Digits-print, print-cons, is_digit, ascii, strip_prefix,
  strip_prefix-append, split, split_front,
}
use qvod_player.Server.Range.Defs.{
  RangeResult, range, is_empty, is_whitespace, split_once, trim, trim_start, trim_end, parse_bounds,
  parse_range, parse_parts, parse,
}

-- Neither a comma nor white space.
abbrev IsPlain : ℕ → Type 0
IsPlain c = ((c == b',') ≡ false) × (is_whitespace c ≡ false)

digit-IsPlain : (c : ℕ) → is_digit c ≡ true → IsPlain c
digit-IsPlain c h = (ground (arith, h), ground (arith, h))

IsPlain-Digits : (xs : Bytes) → Digits xs → All IsPlain xs
IsPlain-Digits [] h = tt
IsPlain-Digits (c ∷ xs) h = (digit-IsPlain c h.0, IsPlain-Digits xs h.1)

All-append {ℓ κ} :
    {A : Type ℓ} (P : A → Type κ) (xs ys : List A) → All P xs → All P ys → All P (xs ++ ys)
All-append P [] ys h k = k
All-append P (x ∷ xs) ys h k = (h.0, All-append P xs ys h.1 k)

split-IsPlain : (s : Bytes) → All IsPlain s → split b',' s ≡ s ∷ []
unfolding split split_front
split-IsPlain [] h = refl
split-IsPlain (c ∷ s) h = rw (h.0.0, split-IsPlain s h.1) refl

trim_end-IsPlain : (s : Bytes) → All IsPlain s → trim_end s ≡ s
unfolding trim_end
trim_end-IsPlain [] h = refl
trim_end-IsPlain (c ∷ s) h = rw (h.0.1, trim_end-IsPlain s h.1) refl

trim-IsPlain : (s : Bytes) → All IsPlain s → trim s ≡ s
unfolding trim trim_start
trim-IsPlain [] h = trim_end-IsPlain [] h
trim-IsPlain (c ∷ s) h = rw h.0.1 (trim_end-IsPlain (c ∷ s) h)

split_once-append : (xs ys : Bytes) → Digits xs → split_once b'-' (xs ++ b'-' ∷ ys) ≡ some (xs, ys)
unfolding split_once
split_once-append [] ys h = refl
split_once-append (c ∷ xs) ys h =
    let other : (c == b'-') ≡ false = ground (arith, h.0) in
    rw (other, split_once-append xs ys h.1) refl

is_empty-print : (n : ℕ) → is_empty (print n) ≡ false
is_empty-print n = let (c, s, e, _) = print-cons n in rw e refl

abbrev pub bounds_text : ℕ → ℕ → Bytes
bounds_text a b = print a ++ b'-' ∷ print b

parse_bounds-print :
    (a b total : ℕ)
    → a < 2 ^ 64
    → b < 2 ^ 64
    → parse_bounds (print a) (print b) total ≡ some (range a (min b (total - 1)) total)
unfolding parse_bounds
parse_bounds-print a b total ha hb =
    let pa = parse_unsigned-print (2 ^ 64 - 1) a (omega arith) in
    let pb = parse_unsigned-print (2 ^ 64 - 1) b (omega arith) in
    rw (parse_bounds, pa, is_empty-print b, pb) refl

parse_range-bounds_text :
    (a b total : ℕ)
    → 0 < total
    → a < 2 ^ 64
    → b < 2 ^ 64
    → parse_range (bounds_text a b) total ≡ some (range a (min b (total - 1)) total)
unfolding parse_range
parse_range-bounds_text a b total pos ha hb =
    let some_file : (total == 0) ≡ false = ground (arith, pos) in
    rw
      (
        parse_range,
        some_file,
        split_once-append (print a) (print b) (Digits-print a),
        is_empty-print a,
      )
      (parse_bounds-print a b total ha hb)

-- One range that has no comma and no white space.
parse-IsPlain :
    (header specs : Bytes) (total : ℕ) (r : RangeResult)
    → strip_prefix (ascii "bytes=") header ≡ some specs
    → All IsPlain specs
    → parse_range specs total ≡ some r
    → parse header total ≡ some (record { ranges = r ∷ [] })
unfolding parse parse_parts
parse-IsPlain header specs total r stripped plain h =
    rw (parse, stripped, split-IsPlain specs plain, parse_parts, trim-IsPlain specs plain, h) refl

bounds_text-IsPlain : (a b : ℕ) → All IsPlain (bounds_text a b)
bounds_text-IsPlain a b =
    All-append IsPlain (print a) (b'-' ∷ print b) (IsPlain-Digits (print a) (Digits-print a))
      ((refl, refl), IsPlain-Digits (print b) (Digits-print b))

-- The header with the printed bounds of one range, for a file that is not empty and bounds that fit 64 bits,
-- is read as that range, its end cut to the last byte of the file and its start as it is, even one behind
-- the end of the file.
pub parse-bounds_text :
    (a b total : ℕ)
    → 0 < total
    → a < 2 ^ 64
    → b < 2 ^ 64
    → parse (ascii "bytes=" ++ bounds_text a b) total
      ≡ some (record { ranges = range a (min b (total - 1)) total ∷ [] })
parse-bounds_text a b total pos ha hb =
    parse-IsPlain (ascii "bytes=" ++ bounds_text a b) (bounds_text a b) total
      (range a (min b (total - 1)) total) (strip_prefix-append (ascii "bytes=") (bounds_text a b))
      (bounds_text-IsPlain a b) (parse_range-bounds_text a b total pos ha hb)
