-- ===== src/Core/InfoHash.antt =====
-- crates/qvs-core/src/types.rs: `InfoHash`, printed and parsed. The hash is its 20 bytes.
use qvod_player.Prelude.{
  ◌||◌, ℕ, ◌/◌, ◌%◌, ◌≡◌, refl, true, ◌++◌, inl, inr, Bool-cases, Option, none, some, [], ◌∷◌, ◌==◌,
  not, if◌then◌else◌, length, Bytes, IsByte, All, arith, get_or,
}
use qvod_player.Core.Error.{Message, QvodError}
use qvod_player.Core.Outcome.{Outcome, ok, err, panics, ◌>>=◌}
use qvod_player.Core.Hex.{
  hex_chars, hex_encode, from_radix, is_inside, starts_inside, decode_pairs,
  decode_pairs-hex_encode, length-hex_encode,
}

-- `{b:02x}` of each byte
unfoldable pub to_string : Bytes → Bytes
to_string [] = []
to_string (b ∷ bs) = get_or hex_chars (b / 16) 0 ∷ get_or hex_chars (b % 16) 0 ∷ to_string bs

abbrev or_invalid : Option Bytes → Outcome Bytes
or_invalid none = err (QvodError.invalid_uri (Message.with_parse_error "hex decode: "))
or_invalid (some bs) = ok bs

unfoldable pub from_str : Bytes → Outcome Bytes
unfolding decode_pairs
from_str s =
    if not (length s == 40)
    then err (QvodError.invalid_uri (Message.text "info_hash must be 40 hex characters"))
    else decode_pairs s >>= or_invalid

pub to_string-hex_encode : (h : Bytes) → to_string h ≡ hex_encode h
unfolding to_string hex_encode
to_string-hex_encode [] = refl
to_string-hex_encode (b ∷ bs) = rw (to_string-hex_encode bs) refl

pub from_str-to_string : (h : Bytes) → length h ≡ 20 → All IsByte h → from_str (to_string h) ≡ ok h
unfolding from_str
from_str-to_string h len bytes =
    let forty : (length (hex_encode h) == 40) ≡ true = ground (arith, length-hex_encode h, len) in
    rw (to_string-hex_encode h, forty, decode_pairs-hex_encode h bytes) refl

-- Pairs of bytes that are read as numbers, in digits of either case.
abbrev pub ArePairs : Bytes → Type 0
ArePairs [] = Unit
ArePairs (a ∷ []) = ⊥
ArePairs (a ∷ b ∷ s) = ((n : ℕ) × (from_radix a b ≡ some n)) × ArePairs s

-- A character of several bytes that ends behind an even place makes the slice of the next pair panic.
decode_pairs-panics :
    (p : Bytes) (a b c : ℕ) (s : Bytes)
    → ArePairs p
    → is_inside c ≡ true
    → decode_pairs (p ++ a ∷ b ∷ c ∷ s) ≡ panics
unfolding decode_pairs
decode_pairs-panics [] a b c s h inside = elim (Bool-cases (is_inside a)) [
  | inl p ↦ rw p refl
  | inr p ↦ rw (p, inside) refl
]
decode_pairs-panics (x ∷ []) a b c s h inside = elim h [ ]
decode_pairs-panics (x ∷ y ∷ p) a b c s ((n, read), h) inside =
    elim (Bool-cases (is_inside x || starts_inside (p ++ a ∷ b ∷ c ∷ s))) [
      | inl q ↦ rw q refl
      | inr q ↦ rw (q, read, decode_pairs-panics p a b c s h inside) refl
    ]

-- Forty bytes whose pairs are read as numbers, up to a pair behind whose end a character goes on, make the
-- parser panic, where it means to refuse them.
pub from_str-panics :
    (p : Bytes) (a b c : ℕ) (s : Bytes)
    → ArePairs p
    → is_inside c ≡ true
    → length (p ++ a ∷ b ∷ c ∷ s) ≡ 40
    → from_str (p ++ a ∷ b ∷ c ∷ s) ≡ panics
unfolding from_str
from_str-panics p a b c s h inside len =
    let forty : (length (p ++ a ∷ b ∷ c ∷ s) == 40) ≡ true = ground (arith, len) in
    rw (forty, decode_pairs-panics p a b c s h inside) refl
