-- ===== src/Core/Hex.antt =====
-- crates/qvs-core/src/util.rs: `hex_encode` and `hex_decode`. A text is its bytes; a slice of it that cuts
-- a character panics.
use qvod_player.Prelude.{
  ℕ, ◌+◌, ◌-◌, ◌*◌, ◌/◌, ◌%◌, ◌<◌, ◌≡◌, refl, Bool, true, false, ◌&&◌, ◌||◌, Option, none, some, [],
  ◌∷◌, ltb, leb, ◌==◌, not, if◌then◌else◌, length, Bytes, IsByte, All, is_digit, arith, get_or,
  ascii, ◌⊎◌, inl, inr, passes, test_of_passes, ap,
}
use mathlib.Core.Option.{map as map_some}
use qvod_player.Core.Error.{Message}
use qvod_player.Core.Outcome.{Outcome, ok, panics, ◌>>=◌}

-- `HEX_CHARS`
abbrev pub hex_chars : Bytes
hex_chars = ascii "0123456789abcdef"

unfoldable pub hex_encode : Bytes → Bytes
hex_encode [] = []
hex_encode (b ∷ bs) = get_or hex_chars (b / 16) 0 ∷ get_or hex_chars (b % 16) 0 ∷ hex_encode bs

-- `char::to_digit(16)`
unfoldable pub hex_digit : ℕ → Option ℕ
hex_digit c =
    if is_digit c
    then some (c - b'0')
    else if leb b'a' c && leb c b'f'
    then some (c - b'a' + 10)
    else if leb b'A' c && leb c b'F'
    then some (c - b'A' + 10)
    else none

abbrev two_digits : Option ℕ → Option ℕ → Option ℕ
two_digits (some x) (some y) = some (x * 16 + y)
two_digits _ _ = none

-- `u8::from_str_radix(_, 16)` of two bytes: a sign may stand for the first digit.
unfoldable pub from_radix : ℕ → ℕ → Option ℕ
unfolding hex_digit
from_radix a b = if a == b'+' then hex_digit b else two_digits (hex_digit a) (hex_digit b)

-- A byte inside of a character, `!is_char_boundary`.
abbrev pub is_inside : ℕ → Bool
is_inside c = leb 0x80 c && ltb c 0xC0

abbrev pub starts_inside : Bytes → Bool
starts_inside [] = false
starts_inside (c ∷ s) = is_inside c

-- The loop over the pairs of bytes; `none` where a pair is not a number.
unfoldable pub decode_pairs : Bytes → Outcome (Option Bytes)
unfolding from_radix
decode_pairs [] = ok (some [])
decode_pairs (a ∷ []) = panics
decode_pairs (a ∷ b ∷ s) =
    let rest = decode_pairs s in
    if is_inside a || starts_inside s then panics else elim (from_radix a b) [
      | none ↦ ok none
      | some n ↦ rest >>= λ ns. ok (map_some (λ ms. n ∷ ms) ns)
    ]

abbrev pub or_message : Option Bytes → Message ⊎ Bytes
or_message none = inl (Message.with_parse_error "")
or_message (some bs) = inr bs

-- The error is a text, not a QvodError.
unfoldable pub hex_decode : Bytes → Outcome (Message ⊎ Bytes)
unfolding decode_pairs
hex_decode s =
    if not (length s % 2 == 0)
    then ok (inl (Message.text "hex string must have even length"))
    else decode_pairs s >>= λ bs. ok (or_message bs)

-- The two digits of a byte, read back.
abbrev is_read : Option ℕ → ℕ → ℕ → Bool
is_read none hi b = false
is_read (some n) hi b = n == b && ltb hi 0x80

abbrev digits_read : ℕ → Bool
digits_read b =
    let hi = get_or hex_chars (b / 16) 0 in
    is_read (from_radix hi (get_or hex_chars (b % 16) 0)) hi b

table : passes (λ b. digits_read b) 256 ≡ true
unfolding passes from_radix
table = refl

some-is_read :
    (o : Option ℕ) (hi b : ℕ) → is_read o hi b ≡ true → (o ≡ some b) × (is_inside hi ≡ false)
some-is_read none hi b h = cc
some-is_read (some n) hi b h =
    let same : n ≡ b = ground (arith, h) in (ap some same, ground (arith, h))

pub digits_are_read :
    (b : ℕ)
    → IsByte b
    → (from_radix (get_or hex_chars (b / 16) 0) (get_or hex_chars (b % 16) 0) ≡ some b)
      × (is_inside (get_or hex_chars (b / 16) 0) ≡ false)
digits_are_read b lt = some-is_read _ _ b (test_of_passes _ 256 table b lt)

starts_inside-hex_encode : (bs : Bytes) → All IsByte bs → starts_inside (hex_encode bs) ≡ false
unfolding hex_encode
starts_inside-hex_encode [] h = refl
starts_inside-hex_encode (b ∷ bs) (lt, h) = (digits_are_read b lt).1

-- The digits of some bytes are read back.
pub decode_pairs-hex_encode :
    (bs : Bytes) → All IsByte bs → decode_pairs (hex_encode bs) ≡ ok (some bs)
unfolding decode_pairs hex_encode
decode_pairs-hex_encode [] h = refl
decode_pairs-hex_encode (b ∷ bs) (lt, h) =
    let (read, start) = digits_are_read b lt in
    rw (start, starts_inside-hex_encode bs h, read, decode_pairs-hex_encode bs h) refl

pub length-hex_encode : (bs : Bytes) → length (hex_encode bs) ≡ 2 * length bs
unfolding hex_encode
length-hex_encode [] = omega arith
length-hex_encode (b ∷ bs) = omega (arith, length-hex_encode bs)

-- Bytes are read back from their digits.
pub hex_decode-hex_encode : (bs : Bytes) → All IsByte bs → hex_decode (hex_encode bs) ≡ ok (inr bs)
unfolding hex_decode
hex_decode-hex_encode bs h =
    let even : (length (hex_encode bs) % 2 == 0) ≡ true = ground (arith, length-hex_encode bs) in
    rw (even, decode_pairs-hex_encode bs h) refl

-- No digit is behind `f`.
hex_chars_low : passes (λ d. ltb (get_or hex_chars d 0) 0x67) 16 ≡ true
unfolding passes
hex_chars_low = refl

hex_char_lt : (d : ℕ) → d < 16 → get_or hex_chars d 0 < 0x67
hex_char_lt d lt = let low = test_of_passes _ 16 hex_chars_low d lt in ground (arith, low)

pub All-hex_encode : (bs : Bytes) → All IsByte bs → All (λ c. c < 0x67) (hex_encode bs)
unfolding hex_encode
All-hex_encode [] h = tt
All-hex_encode (b ∷ bs) (lt, h) =
    (hex_char_lt (b / 16) (omega arith), (hex_char_lt (b % 16) (omega arith), All-hex_encode bs h))
