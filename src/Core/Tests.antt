-- ===== src/Core/Tests.antt =====
-- The theorems on the shared data structures at concrete inputs.
use qvod_player.Prelude.{
  Bytes, ascii, pos, is_utf8, parse_i64, parse_unsigned, ◌≡◌, refl, true, false, [], ◌∷◌, arith,
  ◌==◌, if◌then◌else◌, ◌++◌, replicate,
}
use qvod_player.Core.Outcome.{panics, ok}
use qvod_player.Format.Bencode.Defs.{BencodeValue, dict, entry, int, no_entries, insert}
use qvod_player.Format.Bencode.Decode.{decode, position, utf8}
use qvod_player.Core.SimpleBencode.{simple_decode, simple_int, simple_str, simple_cut}
use qvod_player.Core.SimpleBencode.Agrees.{decode-simple_decode}
use qvod_player.Core.Hex.{from_radix}
use qvod_player.Core.InfoHash.{from_str, from_str-panics}
use qvod_player.Core.Bitfield.Bits
use qvod_player.Core.Bitfield.Defs.{Bitfield, IsValid, has, set_piece}
use qvod_player.Core.Bitfield.Update.{has-set_piece}

abbrev ten : Bitfield
ten = record { bytes = 0x81 ∷ 0x40 ∷ []; num_pieces = 10 }

ten-IsValid : IsValid ten
ten-IsValid = record { sized = refl; bytes_ok = omega arith }

ten_holds : (has ten 0 ≡ true) × (has ten 7 ≡ true) × (has ten 8 ≡ false) × (has ten 9 ≡ true)
unfolding has Bits.has_bit
ten_holds = (refl, refl, refl, refl)

has-set_piece_example : has (set_piece ten 8 true) 9 ≡ (if 8 == 9 then true else has ten 9)
has-set_piece_example = has-set_piece ten 8 9 true ten-IsValid (omega arith)

-- Two pairs in digits of either case, a pair whose last byte starts a character, and the rest of it.
abbrev mixed_pairs : Bytes
mixed_pairs = ascii "aBFf"

abbrev cut_tail : Bytes
cut_tail = replicate 33 b'0'

from_str-panics_example : from_str (mixed_pairs ++ b'0' ∷ 0xC3 ∷ 0xA9 ∷ cut_tail) ≡ panics
from_str-panics_example =
    from_str-panics mixed_pairs b'0' 0xC3 0xA9 cut_tail
      (unfold from_radix in ((_, refl), ((_, refl), tt))) refl refl

-- d2:abi7ee, and a byte behind it.
abbrev dict_bytes : Bytes
dict_bytes = ascii "d2:abi7eex"

abbrev dict_value : BencodeValue
dict_value = dict (entry (ascii "ab") (int (pos 7)) no_entries)

decode-simple_decode_example : decode 21 dict_bytes ≡ ok (dict_value, ascii "x")
decode-simple_decode_example = decode-simple_decode 21 dict_bytes dict_value (ascii "x") (
    unfold simple_decode simple_int simple_str simple_cut position utf8 is_utf8 parse_i64
      parse_unsigned insert in
    refl)
