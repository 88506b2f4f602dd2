-- ===== src/Format/Bencode/Tests.antt =====
-- crates/qvs-format/src/bencode.rs: the decoder on concrete values.
use qvod_player.Prelude.{
  ℕ, ◌≡◌, refl, arith, Bytes, [], ◌∷◌, ◌++◌, length, negsuc, print, ◌≤◌, ◌^◌, ◌+◌,
}
use qvod_player.Core.Outcome.{ok, panics}
use qvod_player.Format.Bencode.Defs.{
  BencodeValue, int, str, list, dict, no_items, item, no_entries, entry, before, encode,
}
use qvod_player.Format.Bencode.Decode.{decode_all}
use qvod_player.Format.Bencode.RoundTrip.{IsValue, decode_all-encode}
use qvod_player.Format.Bencode.Wrap.{decode_all-panics}
use qvod_player.Format.Bencode.Total.{LeavesLess, decode_all-LeavesLess}

-- {"a": [-2], "bc": "xy"}
abbrev value : BencodeValue
value = dict (
    entry (b'a' ∷ []) (list (item (int (negsuc 1)) no_items))
      (entry (b'b' ∷ b'c' ∷ []) (str (b'x' ∷ b'y' ∷ [])) no_entries))

abbrev behind : Bytes
behind = b'z' ∷ []

value-IsValue : IsValue value
unfolding IsValue before
value-IsValue = (omega arith, (omega arith, tt), (refl, tt), (omega arith, omega arith, tt, tt))

decode_all-encode_example : decode_all (encode value ++ behind) ≡ ok (value, behind)
decode_all-encode_example = decode_all-encode value behind value-IsValue

decode_all-LeavesLess_example : LeavesLess 2 (decode_all (b'l' ∷ b'e' ∷ []))
decode_all-LeavesLess_example = decode_all-LeavesLess (b'l' ∷ b'e' ∷ [])

abbrev last_length : ℕ
last_length = 18446744073709551615

last_length_wraps : 2 ^ 64 ≤ length (print last_length) + 1 + last_length
last_length_wraps = omega arith

decode_all-panics_example : decode_all (print last_length ++ b':' ∷ behind) ≡ panics
decode_all-panics_example = decode_all-panics last_length behind (omega arith) last_length_wraps
