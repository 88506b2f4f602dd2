-- ===== src/Format/Bencode/Decode.antt =====
-- crates/qvs-format/src/bencode.rs: the decoder.
use qvod_player.Prelude.{
  ℕ, zero, suc, ◌+◌, ◌*◌, ◌^◌, Option, none, some, [], ◌∷◌, ltb, leb, ◌==◌, if◌then◌else◌, length,
  take, drop, Bytes, is_digit, is_utf8, parse_i64, parse_u64,
}
use qvod_player.Core.Error.{Message}
use qvod_player.Core.Outcome.{Outcome, ok, panics, out_of_fuel, ◌>>=◌}
use qvod_player.Format.Bencode.Outcome.{or_err, fail}
use qvod_player.Format.Bencode.Defs.{
  BencodeValue, Items, Entries, int, str, list, dict, no_items, item, no_entries, insert,
}

-- `iter().position(|&b| b == c)`
unfoldable pub position : ℕ → Bytes → Option ℕ
position c [] = none
position c (b ∷ bs) =
    if b == c then some 0 else elim (position c bs) [ none ↦ none | some n ↦ some (suc n) ]

unfoldable pub utf8 : Bytes → Option Bytes
utf8 s = if is_utf8 s then some s else none

-- Behind the `i`.
unfoldable pub decode_int : Bytes → Outcome (BencodeValue × Bytes)
unfolding position utf8
decode_int bs = or_err (position b'e' bs) (Message.text "unterminated integer") >>= λ end.
    or_err (utf8 (take end bs)) (Message.text "invalid integer utf-8") >>= λ text.
    or_err (parse_i64 text) (Message.with_parse_error "invalid integer: ") >>= λ val.
    ok (int val, drop (end + 1) bs)

-- The slices of `decode_str`. An end that wraps around stands before the start, and the slice panics.
unfoldable pub cut_str : Bytes → ℕ → ℕ → Outcome (Bytes × Bytes)
cut_str bs start len =
    if leb (2 ^ 64) (start + len)
    then panics
    else if ltb (length bs) (start + len)
    then fail (Message.text "string data truncated")
    else ok (take len (drop start bs), drop (start + len) bs)

unfoldable pub decode_str : Bytes → Outcome (Bytes × Bytes)
unfolding position utf8 cut_str
decode_str bs = or_err (position b':' bs) (Message.text "unterminated string length") >>= λ colon.
    or_err (utf8 (take colon bs)) (Message.text "invalid string length utf-8") >>= λ text.
    or_err (parse_u64 text) (Message.with_parse_error "invalid string length: ") >>= λ len.
    cut_str bs (colon + 1) len

unfoldable mutual
  pub decode : ℕ → Bytes → Outcome (BencodeValue × Bytes)
  decode zero bs = out_of_fuel
  decode (suc f) [] = fail (Message.text "empty data")
  decode (suc f) (c ∷ bs) =
      let as_int = decode_int bs in
      let as_str = decode_str (c ∷ bs) >>= λ (s, rest). ok (str s, rest) in
      let as_list = decode_items f bs >>= λ (items, rest). ok (list items, rest) in
      let as_dict = decode_entries f no_entries bs >>= λ (entries, rest). ok (dict entries, rest) in
      if c == b'i'
      then as_int
      else if is_digit c
      then as_str
      else if c == b'l'
      then as_list
      else if c == b'd'
      then as_dict
      else fail (Message.with_number "unexpected byte: 0x" c)

  -- The loop of `decode_list`.
  pub decode_items : ℕ → Bytes → Outcome (Items × Bytes)
  decode_items zero bs = out_of_fuel
  decode_items (suc f) [] = fail (Message.text "unterminated list")
  decode_items (suc f) (c ∷ bs) =
      let more = decode f (c ∷ bs) >>= λ (v, rest).
      decode_items f rest >>= λ (items, rest'). ok (item v items, rest') in
      if c == b'e' then ok (no_items, bs) else more

  -- The loop of `decode_dict`, with the entries that are in the map.
  pub decode_entries : ℕ → Entries → Bytes → Outcome (Entries × Bytes)
  decode_entries zero kept bs = out_of_fuel
  decode_entries (suc f) kept [] = fail (Message.text "unterminated dict")
  decode_entries (suc f) kept (c ∷ bs) =
      let more = decode_str (c ∷ bs) >>= λ (key, rest).
      decode f rest >>= λ (v, rest'). decode_entries f (insert key v kept) rest' in
      if c == b'e' then ok (kept, bs) else more

-- The decoder, with fuel that is enough for any input.
unfoldable pub decode_all : Bytes → Outcome (BencodeValue × Bytes)
decode_all bs = decode (2 * length bs + 1) bs
