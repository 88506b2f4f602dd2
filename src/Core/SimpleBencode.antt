-- ===== src/Core/SimpleBencode.antt =====
-- crates/qvs-core/src/util.rs: the second Bencode decoder, and the peers of a tracker. Its enum has the
-- variants of `BencodeValue`, and is modelled by the same type.
pub mod Agrees
use qvod_player.Prelude.{
  ℕ, zero, suc, ◌+◌, ◌*◌, ◌/◌, ◌^◌, Bool, true, false, Option, none, some, List, [], ◌∷◌, ltb, leb,
  ◌==◌, if◌then◌else◌, length, take, drop, get_or, Bytes, is_digit, parse_i64, parse_u64, from_be16,
  ascii, ℤ, pos, negsuc,
}
use qvod_player.Core.Error.{Message}
use qvod_player.Format.Bencode.Defs.{
  BencodeValue, Items, Entries, int, str, list, dict, no_items, item, no_entries, entry, insert,
  get, as_dict, as_int, as_str_bytes,
}
use qvod_player.Format.Bencode.Decode.{position, utf8}

abbrev pub SimpleBencode : Type 0
SimpleBencode = BencodeValue

-- The error is a text.
pub data Parsed {ℓ} (A : Type ℓ) : Type ℓ where
  parsed : A → Parsed A
  fails : Message → Parsed A
  panics : Parsed A
  out_of_fuel : Parsed A

infixl 5 ◌>>=◌
abbrev pub ◌>>=◌ {ℓ κ} : {A : Type ℓ} {B : Type κ} → Parsed A → (A → Parsed B) → Parsed B
parsed a >>= f = f a
fails m >>= f = fails m
panics >>= f = panics
out_of_fuel >>= f = out_of_fuel

abbrev pub ok_or {ℓ} : {A : Type ℓ} → Option A → Message → Parsed A
ok_or none m = fails m
ok_or (some a) m = parsed a

-- Behind the `i`.
unfoldable pub simple_int : Bytes → Parsed (SimpleBencode × Bytes)
unfolding position utf8
simple_int bs = ok_or (position b'e' bs) (Message.text "unterminated int") >>= λ end.
    ok_or (utf8 (take end bs)) (Message.text "invalid int") >>= λ text.
    ok_or (parse_i64 text) (Message.text "bad int") >>= λ val. parsed (int val, drop (end + 1) bs)

-- As in the other decoder, a slice whose end wraps around panics.
unfoldable pub simple_cut : Bytes → ℕ → ℕ → Parsed (Bytes × Bytes)
simple_cut bs start len =
    if leb (2 ^ 64) (start + len)
    then panics
    else if ltb (length bs) (start + len)
    then fails (Message.text "truncated string")
    else parsed (take len (drop start bs), drop (start + len) bs)

unfoldable pub simple_str : Bytes → Parsed (Bytes × Bytes)
unfolding position utf8 simple_cut
simple_str bs = ok_or (position b':' bs) (Message.text "no colon") >>= λ colon.
    ok_or (utf8 (take colon bs)) (Message.text "invalid len") >>= λ text.
    ok_or (parse_u64 text) (Message.text "bad len") >>= λ len. simple_cut bs (colon + 1) len

-- A key has to be a string.
abbrev pub key_of : SimpleBencode → Parsed Bytes
key_of (str k) = parsed k
key_of _ = fails (Message.text "dict key not string")

unfoldable mutual
  pub simple_decode : ℕ → Bytes → Parsed (SimpleBencode × Bytes)
  simple_decode zero bs = out_of_fuel
  simple_decode (suc f) [] = fails (Message.text "empty data")
  simple_decode (suc f) (c ∷ bs) =
      let as_int = simple_int bs in
      let as_str = simple_str (c ∷ bs) >>= λ (s, rest). parsed (str s, rest) in
      let as_list = simple_items f bs >>= λ (items, rest). parsed (list items, rest) in
      let as_dict = simple_entries f no_entries bs >>= λ (m, rest). parsed (dict m, rest) in
      if c == b'i'
      then as_int
      else if is_digit c
      then as_str
      else if c == b'l'
      then as_list
      else if c == b'd'
      then as_dict
      else fails (Message.with_number "unexpected byte: " c)

  pub simple_items : ℕ → Bytes → Parsed (Items × Bytes)
  simple_items zero bs = out_of_fuel
  simple_items (suc f) [] = fails (Message.text "unterminated list")
  simple_items (suc f) (c ∷ bs) =
      let more = simple_decode f (c ∷ bs) >>= λ (v, rest).
      simple_items f rest >>= λ (items, rest'). parsed (item v items, rest') in
      if c == b'e' then parsed (no_items, bs) else more

  pub simple_entries : ℕ → Entries → Bytes → Parsed (Entries × Bytes)
  simple_entries zero kept bs = out_of_fuel
  simple_entries (suc f) kept [] = fails (Message.text "unterminated dict")
  simple_entries (suc f) kept (c ∷ bs) =
      let more = simple_decode f (c ∷ bs) >>= λ (key, rest). key_of key >>= λ k.
      simple_decode f rest >>= λ (v, rest'). simple_entries f (insert k v kept) rest' in
      if c == b'e' then parsed (kept, bs) else more

-- The chunks of six bytes, for a number of chunks.
unfoldable pub compact_chunks : ℕ → Bytes → List (Bytes × ℕ)
compact_chunks zero bs = []
compact_chunks (suc n) bs =
    (take 4 bs, from_be16 (get_or bs 4 0) (get_or bs 5 0)) ∷ compact_chunks n (drop 6 bs)

unfoldable pub parse_compact_peers : Bytes → List (Bytes × ℕ)
unfolding compact_chunks
parse_compact_peers bs = compact_chunks (length bs / 6) bs

-- `u16::try_from`
unfoldable pub to_port : ℤ → Option ℕ
to_port (pos n) = if ltb n (2 ^ 16) then some n else none
to_port (negsuc n) = none

abbrev pub and_then {ℓ κ} : {A : Type ℓ} {B : Type κ} → Option A → (A → Option B) → Option B
and_then none f = none
and_then (some a) f = f a

unfoldable pub dict_peer : BencodeValue → Option (Bytes × ℕ)
unfolding to_port get as_dict as_int as_str_bytes
dict_peer v = and_then (as_dict v) λ m. and_then (and_then (get m (ascii "ip")) as_str_bytes) λ ip.
    and_then (and_then (and_then (get m (ascii "port")) as_int) to_port) λ port. some (ip, port)

unfoldable pub parse_dict_peers : Items → List (Bytes × ℕ)
unfolding dict_peer
parse_dict_peers no_items = []
parse_dict_peers (item v vs) = elim (dict_peer v) [
  | none ↦ parse_dict_peers vs
  | some p ↦ p ∷ parse_dict_peers vs
]
