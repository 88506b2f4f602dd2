-- ===== src/Format/Bencode/Defs.antt =====
-- crates/qvs-format/src/bencode.rs: the values, their encoding, and the accessors. A BTreeMap is the
-- list of its entries in the order of the keys.
use qvod_player.Prelude.{
  Bool, true, false, Option, none, some, [], ◌∷◌, ◌++◌, ltb, ◌==◌, if◌then◌else◌, length, Bytes,
  print, ℤ, print_int, is_utf8,
}
use qvod_player.Core.NodeId.{same_id}

mutual
  pub data BencodeValue : Type 0 where
    int : ℤ → BencodeValue
    str : Bytes → BencodeValue
    list : Items → BencodeValue
    dict : Entries → BencodeValue

  pub data Items : Type 0 where
    no_items : Items
    item : BencodeValue → Items → Items

  pub data Entries : Type 0 where
    no_entries : Entries
    entry : Bytes → BencodeValue → Entries → Entries

unfoldable pub encode_str : Bytes → Bytes
encode_str s = print (length s) ++ b':' ∷ s

unfoldable mutual
  pub encode : BencodeValue → Bytes
  encode (int i) = b'i' ∷ (print_int i ++ b'e' ∷ [])
  encode (str s) = encode_str s
  encode (list items) = b'l' ∷ encode_items items
  encode (dict entries) = b'd' ∷ encode_entries entries

  pub encode_items : Items → Bytes
  encode_items no_items = b'e' ∷ []
  encode_items (item v items) = encode v ++ encode_items items

  pub encode_entries : Entries → Bytes
  encode_entries no_entries = b'e' ∷ []
  encode_entries (entry key v entries) = encode_str key ++ (encode v ++ encode_entries entries)

-- The order of the keys, `key < other`.
unfoldable pub before : Bytes → Bytes → Bool
before [] [] = false
before [] (y ∷ ys) = true
before (x ∷ xs) [] = false
before (x ∷ xs) (y ∷ ys) =
    let rest = before xs ys in if ltb x y then true else if x == y then rest else false

-- `BTreeMap::insert` and `get`
unfoldable pub insert : Bytes → BencodeValue → Entries → Entries
unfolding before
insert key v no_entries = entry key v no_entries
insert key v (entry other w entries) =
    let rest = insert key v entries in
    if before key other
    then entry key v (entry other w entries)
    else if same_id key other
    then entry key v entries
    else entry other w rest

unfoldable pub get : Entries → Bytes → Option BencodeValue
get no_entries key = none
get (entry other w entries) key = if same_id other key then some w else get entries key

unfoldable pub as_int : BencodeValue → Option ℤ
as_int (int i) = some i
as_int _ = none

unfoldable pub as_str_bytes : BencodeValue → Option Bytes
as_str_bytes (str s) = some s
as_str_bytes _ = none

unfoldable pub as_str : BencodeValue → Option Bytes
as_str (str s) = if is_utf8 s then some s else none
as_str _ = none

unfoldable pub as_list : BencodeValue → Option Items
as_list (list items) = some items
as_list _ = none

unfoldable pub as_dict : BencodeValue → Option Entries
as_dict (dict entries) = some entries
as_dict _ = none

unfoldable pub dict_get : BencodeValue → Bytes → Option BencodeValue
unfolding get
dict_get (dict entries) key = get entries key
dict_get _ key = none
