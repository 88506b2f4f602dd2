-- ===== src/Format/QvsFile/Defs.antt =====
-- crates/qvs-format/src/qvs_file.rs: the metadata file. A String is its bytes, in UTF-8.
use qvod_player.Prelude.{
  ℕ, zero, suc, ◌/◌, ◌%◌, Option, none, some, List, [], ◌∷◌, ◌++◌, ◌==◌, not, if◌then◌else◌, length,
  take, drop, Bytes, ascii, is_utf8, ℤ, to_i64, to_u64,
}
use qvod_player.Core.Error.{Message}
use qvod_player.Core.Outcome.{Outcome, ok, ◌>>=◌}
use qvod_player.Format.Bencode.Outcome.{or_err, fail}
use qvod_player.Format.Bencode.Defs as Bencode
use qvod_player.Format.Bencode.Defs.{
  BencodeValue, Items, Entries, int, str, list, dict, no_items, item, no_entries, insert, get,
  as_int, as_str_bytes, as_list, as_dict,
}
use qvod_player.Format.Bencode.Decode.{utf8, decode_all}

pub record QvsFile : Type 0 where
  pub info_hash : Bytes
  pub filename : Bytes
  pub file_size : ℕ
  pub piece_length : ℕ
  pub pieces : List Bytes
  pub trackers : List Bytes
  pub keyframe_index : Option Bytes

-- `flat_map` over the pieces
unfoldable pub concat : List Bytes → Bytes
concat [] = []
concat (p ∷ ps) = p ++ concat ps

-- The list of the trackers.
unfoldable pub str_items : List Bytes → Items
str_items [] = no_items
str_items (t ∷ ts) = item (str t) (str_items ts)

-- The entries, in the order in which they are inserted.
unfoldable pub insert_keyframe_index : Option Bytes → Entries → Entries
unfolding insert
insert_keyframe_index none m = m
insert_keyframe_index (some kf) m = insert (ascii "keyframe_index") (str kf) m

unfoldable pub to_dict : QvsFile → Entries
unfolding insert insert_keyframe_index concat str_items
to_dict f =
    let m1 = insert (ascii "info_hash") (str f.info_hash) no_entries in
    let m2 = insert (ascii "filename") (str f.filename) m1 in
    let m3 = insert (ascii "file_size") (int (to_i64 f.file_size)) m2 in
    let m4 = insert (ascii "piece_length") (int (to_i64 f.piece_length)) m3 in
    let m5 = insert (ascii "pieces") (str (concat f.pieces)) m4 in
    let m6 = insert (ascii "trackers") (list (str_items f.trackers)) m5 in
    insert_keyframe_index f.keyframe_index m6

unfoldable pub encode : QvsFile → Outcome Bytes
unfolding to_dict Bencode.encode
encode f = ok (Bencode.encode (dict (to_dict f)))

-- `and_then` on an Option
abbrev and_then : {A : Type 0} → Option BencodeValue → (BencodeValue → Option A) → Option A
and_then none f = none
and_then (some v) f = f v

unfoldable pub get_int : Entries → Bytes → Option ℤ
unfolding get as_int
get_int m key = and_then (get m key) as_int

unfoldable pub get_str : Entries → Bytes → Option Bytes
unfolding get as_str_bytes
get_str m key = and_then (get m key) as_str_bytes

unfoldable pub get_list : Entries → Bytes → Option Items
unfolding get as_list
get_list m key = and_then (get m key) as_list

-- `chunks_exact(20)`, for a number of chunks.
unfoldable pub chunks : ℕ → Bytes → List Bytes
chunks zero bs = []
chunks (suc n) bs = take 20 bs ∷ chunks n (drop 20 bs)

-- The `filter_map` over the trackers.
unfoldable pub texts : Items → List Bytes
unfolding as_str_bytes
texts no_items = []
texts (item v vs) = elim (as_str_bytes v) [
  | none ↦ texts vs
  | some s ↦ if is_utf8 s then s ∷ texts vs else texts vs
]

abbrev or_no_trackers : Option Items → List Bytes
or_no_trackers none = []
or_no_trackers (some vs) = texts vs

-- The fields, once the dictionary is there.
unfoldable pub from_dict : Entries → Outcome QvsFile
unfolding get_str get_int get_list utf8 chunks texts
from_dict m =
    or_err (get_str m (ascii "info_hash")) (Message.text "missing info_hash") >>= λ info_hash.
    if not (length info_hash == 20)
    then fail (Message.text "info_hash must be 20 bytes")
    else or_err (get_str m (ascii "filename")) (Message.text "missing filename") >>= λ name_bytes.
        or_err (utf8 name_bytes) (Message.text "invalid filename utf-8") >>= λ filename.
        or_err (get_int m (ascii "file_size")) (Message.text "missing file_size") >>= λ file_size.
        or_err (get_int m (ascii "piece_length")) (Message.text "missing piece_length")
        >>= λ piece_length.
            or_err (get_str m (ascii "pieces")) (Message.text "missing pieces") >>= λ pieces.
            if not (length pieces % 20 == 0)
            then fail (Message.text "pieces length not multiple of 20")
            else ok (record {
              info_hash = info_hash;
              filename = filename;
              file_size = to_u64 file_size;
              piece_length = to_u64 piece_length;
              pieces = chunks (length pieces / 20) pieces;
              trackers = or_no_trackers (get_list m (ascii "trackers"));
              keyframe_index = get_str m (ascii "keyframe_index");
            })

unfoldable pub decode : Bytes → Outcome QvsFile
unfolding from_dict decode_all as_dict
decode bs = decode_all bs >>= λ (v, rest).
    or_err (as_dict v) (Message.text "expected dict") >>= λ m. from_dict m
