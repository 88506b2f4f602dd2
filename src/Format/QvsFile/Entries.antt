-- ===== src/Format/QvsFile/Entries.antt =====
-- crates/qvs-format/src/qvs_file.rs: the dictionary of a file in the order of its keys, and the fields that
-- are read from it.
use qvod_player.Prelude.{
  ℕ, zero, suc, ◌*◌, ◌/◌, ◌%◌, ◌^◌, ◌<◌, ◌≡◌, refl, true, Option, none, some, List, [], ◌∷◌, ◌==◌,
  length, arith, Bytes, ascii, is_utf8, All, to_i64, to_i64-IsI64, to_u64-to_i64, length-append,
  take_sized, drop_sized,
}
use qvod_player.Core.Outcome.{ok}
use qvod_player.Format.Bencode.Defs.{
  Entries, int, str, list, dict, no_entries, entry, before, insert, get, as_int, as_list,
  as_str_bytes,
}
use qvod_player.Core.NodeId.{same_id}
use qvod_player.Format.Bencode.Decode.{utf8}
use qvod_player.Format.Bencode.RoundTrip.{IsValue}
use qvod_player.Format.QvsFile.Defs.{
  QvsFile, concat, str_items, insert_keyframe_index, to_dict, get_int, get_str, get_list, chunks,
  texts, from_dict,
}

-- The files that the Rust type has, and with arrays of 20 bytes where it has arrays.
abbrev pub IsText : Bytes → Type 0
IsText s = (is_utf8 s ≡ true) × (length s < 2 ^ 63)

abbrev pub IsIndex : Option Bytes → Type 0
IsIndex none = Unit
IsIndex (some kf) = length kf < 2 ^ 63

abbrev pub IsFile : QvsFile → Type 0
IsFile f =
    (length f.info_hash ≡ 20)
    × IsText f.filename
    × (f.file_size < 2 ^ 64)
    × (f.piece_length < 2 ^ 64)
    × All (λ p. length p ≡ 20) f.pieces
    × (length (concat f.pieces) < 2 ^ 63)
    × All IsText f.trackers
    × IsIndex f.keyframe_index

-- The entries behind `info_hash`.
abbrev pub last_entries : QvsFile → Entries
last_entries f = entry (ascii "piece_length") (int (to_i64 f.piece_length)) (
    entry (ascii "pieces") (str (concat f.pieces))
      (entry (ascii "trackers") (list (str_items f.trackers)) no_entries))

abbrev pub with_index : Option Bytes → Entries → Entries
with_index none m = m
with_index (some kf) m = entry (ascii "keyframe_index") (str kf) m

abbrev pub in_order : QvsFile → Entries
in_order f = entry (ascii "file_size") (int (to_i64 f.file_size)) (
    entry (ascii "filename") (str f.filename)
      (entry (ascii "info_hash") (str f.info_hash) (with_index f.keyframe_index (last_entries f))))

insert_keyframe_index-in_order :
    (f : QvsFile) (k : Option Bytes)
    → insert_keyframe_index k (in_order (record f { keyframe_index = none }))
      ≡ in_order (record f { keyframe_index = k })
unfolding insert_keyframe_index insert before same_id
insert_keyframe_index-in_order f none = refl
insert_keyframe_index-in_order f (some kf) = refl

pub to_dict-in_order : (f : QvsFile) → to_dict f ≡ in_order f
unfolding to_dict insert before same_id
to_dict-in_order f = insert_keyframe_index-in_order f f.keyframe_index

str_items-IsValue : (ts : List Bytes) → All IsText ts → IsValue (list (str_items ts))
unfolding str_items IsValue
str_items-IsValue [] h = tt
str_items-IsValue (t ∷ ts) ((u, lt), h) = (lt, str_items-IsValue ts h)

last_entries-IsValue : (f : QvsFile) → IsFile f → IsValue (dict (last_entries f))
unfolding IsValue before
last_entries-IsValue f (ih, name, size, len, ps, whole, ts, kf) = (
  omega arith,
  to_i64-IsI64 f.piece_length len,
  (refl, (refl, tt)),
  (omega arith, whole, (refl, tt), (omega arith, str_items-IsValue f.trackers ts, tt, tt)),
)

last-IsValue :
    (f : QvsFile) (k : Option Bytes)
    → IsFile f
    → IsIndex k
    → IsValue (dict (in_order (record f { keyframe_index = k })))
unfolding IsValue before
last-IsValue f none h kf =
    let (ih, name, size, len, ps, whole, ts, index) = h in
    (
      omega arith,
      to_i64-IsI64 f.file_size size,
      (refl, (refl, (refl, (refl, (refl, tt))))),
      (
        omega arith,
        name.1,
        (refl, (refl, (refl, (refl, tt)))),
        (omega arith, omega (arith, ih), (refl, (refl, (refl, tt))), last_entries-IsValue f h),
      ),
    )
last-IsValue f (some s) h kf =
    let (ih, name, size, len, ps, whole, ts, index) = h in
    (
      omega arith,
      to_i64-IsI64 f.file_size size,
      (refl, (refl, (refl, (refl, (refl, (refl, tt)))))),
      (
        omega arith,
        name.1,
        (refl, (refl, (refl, (refl, (refl, tt))))),
        (
          omega arith,
          omega (arith, ih),
          (refl, (refl, (refl, (refl, tt)))),
          (omega arith, kf, (refl, (refl, (refl, tt))), last_entries-IsValue f h),
        ),
      ),
    )

pub in_order-IsValue : (f : QvsFile) → IsFile f → IsValue (dict (in_order f))
in_order-IsValue f h =
    last-IsValue f f.keyframe_index h (let (ih, name, size, len, ps, whole, ts, index) = h in index)

-- The pieces are cut where they were joined.
length-concat :
    (ps : List Bytes) → All (λ p. length p ≡ 20) ps → length (concat ps) ≡ 20 * length ps
unfolding concat
length-concat [] h = omega arith
length-concat (p ∷ ps) (e, h) = omega (arith, length-append p (concat ps), length-concat ps h, e)

chunks-concat :
    (ps : List Bytes) (n : ℕ)
    → All (λ p. length p ≡ 20) ps
    → n ≡ length ps
    → chunks n (concat ps) ≡ ps
unfolding chunks concat
chunks-concat [] zero h e = refl
chunks-concat [] (suc n) h e = absurd (omega arith)
chunks-concat (p ∷ ps) zero h e = absurd (omega arith)
chunks-concat (p ∷ ps) (suc n) (l, h) e =
    rw
      (
        take_sized 20 p (concat ps) l,
        drop_sized 20 p (concat ps) l,
        chunks-concat ps n h (omega arith),
      )
      refl

texts-str_items : (ts : List Bytes) → All IsText ts → texts (str_items ts) ≡ ts
unfolding texts str_items as_str_bytes
texts-str_items [] h = refl
texts-str_items (t ∷ ts) ((u, lt), h) = rw (u, texts-str_items ts h) refl

-- The fields are read back from the dictionary.
fields :
    (f : QvsFile) (k : Option Bytes)
    → IsFile f
    → from_dict (in_order (record f { keyframe_index = k })) ≡ ok (record f { keyframe_index = k })
unfolding from_dict get_str get_int get_list get same_id utf8 as_str_bytes as_int as_list
fields f none (ih, (u, name), size, len, ps, whole, ts, index) =
    let joined = length-concat f.pieces ps in
    let even : (length (concat f.pieces) % 20 == 0) ≡ true = ground (arith, joined) in
    rw
      (
        ih,
        u,
        even,
        to_u64-to_i64 f.file_size size,
        to_u64-to_i64 f.piece_length len,
        chunks-concat f.pieces (length (concat f.pieces) / 20) ps (omega (arith, joined)),
        texts-str_items f.trackers ts,
      )
      refl
fields f (some s) (ih, (u, name), size, len, ps, whole, ts, index) =
    let joined = length-concat f.pieces ps in
    let even : (length (concat f.pieces) % 20 == 0) ≡ true = ground (arith, joined) in
    rw
      (
        ih,
        u,
        even,
        to_u64-to_i64 f.file_size size,
        to_u64-to_i64 f.piece_length len,
        chunks-concat f.pieces (length (concat f.pieces) / 20) ps (omega (arith, joined)),
        texts-str_items f.trackers ts,
      )
      refl

pub from_dict-in_order : (f : QvsFile) → IsFile f → from_dict (in_order f) ≡ ok f
from_dict-in_order f h = fields f f.keyframe_index h
