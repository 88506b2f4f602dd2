-- ===== src/Format/Bencode/RoundTrip.antt =====
-- crates/qvs-format/src/bencode.rs: a value that is encoded is decoded again.
use qvod_player.Prelude.{
  sym, ap, append-nil, [], ℕ, zero, suc, ◌*◌, ◌^◌, ◌≤◌, ◌<◌, ◌≡◌, refl, ◌∙◌, ◌++◌, length, arith,
  Bytes, length-append, IsI64,
}
use qvod_player.Core.Outcome.{ok}
use qvod_player.Format.Bencode.Defs.{
  BencodeValue, Items, Entries, int, str, list, dict, no_items, item, no_entries, entry, encode,
  encode_items, encode_entries,
}
use qvod_player.Format.Bencode.Decode.{decode, decode_items, decode_entries, decode_all}
use qvod_player.Format.Bencode.Order.{
  IsFirst, Follows, Follows-snoc, Follows-empty, join, join_assoc, insert-IsLast,
}
use qvod_player.Format.Bencode.Rounds.{
  length-encode, length-encode_items, length-encode-entry, decode_items-item, decode_entries-entry,
  decode-str, decode-int, decode-list, decode-dict, decode_items-no_items,
  decode_entries-no_entries,
}

-- The values that the Rust type has: 64 bits in an integer, at most `isize::MAX` bytes in a string,
-- and the keys of a map in their order.
unfoldable mutual
  pub IsValue : BencodeValue → Type 0
  IsValue (int i) = IsI64 i
  IsValue (str s) = length s < 2 ^ 63
  IsValue (list vs) = AreItems vs
  IsValue (dict m) = AreEntries m

  pub AreItems : Items → Type 0
  AreItems no_items = Unit
  AreItems (item v vs) = IsValue v × AreItems vs

  pub AreEntries : Entries → Type 0
  AreEntries no_entries = Unit
  AreEntries (entry k v m) = (length k < 2 ^ 63) × IsValue v × IsFirst k m × AreEntries m

mutual
  unfolding encode IsValue

  decode-encode_value :
      (v : BencodeValue) (f : ℕ) (rest : Bytes)
      → IsValue v
      → 2 * length (encode v) < f
      → decode f (encode v ++ rest) ≡ ok (v, rest)
  decode-encode_value v zero rest h fuel = absurd (omega arith)
  decode-encode_value (int i) (suc f) rest h fuel = decode-int f i rest h
  decode-encode_value (str s) (suc f) rest h fuel = decode-str f s rest h
  decode-encode_value (list vs) (suc f) rest h fuel =
      decode-list f vs rest (decode_items-encode_items vs f rest h (omega arith))
  decode-encode_value (dict m) (suc f) rest h fuel =
      decode-dict f m rest
        (decode_entries-encode_entries m no_entries f rest h (Follows-empty m) (omega arith))

  decode_items-encode_items :
      (vs : Items) (f : ℕ) (rest : Bytes)
      → AreItems vs
      → 2 * length (encode_items vs) ≤ f
      → decode_items f (encode_items vs ++ rest) ≡ ok (vs, rest)
  decode_items-encode_items no_items zero rest h fuel = absurd (omega arith)
  decode_items-encode_items no_items (suc f) rest h fuel = decode_items-no_items f rest
  decode_items-encode_items (item v vs) zero rest h fuel =
      absurd (omega (arith, length-append (encode v) (encode_items vs), length-encode v))
  decode_items-encode_items (item v vs) (suc f) rest (h, others) fuel =
      let whole = length-append (encode v) (encode_items vs) in
      let some_byte = length-encode v in
      decode_items-item f v vs rest
        (decode-encode_value v f (encode_items vs ++ rest) h
          (omega (arith, whole, length-encode_items vs)))
        (decode_items-encode_items vs f rest others (omega (arith, whole, some_byte)))

  decode_entries-encode_entries :
      (n m : Entries) (f : ℕ) (rest : Bytes)
      → AreEntries n
      → Follows m n
      → 2 * length (encode_entries n) ≤ f
      → decode_entries f m (encode_entries n ++ rest) ≡ ok (join m n, rest)
  decode_entries-encode_entries no_entries m zero rest h fs fuel = absurd (omega arith)
  decode_entries-encode_entries no_entries m (suc f) rest h fs fuel =
      decode_entries-no_entries f m rest
  decode_entries-encode_entries (entry k v n) m zero rest h fs fuel =
      absurd (omega (arith, length-encode-entry k v n))
  decode_entries-encode_entries (entry k v n) m (suc f) rest (hk, hv, first, others) (last, fs)
        fuel =
      let bytes = length-encode-entry k v n in
      let added = insert-IsLast k v m last in
      let more =
        decode_entries-encode_entries n (join m (entry k v no_entries)) f rest others
          (Follows-snoc m k v n fs first) (omega (arith, bytes)) in
      decode_entries-entry f m k v n rest hk
        (decode-encode_value v f (encode_entries n ++ rest) hv (omega (arith, bytes)))
        (rw added more)
      ∙ rw (added, join_assoc m k v n) refl

-- A value whose integers have 64 bits, whose strings are no longer than a Vec can be, and whose keys stand
-- in their order is read back from its encoding, whatever follows it, and nothing of that is taken.
pub decode_all-encode :
    (v : BencodeValue) (rest : Bytes) → IsValue v → decode_all (encode v ++ rest) ≡ ok (v, rest)
unfolding decode_all
decode_all-encode v rest h =
    decode-encode_value v _ rest h (omega (arith, length-append (encode v) rest))

pub decode_all-encode_whole : (v : BencodeValue) → IsValue v → decode_all (encode v) ≡ ok (v, [])
decode_all-encode_whole v h = ap decode_all (sym (append-nil (encode v))) ∙ decode_all-encode v [] h
