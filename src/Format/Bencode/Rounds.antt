-- ===== src/Format/Bencode/Rounds.antt =====
-- crates/qvs-format/src/bencode.rs: one round of each loop of the decoder over what is encoded.
use qvod_player.Prelude.{
  ℕ, suc, ◌+◌, ◌^◌, ◌≤◌, ◌<◌, ◌≡◌, refl, ap, ◌∙◌, true, false, [], ◌∷◌, ◌++◌, ◌==◌, length, arith,
  Bytes, append_assoc, append-nil, length-append, print-cons, is_digit, ℤ, print_int, IsI64,
}
use qvod_player.Core.Outcome.{ok, ◌>>=◌}
use qvod_player.Format.Bencode.Defs.{
  BencodeValue, Items, Entries, int, str, list, dict, no_items, item, no_entries, entry, encode_str,
  encode, encode_items, encode_entries, insert,
}
use qvod_player.Format.Bencode.Decode.{decode_str, decode, decode_items, decode_entries}
use qvod_player.Format.Bencode.Order.{join, join-no_entries}
use qvod_player.Format.Bencode.Text.{decode_int-print_int, decode_str-encode_str}

encode_str-cons :
    (s rest : Bytes)
    → (c : ℕ) × (bs : Bytes) × (encode_str s ++ rest ≡ c ∷ bs) × (is_digit c ≡ true)
unfolding encode_str
encode_str-cons s rest =
    let (c, bs, e, d) = print-cons (length s) in ((c, (bs ++ b':' ∷ s) ++ rest, rw e refl, d))

-- What is encoded does not look like the end of a list.
encode-cons :
    (v : BencodeValue) (rest : Bytes)
    → (c : ℕ) × (bs : Bytes) × (encode v ++ rest ≡ c ∷ bs) × ((c == b'e') ≡ false)
unfolding encode
encode-cons (int i) rest = (_, _, refl, refl)
encode-cons (str s) rest =
    let (c, bs, e, d) = encode_str-cons s rest in (c, bs, e, ground (arith, d))
encode-cons (list vs) rest = (_, _, refl, refl)
encode-cons (dict m) rest = (_, _, refl, refl)

pub decode-digit :
    (f c : ℕ) (bs input : Bytes)
    → input ≡ c ∷ bs
    → is_digit c ≡ true
    → decode (suc f) input ≡ (decode_str input >>= λ (s, rest). ok (str s, rest))
unfolding decode
decode-digit f c bs input e d =
    let other : (c == b'i') ≡ false = ground (arith, d) in rw (e, other, d) refl

decode_items-value :
    (f c : ℕ) (bs input : Bytes)
    → input ≡ c ∷ bs
    → (c == b'e') ≡ false
    → decode_items (suc f) input ≡ (
        decode f input >>= λ (v, rest).
        decode_items f rest >>= λ (items, rest'). ok (item v items, rest'))
unfolding decode
decode_items-value f c bs input e h = rw (e, h) refl

decode_entries-key :
    (f c : ℕ) (m : Entries) (bs input : Bytes)
    → input ≡ c ∷ bs
    → is_digit c ≡ true
    → decode_entries (suc f) m input ≡ (
        decode_str input >>= λ (key, rest).
        decode f rest >>= λ (v, rest'). decode_entries f (insert key v m) rest')
unfolding decode
decode_entries-key f c m bs input e d =
    let other : (c == b'e') ≡ false = ground (arith, d) in rw (e, other) refl

pub decode-str :
    (f : ℕ) (s rest : Bytes)
    → length s < 2 ^ 63
    → decode (suc f) (encode_str s ++ rest) ≡ ok (str s, rest)
decode-str f s rest h =
    let (c, bs, e, d) = encode_str-cons s rest in
    decode-digit f c bs (encode_str s ++ rest) e d ∙ rw (decode_str-encode_str s rest h) refl

-- One round of each loop, from what its calls give.
pub decode_items-item :
    (f : ℕ) (v : BencodeValue) (vs : Items) (rest : Bytes)
    → decode f (encode v ++ (encode_items vs ++ rest)) ≡ ok (v, encode_items vs ++ rest)
    → decode_items f (encode_items vs ++ rest) ≡ ok (vs, rest)
    → decode_items (suc f) (encode_items (item v vs) ++ rest) ≡ ok (item v vs, rest)
unfolding encode
decode_items-item f v vs rest first others =
    let (c, bs, e, d) = encode-cons v (encode_items vs ++ rest) in
    rw (append_assoc (encode v) (encode_items vs) rest) (
      decode_items-value f c bs (encode v ++ (encode_items vs ++ rest)) e d
      ∙ rw (first, others) refl)

pub decode_entries-entry :
    (f : ℕ) (m : Entries) (k : Bytes) (v : BencodeValue) (n : Entries) (rest : Bytes)
    → length k < 2 ^ 63
    → decode f (encode v ++ (encode_entries n ++ rest)) ≡ ok (v, encode_entries n ++ rest)
    → decode_entries f (insert k v m) (encode_entries n ++ rest) ≡ ok (join (insert k v m) n, rest)
    → decode_entries (suc f) m (encode_entries (entry k v n) ++ rest)
      ≡ ok (join (insert k v m) n, rest)
unfolding encode
decode_entries-entry f m k v n rest h first others =
    let tail = encode v ++ (encode_entries n ++ rest) in
    let (c, bs, e, d) = encode_str-cons k tail in
    rw
      (
        append_assoc (encode_str k) (encode v ++ encode_entries n) rest,
        append_assoc (encode v) (encode_entries n) rest,
      )
      (decode_entries-key f c m bs (encode_str k ++ tail) e d
        ∙ rw (decode_str-encode_str k tail h, first) others)

pub length-encode : (v : BencodeValue) → 1 ≤ length (encode v)
length-encode v =
    let (c, bs, e, d) = encode-cons v [] in
    let whole = ap length (append-nil (encode v)) in
    let first = ap length e in omega (arith, whole, first)

pub length-encode_items : (vs : Items) → 1 ≤ length (encode_items vs)
unfolding encode
length-encode_items no_items = omega arith
length-encode_items (item v vs) =
    omega (arith, length-append (encode v) (encode_items vs), length-encode v)

length-encode_entries : (m : Entries) → 1 ≤ length (encode_entries m)
unfolding encode
length-encode_entries no_entries = omega arith
length-encode_entries (entry k v m) = omega (
  arith,
  length-append (encode_str k) (encode v ++ encode_entries m),
  length-append (encode v) (encode_entries m),
  length-encode v,
)

-- An entry has a byte for its key, its value, and what is behind it.
pub length-encode-entry :
    (k : Bytes) (v : BencodeValue) (m : Entries)
    → (1 + length (encode v) + length (encode_entries m) ≤ length (encode_entries (entry k v m)))
      × (1 ≤ length (encode v))
      × (1 ≤ length (encode_entries m))
unfolding encode
length-encode-entry k v m =
    let (c, bs, e, d) = encode_str-cons k [] in
    let key = ap length (append-nil (encode_str k)) in
    let first = ap length e in
    (
      omega (
        arith,
        length-append (encode_str k) (encode v ++ encode_entries m),
        length-append (encode v) (encode_entries m),
        key,
        first,
      ),
      length-encode v,
      length-encode_entries m,
    )

pub decode-int :
    (f : ℕ) (i : ℤ) (rest : Bytes)
    → IsI64 i
    → decode (suc f) (encode (int i) ++ rest) ≡ ok (int i, rest)
unfolding decode encode
decode-int f i rest h =
    rw (append_assoc (print_int i) (b'e' ∷ []) rest) (decode_int-print_int i rest h)

pub decode-list :
    (f : ℕ) (vs : Items) (rest : Bytes)
    → decode_items f (encode_items vs ++ rest) ≡ ok (vs, rest)
    → decode (suc f) (encode (list vs) ++ rest) ≡ ok (list vs, rest)
unfolding decode encode
decode-list f vs rest h = rw h refl

pub decode-dict :
    (f : ℕ) (m : Entries) (rest : Bytes)
    → decode_entries f no_entries (encode_entries m ++ rest) ≡ ok (join no_entries m, rest)
    → decode (suc f) (encode (dict m) ++ rest) ≡ ok (dict m, rest)
unfolding decode encode join
decode-dict f m rest h = rw h refl

pub decode_items-no_items :
    (f : ℕ) (rest : Bytes)
    → decode_items (suc f) (encode_items no_items ++ rest) ≡ ok (no_items, rest)
unfolding decode encode
decode_items-no_items f rest = refl

pub decode_entries-no_entries :
    (f : ℕ) (m : Entries) (rest : Bytes)
    → decode_entries (suc f) m (encode_entries no_entries ++ rest) ≡ ok (join m no_entries, rest)
unfolding decode encode
decode_entries-no_entries f m rest = rw (join-no_entries m) refl
