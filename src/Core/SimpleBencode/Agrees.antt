-- ===== src/Core/SimpleBencode/Agrees.antt =====
-- crates/qvs-core/src/util.rs and crates/qvs-format/src/bencode.rs: the two decoders.
use qvod_player.Prelude.{
  ℕ, zero, suc, ◌+◌, ◌^◌, ◌≡◌, refl, inl, inr, Option, none, some, [], ◌∷◌, ltb, leb, ◌==◌, length,
  take, Bytes, Bool-cases, is_digit, parse_i64, parse_u64,
}
use qvod_player.Core.Error.{Message}
use qvod_player.Core.Outcome.{Outcome, ok, err}
use qvod_player.Core.Outcome as Outcome
use qvod_player.Format.Bencode.Outcome.{or_err}
use qvod_player.Format.Bencode.Defs.{BencodeValue, Entries, str, list, dict, no_entries, insert}
use qvod_player.Format.Bencode.Decode.{
  position, utf8, decode_int, cut_str, decode_str, decode, decode_items, decode_entries,
}
use qvod_player.Core.SimpleBencode.{
  Parsed, parsed, fails, panics, out_of_fuel, ◌>>=◌, ok_or, simple_int, simple_cut, simple_str,
  key_of, simple_decode, simple_items, simple_entries,
}

-- Where the first decoder has a result, the second one has the same.
abbrev pub Agrees {ℓ} : {A : Type ℓ} → Parsed A → Outcome A → Type ℓ
Agrees (parsed a) o = o ≡ ok a
Agrees (fails m) o = Unit
Agrees panics o = Unit
Agrees out_of_fuel o = Unit

module _ {ℓ κ} {A : Type ℓ} {B : Type κ} where
  Agrees->>= :
      (p : Parsed A) (o : Outcome A) (f : A → Parsed B) (g : A → Outcome B)
      → Agrees p o
      → ((a : A) → Agrees (f a) (g a))
      → Agrees (p >>= f) (Outcome.◌>>=◌ o g)
  Agrees->>= (parsed a) o f g e h = rw e (h a)
  Agrees->>= (fails m) o f g e h = tt
  Agrees->>= panics o f g e h = tt
  Agrees->>= out_of_fuel o f g e h = tt

  Agrees-ok_or :
      (x : Option A) (m n : Message) (f : A → Parsed B) (g : A → Outcome B)
      → ((a : A) → Agrees (f a) (g a))
      → Agrees (ok_or x m >>= f) (Outcome.◌>>=◌ (or_err x n) g)
  Agrees-ok_or none m n f g h = tt
  Agrees-ok_or (some a) m n f g h = h a

  -- A chain whose value is used further.
  Agrees-chain {μ} :
      {X : Type μ} (x : Option X) (m : Message) (f : X → Parsed A) (k : A → Parsed B)
      (o : Outcome B)
      → ((a : X) → Agrees (f a >>= k) o)
      → Agrees ((ok_or x m >>= f) >>= k) o
  Agrees-chain none m f k o h = tt
  Agrees-chain (some a) m f k o h = h a

Agrees-simple_int : (bs : Bytes) → Agrees (simple_int bs) (decode_int bs)
unfolding simple_int decode_int
Agrees-simple_int bs = Agrees-ok_or (position b'e' bs) _ _ _ _ λ end.
    Agrees-ok_or (utf8 (take end bs)) _ _ _ _
      λ text. Agrees-ok_or (parse_i64 text) _ _ _ _ λ val. refl

Agrees-simple_cut :
    (bs : Bytes) (start len : ℕ) → Agrees (simple_cut bs start len) (cut_str bs start len)
unfolding simple_cut cut_str
Agrees-simple_cut bs start len = elim (Bool-cases (leb (2 ^ 64) (start + len))) [
  | inl p ↦ rw p tt
  | inr p ↦ elim (Bool-cases (ltb (length bs) (start + len))) [
    | inl q ↦ rw (p, q) tt
    | inr q ↦ rw (p, q) refl
  ]
]

Agrees-simple_str : (bs : Bytes) → Agrees (simple_str bs) (decode_str bs)
unfolding simple_str decode_str
Agrees-simple_str bs = Agrees-ok_or (position b':' bs) _ _ _ _ λ colon.
    Agrees-ok_or (utf8 (take colon bs)) _ _ _ _
      λ text. Agrees-ok_or (parse_u64 text) _ _ _ _ λ len. Agrees-simple_cut bs (colon + 1) len

module _ {B : Type 0} (h : Bytes × Bytes → Parsed B) (g : Bytes × Bytes → Outcome B) where
  -- What follows a key.
  abbrev after_key : BencodeValue × Bytes → Parsed B
  after_key (key, rest) = key_of key >>= λ k. h (k, rest)

  no_key :
      {A : Type 0} (p : Parsed (A × Bytes)) (value : A → BencodeValue) (o : Outcome B)
      → ((a : A) → key_of (value a) ≡ fails (Message.text "dict key not string"))
      → Agrees ((p >>= λ (a, rest). parsed (value a, rest)) >>= after_key) o
  no_key (parsed (a, rest)) value o text = rw (text a) tt
  no_key (fails m) value o text = tt
  no_key panics value o text = tt
  no_key out_of_fuel value o text = tt

  text_key :
      (p : Parsed (Bytes × Bytes)) (o : Outcome (Bytes × Bytes))
      → Agrees p o
      → ((a : Bytes × Bytes) → Agrees (h a) (g a))
      → Agrees ((p >>= λ (s, rest). parsed (str s, rest)) >>= after_key) (Outcome.◌>>=◌ o g)
  text_key (parsed (s, rest)) o e same = rw e (same (s, rest))
  text_key (fails m) o e same = tt
  text_key panics o e same = tt
  text_key out_of_fuel o e same = tt

  no_int : (bs : Bytes) (o : Outcome B) → Agrees (simple_int bs >>= after_key) o
  unfolding simple_int
  no_int bs o = Agrees-chain (position b'e' bs) _ _ _ o λ end.
      Agrees-chain (utf8 (take end bs)) _ _ _ o
        λ text. Agrees-chain (parse_i64 text) _ _ _ o λ val. tt

  -- A key that the first decoder takes is the string that the second one reads.
  Agrees-key :
      (f : ℕ) (bs : Bytes)
      → ((a : Bytes × Bytes) → Agrees (h a) (g a))
      → Agrees (simple_decode f bs >>= after_key) (Outcome.◌>>=◌ (decode_str bs) g)
  unfolding simple_decode
  Agrees-key zero bs same = tt
  Agrees-key (suc f) [] same = tt
  Agrees-key (suc f) (c ∷ bs) same = elim (Bool-cases (c == b'i')) [
    | inl p ↦ rw p (no_int bs _)
    | inr p ↦ elim (Bool-cases (is_digit c)) [
      | inl q ↦
          rw (p, q)
            (text_key (simple_str (c ∷ bs)) (decode_str (c ∷ bs)) (Agrees-simple_str (c ∷ bs)) same)
      | inr q ↦ elim (Bool-cases (c == b'l')) [
        | inl r ↦ rw (p, q, r) (no_key (simple_items f bs) list _ (λ a. refl))
        | inr r ↦ elim (Bool-cases (c == b'd')) [
          | inl s ↦ rw (p, q, r, s) (no_key (simple_entries f no_entries bs) dict _ (λ a. refl))
          | inr s ↦ rw (p, q, r, s) tt
        ]
      ]
    ]
  ]

mutual
  unfolding simple_decode decode

  Agrees-simple_decode : (f : ℕ) (bs : Bytes) → Agrees (simple_decode f bs) (decode f bs)
  Agrees-simple_decode zero bs = tt
  Agrees-simple_decode (suc f) [] = tt
  Agrees-simple_decode (suc f) (c ∷ bs) = elim (Bool-cases (c == b'i')) [
    | inl p ↦ rw p (Agrees-simple_int bs)
    | inr p ↦ elim (Bool-cases (is_digit c)) [
      | inl q ↦
          rw (p, q)
            (Agrees->>= (simple_str (c ∷ bs)) (decode_str (c ∷ bs)) _ _ (Agrees-simple_str (c ∷ bs))
              λ a. refl)
      | inr q ↦ elim (Bool-cases (c == b'l')) [
        | inl r ↦
            rw (p, q, r)
              (Agrees->>= (simple_items f bs) (decode_items f bs) _ _ (Agrees-simple_items f bs)
                λ a. refl)
        | inr r ↦ elim (Bool-cases (c == b'd')) [
          | inl s ↦
              rw (p, q, r, s)
                (Agrees->>= (simple_entries f no_entries bs) (decode_entries f no_entries bs) _ _
                  (Agrees-simple_entries f no_entries bs) λ a. refl)
          | inr s ↦ rw (p, q, r, s) tt
        ]
      ]
    ]
  ]

  Agrees-simple_items : (f : ℕ) (bs : Bytes) → Agrees (simple_items f bs) (decode_items f bs)
  Agrees-simple_items zero bs = tt
  Agrees-simple_items (suc f) [] = tt
  Agrees-simple_items (suc f) (c ∷ bs) = elim (Bool-cases (c == b'e')) [
    | inl p ↦ rw p refl
    | inr p ↦ rw p (
        Agrees->>= (simple_decode f (c ∷ bs)) (decode f (c ∷ bs)) _ _
          (Agrees-simple_decode f (c ∷ bs))
          λ (v, rest).
            Agrees->>= (simple_items f rest) (decode_items f rest) _ _ (Agrees-simple_items f rest)
              λ a. refl)
  ]

  Agrees-simple_entries :
      (f : ℕ) (m : Entries) (bs : Bytes) → Agrees (simple_entries f m bs) (decode_entries f m bs)
  Agrees-simple_entries zero m bs = tt
  Agrees-simple_entries (suc f) m [] = tt
  Agrees-simple_entries (suc f) m (c ∷ bs) = elim (Bool-cases (c == b'e')) [
    | inl p ↦ rw p refl
    | inr p ↦ rw p (
        Agrees-key
          (λ (k, rest).
            simple_decode f rest >>= λ (v, rest'). simple_entries f (insert k v m) rest')
          (λ (k, rest).
            Outcome.◌>>=◌ (decode f rest) λ (v, rest'). decode_entries f (insert k v m) rest')
          f (c ∷ bs)
          λ (k, rest).
            Agrees->>= (simple_decode f rest) (decode f rest) _ _ (Agrees-simple_decode f rest)
              λ (v, rest'). Agrees-simple_entries f (insert k v m) rest')
  ]

result-Agrees {ℓ} :
    {A : Type ℓ} (p : Parsed A) (o : Outcome A) (a : A) → p ≡ parsed a → Agrees p o → o ≡ ok a
result-Agrees (parsed b) o a e h = cc
result-Agrees (fails m) o a e h = cc
result-Agrees panics o a e h = cc
result-Agrees out_of_fuel o a e h = cc

-- A value that the decoder of qvs-core reads, with the rest it leaves, is the one that the decoder of
-- qvs-format reads from the same bytes, with the same fuel.
pub decode-simple_decode :
    (f : ℕ) (bs : Bytes) (v : BencodeValue) (rest : Bytes)
    → simple_decode f bs ≡ parsed (v, rest)
    → decode f bs ≡ ok (v, rest)
decode-simple_decode f bs v rest e =
    result-Agrees (simple_decode f bs) (decode f bs) (v, rest) e (Agrees-simple_decode f bs)
