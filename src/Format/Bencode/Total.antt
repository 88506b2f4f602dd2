-- ===== src/Format/Bencode/Total.antt =====
-- crates/qvs-format/src/bencode.rs: the decoder comes to an end on any input.
use qvod_player.Prelude.{
  ℕ, zero, suc, ◌+◌, ◌*◌, ◌^◌, ◌≤◌, ◌<◌, inl, inr, Option, none, some, [], ◌∷◌, ltb, leb, ◌==◌,
  length, take, length-drop, arith, Bytes, Bool-cases, is_digit, parse_i64, parse_u64,
}
use qvod_player.Core.Error.{Message}
use qvod_player.Core.Outcome.{Outcome, ok, err, panics, out_of_fuel, ◌>>=◌}
use qvod_player.Format.Bencode.Outcome.{or_err}
use qvod_player.Format.Bencode.Defs.{Entries, no_entries, insert}
use qvod_player.Format.Bencode.Decode.{
  position, utf8, decode_int, cut_str, decode_str, decode, decode_items, decode_entries, decode_all,
}

-- The decoder came to an end, and what it leaves is shorter than `n` bytes.
abbrev pub LeavesLess {ℓ} : {A : Type ℓ} → ℕ → Outcome (A × Bytes) → Type 0
LeavesLess n (ok (a, rest)) = length rest < n
LeavesLess n (err e) = Unit
LeavesLess n panics = Unit
LeavesLess n out_of_fuel = ⊥

module _ {ℓ κ} {A : Type ℓ} {B : Type κ} where
  LeavesLess->>= :
      (m n : ℕ) (o : Outcome (A × Bytes)) (f : A × Bytes → Outcome (B × Bytes))
      → LeavesLess m o
      → ((a : A) (rest : Bytes) → length rest < m → LeavesLess n (f (a, rest)))
      → LeavesLess n (o >>= f)
  LeavesLess->>= m n (ok (a, rest)) f h k = k a rest h
  LeavesLess->>= m n (err e) f h k = tt
  LeavesLess->>= m n panics f h k = tt
  LeavesLess->>= m n out_of_fuel f h k = elim h [ ]

  LeavesLess-or_err :
      (n : ℕ) (o : Option A) (msg : Message) (f : A → Outcome (B × Bytes))
      → ((a : A) → LeavesLess n (f a))
      → LeavesLess n (or_err o msg >>= f)
  LeavesLess-or_err n none msg f k = tt
  LeavesLess-or_err n (some a) msg f k = k a

LeavesLess-le {ℓ} :
    {A : Type ℓ} (m n : ℕ) (o : Outcome (A × Bytes)) → m ≤ n → LeavesLess m o → LeavesLess n o
LeavesLess-le m n (ok (a, rest)) le h = omega (arith, h)
LeavesLess-le m n (err e) le h = tt
LeavesLess-le m n panics le h = tt
LeavesLess-le m n out_of_fuel le h = h

LeavesLess-decode_int : (bs : Bytes) → LeavesLess (suc (length bs)) (decode_int bs)
unfolding decode_int
LeavesLess-decode_int bs = LeavesLess-or_err _ (position b'e' bs) _ _ λ end.
    LeavesLess-or_err _ (utf8 (take end bs)) _ _ λ text.
      LeavesLess-or_err _ (parse_i64 text) _ _ λ val. omega (arith, length-drop (end + 1) bs)

LeavesLess-cut_str :
    (bs : Bytes) (start len : ℕ) → 1 ≤ start → LeavesLess (length bs) (cut_str bs start len)
unfolding cut_str
LeavesLess-cut_str bs start len h = elim (Bool-cases (leb (2 ^ 64) (start + len))) [
  | inl p ↦ rw p tt
  | inr p ↦ elim (Bool-cases (ltb (length bs) (start + len))) [
    | inl q ↦ rw (p, q) tt
    | inr q ↦
        let le : start + len ≤ length bs = ground (arith, q) in
        rw (p, q) (omega (arith, length-drop (start + len) bs, le))
  ]
]

LeavesLess-decode_str : (bs : Bytes) → LeavesLess (length bs) (decode_str bs)
unfolding decode_str
LeavesLess-decode_str bs = LeavesLess-or_err _ (position b':' bs) _ _ λ colon.
    LeavesLess-or_err _ (utf8 (take colon bs)) _ _ λ text.
      LeavesLess-or_err _ (parse_u64 text) _ _
        λ len. LeavesLess-cut_str bs (colon + 1) len (omega arith)

mutual
  unfolding decode

  LeavesLess-decode :
      (f : ℕ) (bs : Bytes) → 2 * length bs < f → LeavesLess (length bs) (decode f bs)
  LeavesLess-decode zero bs h = absurd (omega arith)
  LeavesLess-decode (suc f) [] h = tt
  LeavesLess-decode (suc f) (c ∷ bs) h = elim (Bool-cases (c == b'i')) [
    | inl p ↦ rw p (LeavesLess-decode_int bs)
    | inr p ↦ elim (Bool-cases (is_digit c)) [
      | inl q ↦
          rw (p, q)
            (LeavesLess->>= (length (c ∷ bs)) (length (c ∷ bs)) (decode_str (c ∷ bs)) _
              (LeavesLess-decode_str (c ∷ bs)) (λ s rest lt. lt))
      | inr q ↦ elim (Bool-cases (c == b'l')) [
        | inl r ↦
            rw (p, q, r)
              (LeavesLess->>= (length bs) _ (decode_items f bs) _
                (LeavesLess-decode_items f bs (omega arith)) (λ vs rest lt. omega arith))
        | inr r ↦ elim (Bool-cases (c == b'd')) [
          | inl s ↦
              rw (p, q, r, s)
                (LeavesLess->>= (length bs) _ (decode_entries f no_entries bs) _
                  (LeavesLess-decode_entries f no_entries bs (omega arith))
                  (λ m rest lt. omega arith))
          | inr s ↦ rw (p, q, r, s) tt
        ]
      ]
    ]
  ]

  LeavesLess-decode_items :
      (f : ℕ) (bs : Bytes) → 2 * length bs + 1 < f → LeavesLess (length bs) (decode_items f bs)
  LeavesLess-decode_items zero bs h = absurd (omega arith)
  LeavesLess-decode_items (suc f) [] h = tt
  LeavesLess-decode_items (suc f) (c ∷ bs) h = elim (Bool-cases (c == b'e')) [
    | inl p ↦ rw p (omega arith)
    | inr p ↦ rw p (
        LeavesLess->>= (length (c ∷ bs)) _ (decode f (c ∷ bs)) _
          (LeavesLess-decode f (c ∷ bs) (omega arith))
          λ v rest lt.
            LeavesLess->>= (length rest) _ (decode_items f rest) _
              (LeavesLess-decode_items f rest (omega arith)) (λ vs rest' lt'. omega arith))
  ]

  LeavesLess-decode_entries :
      (f : ℕ) (m : Entries) (bs : Bytes)
      → 2 * length bs + 1 < f
      → LeavesLess (length bs) (decode_entries f m bs)
  LeavesLess-decode_entries zero m bs h = absurd (omega arith)
  LeavesLess-decode_entries (suc f) m [] h = tt
  LeavesLess-decode_entries (suc f) m (c ∷ bs) h = elim (Bool-cases (c == b'e')) [
    | inl p ↦ rw p (omega arith)
    | inr p ↦ rw p (
        LeavesLess->>= (length (c ∷ bs)) _ (decode_str (c ∷ bs)) _ (LeavesLess-decode_str (c ∷ bs))
          λ key rest lt.
            LeavesLess->>= (length rest) _ (decode f rest) _
              (LeavesLess-decode f rest (omega arith))
              λ v rest' lt'.
                LeavesLess-le (length rest') _ (decode_entries f (insert key v m) rest')
                  (omega arith) (LeavesLess-decode_entries f (insert key v m) rest' (omega arith)))
  ]

-- On any input the decoder comes to an end with the fuel it is given: with an error or a panic, or with
-- a value and a rest that is strictly shorter than the input.
pub decode_all-LeavesLess : (bs : Bytes) → LeavesLess (length bs) (decode_all bs)
unfolding decode_all
decode_all-LeavesLess bs = LeavesLess-decode (2 * length bs + 1) bs (omega arith)
