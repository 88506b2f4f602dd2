-- ===== src/Transport/Handshake/RoundTrip.antt =====
-- Encoding a handshake and decoding it.
use qvod_player.Prelude.{
  ℕ, zero, suc, ◌+◌, ◌≡◌, ◌∙◌, refl, sym, ap, true, ◌∷◌, ◌++◌, length, take, drop, replicate,
  overwrite, Bytes, arith, append_assoc, append-nil, length-append, take-append, drop-append,
  drop_add-append,
}
use qvod_player.Core.Error.{ok}
use qvod_player.Core.NodeId.{same_id}
use qvod_player.Transport.Handshake.Defs.{Handshake, handshake_protocol, encode, decode, has_flag}

-- The arrays have their sizes.
pub record IsSized (h : Handshake) : Type 0 where
  pub reserved_sized : length h.reserved ≡ 8
  pub info_hash_sized : length h.info_hash ≡ 20
  pub peer_id_sized : length h.peer_id ≡ 20

drop_zeros : (k m n : ℕ) → k + n ≡ m → drop {A = ℕ} k (replicate m 0) ≡ replicate n 0
drop_zeros zero m n e = let same : m ≡ n = omega arith in rw same
drop_zeros (suc k) zero n e = absurd (omega arith)
drop_zeros (suc k) (suc m) n e = drop_zeros k m n (omega arith)

-- Writing right behind what is written, into a buffer of zeros.
overwrite_next :
    (front src : Bytes) (at m n : ℕ)
    → at ≡ length front
    → length src + n ≡ m
    → overwrite (front ++ replicate m 0) at src ≡ (front ++ src) ++ replicate n 0
overwrite_next front src at m n e sized =
    let rest = drop_add-append (length src) front (replicate m 0) in
    rw (e, take-append front (replicate m 0), rest, drop_zeros (length src) m n sized)
      (sym (append_assoc front src (replicate n 0)))

-- The three arrays fill the buffer behind its first 19 bytes.
fill :
    (front : Bytes) (h : Handshake)
    → IsSized h
    → length front ≡ 19
    → overwrite
        (overwrite (overwrite (front ++ replicate 48 0) 19 h.reserved) 27 h.info_hash)
        47
        h.peer_id
      ≡ front ++ (h.reserved ++ (h.info_hash ++ h.peer_id))
fill front h s e =
    let r = h.reserved in
    let i = h.info_hash in
    let l₁ = length-append front r in
    let l₂ = length-append (front ++ r) i in
    let first = overwrite_next front r 19 48 40 (sym e) (omega (arith, s.reserved_sized)) in
    let second =
      overwrite_next (front ++ r) i 27 40 20 (omega (arith, l₁, s.reserved_sized))
        (omega (arith, s.info_hash_sized)) in
    let third =
      overwrite_next ((front ++ r) ++ i) h.peer_id 47 20 0
        (omega (arith, l₁, l₂, s.reserved_sized, s.info_hash_sized))
        (omega (arith, s.peer_id_sized)) in
    rw (first, second, third) (simp (append-nil, append_assoc))

-- The five parts, one behind the other.
abbrev laid_out : Handshake → Bytes → Bytes
laid_out h rest = 18 ∷ (handshake_protocol ++ (h.reserved ++ (h.info_hash ++ (h.peer_id ++ rest))))

encode-eq : (h : Handshake) (rest : Bytes) → IsSized h → encode h ++ rest ≡ laid_out h rest
unfolding encode
encode-eq h rest s =
    ap (λ b. b ++ rest) (fill (18 ∷ handshake_protocol) h s refl) ∙ simp append_assoc

protocol_same : same_id handshake_protocol handshake_protocol ≡ true
unfolding same_id
protocol_same = refl

length-laid_out :
    (h : Handshake) (rest : Bytes) → IsSized h → length (laid_out h rest) ≡ 67 + length rest
length-laid_out h rest s = omega (
  arith,
  length-append h.reserved (h.info_hash ++ (h.peer_id ++ rest)),
  length-append h.info_hash (h.peer_id ++ rest),
  length-append h.peer_id rest,
  s.reserved_sized,
  s.info_hash_sized,
  s.peer_id_sized,
)

-- The parts read back.
take_sized : (n : ℕ) (xs ys : Bytes) → length xs ≡ n → take n (xs ++ ys) ≡ xs
take_sized n xs ys e = rw (← e) (take-append xs ys)

drop_sized : (n : ℕ) (xs ys : Bytes) → length xs ≡ n → drop n (xs ++ ys) ≡ ys
drop_sized n xs ys e = rw (← e) (drop-append xs ys)

drop_two :
    (xs ys rest : Bytes) → length xs ≡ 8 → length ys ≡ 20 → drop 28 (xs ++ (ys ++ rest)) ≡ rest
drop_two xs ys rest ex ey =
    rw (← append_assoc xs ys rest)
      (drop_sized 28 (xs ++ ys) rest (omega (arith, length-append xs ys)))

decode-laid_out :
    (h : Handshake) (rest : Bytes)
    → IsSized h
    → decode (laid_out h rest) ≡ ok (record h { supports_metadata = has_flag h.reserved })
unfolding decode
decode-laid_out h rest s =
    let r = h.reserved in
    let i = h.info_hash in
    let p = h.peer_id in
    ground (
      arith,
      length-laid_out h rest s,
      protocol_same,
      take_sized 8 r (i ++ (p ++ rest)) s.reserved_sized,
      drop_sized 8 r (i ++ (p ++ rest)) s.reserved_sized,
      take_sized 20 i (p ++ rest) s.info_hash_sized,
      drop_two r i (p ++ rest) s.reserved_sized s.info_hash_sized,
      take_sized 20 p rest s.peer_id_sized,
    )

-- A handshake with arrays of their size, with any bytes behind its encoding, is decoded as it was,
-- except that its metadata flag is read off the reserved bytes.
pub handshake-decode-encode :
    (h : Handshake) (rest : Bytes)
    → IsSized h
    → decode (encode h ++ rest) ≡ ok (record h { supports_metadata = has_flag h.reserved })
handshake-decode-encode h rest s = rw (encode-eq h rest s) (decode-laid_out h rest s)
