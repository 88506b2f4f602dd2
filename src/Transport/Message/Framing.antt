-- ===== src/Transport/Message/Framing.antt =====
-- What `decode` accepts: exactly the encodings, with any bytes behind them.
use qvod_player.Prelude.{
  suc, ◌+◌, ◌-◌, ◌^◌, ◌<◌, ◌≡◌, ◌↔◌, ap, some, [], ◌∷◌, ◌++◌, arith, length, length-take,
  length-drop, take-append-drop, take, drop, Bytes, All, IsByte, to_be32-from_be32, from_be32-lt,
  u32, from_be32, ◌≤◌, Option-cases,
}
use qvod_player.Core.Error.{ok}
use qvod_player.Transport.Message.MsgId.{from_u8, to_u8_of_from_u8}
use qvod_player.Transport.Message.Parse.{PeerMessage, at, be32_at, encode, decode}
use qvod_player.Transport.Message.RoundTrip.{decode-encode}

-- What an accepted buffer satisfies: the three length tests and the identifier.
accepted :
    (bs : Bytes) (m : PeerMessage)
    → decode bs ≡ ok m
    → (4 ≤ length bs)
      × (0 < be32_at bs 0)
      × (4 + be32_at bs 0 ≤ length bs)
      × (from_u8 (at bs 4) ≡ some m.msg_id)
      × (m.payload ≡ take (4 + be32_at bs 0 - 5) (drop 5 bs))
unfolding decode
accepted bs m h = ground (arith, Option-cases (from_u8 (at bs 4)))

payload-length :
    (bs : Bytes) (m : PeerMessage) → decode bs ≡ ok m → suc (length m.payload) ≡ be32_at bs 0
payload-length bs m h =
    let (l, p, t, i, e) = accepted bs m h in
    omega (
      arith,
      ap length e,
      length-take (4 + be32_at bs 0 - 5) (drop 5 bs),
      length-drop 5 bs,
      accepted bs m h,
    )

-- An accepted buffer starts with the encoding of the message.
decode_sound :
    (bs : Bytes) (m : PeerMessage)
    → All IsByte bs
    → decode bs ≡ ok m
    → (rest : Bytes) × (bs ≡ encode m ++ rest)
unfolding encode
decode_sound [] m hb h = absurd (omega (arith, accepted [] m h))
decode_sound (a ∷ []) m hb h = absurd (omega (arith, accepted (a ∷ []) m h))
decode_sound (a ∷ b ∷ []) m hb h = absurd (omega (arith, accepted (a ∷ b ∷ []) m h))
decode_sound (a ∷ b ∷ c ∷ []) m hb h = absurd (omega (arith, accepted (a ∷ b ∷ c ∷ []) m h))
decode_sound (a ∷ b ∷ c ∷ d ∷ []) m hb h = absurd (omega (arith, accepted (a ∷ b ∷ c ∷ d ∷ []) m h))
decode_sound (a ∷ b ∷ c ∷ d ∷ i ∷ tl) m hb h =
    let n = from_be32 a b c d in
    let bs = a ∷ b ∷ c ∷ d ∷ i ∷ tl in
    let (ea, eb, ec, ed) = to_be32-from_be32 a b c d hb.0 hb.1.0 hb.1.1.0 hb.1.1.1.0 in
    let e : u32 (1 + u32 (length m.payload)) ≡ n =
      omega (arith, payload-length bs m h, from_be32-lt a b c d hb.0 hb.1.0 hb.1.1.0 hb.1.1.1.0) in
    let (_, _, _, id, p) = accepted bs m h in
    let behind : m.payload ++ drop (4 + n - 5) tl ≡ tl = rw p (take-append-drop (4 + n - 5) tl) in
    (drop (4 + n - 5) tl, rw (e, ea, eb, ec, ed, to_u8_of_from_u8 i m.msg_id id, behind))

-- For a message whose payload and identifier together are shorter than 2^32 bytes: a buffer of bytes decodes
-- to it exactly when the buffer starts with its encoding.
pub decode_iff :
    (bs : Bytes) (m : PeerMessage)
    → All IsByte bs
    → length m.payload + 1 < 2 ^ 32
    → (decode bs ≡ ok m) ↔ ((rest : Bytes) × (bs ≡ encode m ++ rest))
decode_iff bs m hb hl = (decode_sound bs m hb, λ (rest, e). rw e (decode-encode m rest hl))
