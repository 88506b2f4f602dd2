-- ===== src/Format/Bencode/Wrap.antt =====
-- crates/qvs-format/src/bencode.rs: a string whose announced length wraps around.
use qvod_player.Prelude.{
  ℕ, suc, ◌+◌, ◌*◌, ◌^◌, ◌≤◌, ◌<◌, ◌≡◌, refl, ap, ◌∙◌, true, ◌∷◌, ◌++◌, leb, length, arith, Bytes,
  print, print-cons,
}
use qvod_player.Core.Outcome.{panics}
use qvod_player.Format.Bencode.Decode.{cut_str, decode_all}
use qvod_player.Format.Bencode.Text.{decode_str-print}
use qvod_player.Format.Bencode.Rounds.{decode-digit}

cut_str-wraps : (bs : Bytes) (start len : ℕ) → 2 ^ 64 ≤ start + len → cut_str bs start len ≡ panics
unfolding cut_str
cut_str-wraps bs start len h =
    let big : leb (2 ^ 64) (start + len) ≡ true = ground (arith, h) in rw big refl

-- A length below 2^64 that comes to 2^64 or more with the digits and the colon in front of it makes the
-- decoder panic, whatever follows, where it means to say that the data are truncated.
pub decode_all-panics :
    (n : ℕ) (rest : Bytes)
    → n < 2 ^ 64
    → 2 ^ 64 ≤ length (print n) + 1 + n
    → decode_all (print n ++ b':' ∷ rest) ≡ panics
unfolding decode_all
decode_all-panics n rest lt h =
    let (c, bs, e, d) = print-cons n in
    let input = print n ++ b':' ∷ rest in
    let first : input ≡ c ∷ (bs ++ b':' ∷ rest) = ap (λ s. s ++ b':' ∷ rest) e in
    let read = decode_str-print n rest lt ∙ cut_str-wraps input (length (print n) + 1) n h in
    let fuel : 2 * length input + 1 ≡ suc (2 * length input) = omega arith in
    rw fuel (decode-digit (2 * length input) c (bs ++ b':' ∷ rest) input first d ∙ rw read refl)
