-- ===== src/Format/Uri/RoundTrip.antt =====
-- crates/qvs-format/src/uri.rs: an address that is printed is parsed again.
use qvod_player.Prelude.{
  ℕ, ◌^◌, ◌<◌, ◌≡◌, refl, ap, ◌∙◌, true, false, ◌||◌, ◌-◌, [], ◌∷◌, ◌++◌, ◌==◌, length, arith,
  Bytes, IsByte, All, ascii, print, parse_unsigned-print, Digits, Digits-print, strip_prefix,
  strip_suffix-append, split, split_part, split-append, append_assoc, Bool-cases, inl, inr,
}
use qvod_player.Core.Outcome.{ok}
use qvod_player.Core.Hex.{hex_encode, All-hex_encode, length-hex_encode}
use qvod_player.Core.InfoHash as InfoHash
use qvod_player.Core.InfoHash.{to_string-hex_encode, from_str-to_string}
use qvod_player.Format.Uri.Defs.{
  QvodUri, MediaUri, qvod, http, file, to_string, from_fields, from_parts, from_str, url_filename,
  media_from_str, media_to_string, starts_with,
}

abbrev pub HasNoPipe : Bytes → Type 0
HasNoPipe s = All (λ c. (c == b'|') ≡ false) s

abbrev pub IsName : Bytes → Type 0
IsName [] = ⊥
IsName (c ∷ s) = HasNoPipe (c ∷ s)

abbrev pub IsUri : QvodUri → Type 0
IsUri u =
    (length u.info_hash ≡ 20)
    × All IsByte u.info_hash
    × IsName u.filename
    × (u.filesize < 2 ^ 64)
    × IsName u.format

HasNoPipe-IsName : (s : Bytes) → IsName s → HasNoPipe s
HasNoPipe-IsName [] h = tt
HasNoPipe-IsName (c ∷ s) h = h

HasNoPipe-Digits : (s : Bytes) → Digits s → HasNoPipe s
HasNoPipe-Digits [] h = tt
HasNoPipe-Digits (c ∷ s) (d, h) = (ground (arith, d), HasNoPipe-Digits s h)

low-HasNoPipe : (s : Bytes) → All (λ c. c < 0x67) s → HasNoPipe s
low-HasNoPipe [] h = tt
low-HasNoPipe (c ∷ s) (lt, h) = (ground (arith, lt), low-HasNoPipe s h)

-- The four parts without the last bar.
abbrev body : Bytes → Bytes → Bytes → Bytes → Bytes
body a b c d = a ++ b'|' ∷ (b ++ b'|' ∷ (c ++ b'|' ∷ d))

body-append :
    (a b c d : Bytes)
    → a ++ b'|' ∷ (b ++ b'|' ∷ (c ++ b'|' ∷ (d ++ b'|' ∷ []))) ≡ body a b c d ++ b'|' ∷ []
body-append a b c d =
    rw
      (
        append_assoc a (b'|' ∷ (b ++ b'|' ∷ (c ++ b'|' ∷ d))) (b'|' ∷ []),
        append_assoc b (b'|' ∷ (c ++ b'|' ∷ d)) (b'|' ∷ []),
        append_assoc c (b'|' ∷ d) (b'|' ∷ []),
      )
      refl

split-body :
    (a b c d : Bytes)
    → HasNoPipe a
    → HasNoPipe b
    → HasNoPipe c
    → HasNoPipe d
    → split b'|' (body a b c d) ≡ a ∷ b ∷ c ∷ d ∷ []
split-body a b c d ha hb hc hd =
    rw
      (
        split-append b'|' a (b ++ b'|' ∷ (c ++ b'|' ∷ d)) ha,
        split-append b'|' b (c ++ b'|' ∷ d) hb,
        split-append b'|' c d hc,
        split_part b'|' d hd,
      )
      refl

from_fields-to_string :
    (hash name format : Bytes) (size : ℕ)
    → length hash ≡ 20
    → All IsByte hash
    → IsName name
    → size < 2 ^ 64
    → IsName format
    → from_fields (InfoHash.to_string hash) name (print size) format
      ≡ ok (record { info_hash = hash; filename = name; filesize = size; format = format })
unfolding from_fields
from_fields-to_string hash [] format size len bytes hn lt hf = elim hn [ ]
from_fields-to_string hash (n ∷ name) [] size len bytes hn lt hf = elim hf [ ]
from_fields-to_string hash (n ∷ name) (f ∷ format) size len bytes hn lt hf =
    let printed = ap length (to_string-hex_encode hash) in
    let forty : (length (InfoHash.to_string hash) == 40) ≡ true =
      ground (arith, printed, length-hex_encode hash, len) in
    rw
      (
        forty,
        from_str-to_string hash len bytes,
        parse_unsigned-print (2 ^ 64 - 1) size (omega arith),
      )
      refl

-- A text with the long prefix, four parts and the bar at its end.
from_str-body :
    (a b c d : Bytes)
    → HasNoPipe a
    → HasNoPipe b
    → HasNoPipe c
    → HasNoPipe d
    → from_str (ascii "qvod://" ++ (body a b c d ++ b'|' ∷ [])) ≡ from_fields a b c d
unfolding from_str strip_prefix from_parts
from_str-body a b c d ha hb hc hd =
    rw (strip_suffix-append b'|' (body a b c d), split-body a b c d ha hb hc hd) refl

-- An address is read back from its text: twenty bytes of hash, a size of 64 bits, and a name and a
-- format that are not empty and hold no bar.
pub from_str-to_string_uri : (u : QvodUri) → IsUri u → from_str (to_string u) ≡ ok u
unfolding to_string
from_str-to_string_uri u (len, bytes, name, lt, format) =
    let hash = InfoHash.to_string u.info_hash in
    let no_pipe : HasNoPipe hash =
      rw (to_string-hex_encode u.info_hash)
        (low-HasNoPipe (hex_encode u.info_hash) (All-hex_encode u.info_hash bytes)) in
    rw (body-append hash u.filename (print u.filesize) u.format) (
      from_str-body hash u.filename (print u.filesize) u.format no_pipe
        (HasNoPipe-IsName u.filename name)
        (HasNoPipe-Digits (print u.filesize) (Digits-print u.filesize))
        (HasNoPipe-IsName u.format format)
      ∙ from_fields-to_string u.info_hash u.filename u.format u.filesize len bytes name lt format)

-- The media addresses that the parser yields.
abbrev pub IsMedia : MediaUri → Type 0
IsMedia (qvod u) = IsUri u
IsMedia (http h) =
    ((starts_with h.url (ascii "http://") || starts_with h.url (ascii "https://")) ≡ true)
    × (h.filename ≡ url_filename h.url)
IsMedia (file path) = Unit

from_str-media : (u : QvodUri) → IsUri u → media_from_str (to_string u) ≡ ok (qvod u)
unfolding media_from_str
from_str-media u h =
    let starts : starts_with (to_string u) (ascii "qvod://") ≡ true =
      unfold to_string strip_prefix in refl in
    rw (starts, from_str-to_string_uri u h) refl

-- No prefix of one scheme fits an address of the other.
not_qvod :
    (s : Bytes)
    → (starts_with s (ascii "http://") || starts_with s (ascii "https://")) ≡ true
    → (starts_with s (ascii "qvod://") || starts_with s (ascii "qvod:")) ≡ false
unfolding strip_prefix
not_qvod [] h = cc
not_qvod (c ∷ s) h = elim (Bool-cases (b'h' == c)) [
  | inl p ↦ let other : (b'q' == c) ≡ false = ground (arith, p) in rw other refl
  | inr p ↦
      let neither : (starts_with (c ∷ s) (ascii "http://")
            || starts_with (c ∷ s) (ascii "https://"))
          ≡ false =
        rw p refl in
      cc neither
]

-- What is printed is parsed again to the same address: for any path, for an HTTP address with the name that
-- its URL gives, and for a qvod address with twenty bytes of hash, a size of 64 bits, and a name and a
-- format that are not empty and hold no bar.
pub media_from_str-media_to_string :
    (m : MediaUri) → IsMedia m → media_from_str (media_to_string m) ≡ ok m
unfolding media_to_string
media_from_str-media_to_string (qvod u) h = from_str-media u h
media_from_str-media_to_string (http h) (s, e) =
    unfold media_from_str in rw (not_qvod h.url s, s, ← e) refl
media_from_str-media_to_string (file path) h = unfold media_from_str strip_prefix in refl
