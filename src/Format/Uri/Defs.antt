-- ===== src/Format/Uri/Defs.antt =====
-- crates/qvs-format/src/uri.rs: `QvodUri` and `MediaUri`. A text is its bytes, in UTF-8. The hash function of
-- the crate `sha1` is a parameter.
use qvod_player.Prelude.{
  ℕ, Bool, true, false, ◌&&◌, ◌||◌, Option, none, some, List, [], ◌∷◌, ◌++◌, leb, ◌==◌, not,
  if◌then◌else◌, length, Bytes, ascii, print, parse_u64, strip_prefix, strip_suffix, split,
  last_part,
}
use qvod_player.Core.Error.{Message, QvodError}
use qvod_player.Core.Outcome.{Outcome, ok, err, ◌>>=◌}
use qvod_player.Core.InfoHash as InfoHash

pub record QvodUri : Type 0 where
  pub info_hash : Bytes
  pub filename : Bytes
  pub filesize : ℕ
  pub format : Bytes

pub record HttpUrl : Type 0 where
  pub url : Bytes
  pub filename : Bytes

pub data MediaUri : Type 0 where
  qvod : QvodUri → MediaUri
  http : HttpUrl → MediaUri
  file : Bytes → MediaUri

abbrev pub invalid {ℓ} : {A : Type ℓ} → Message → Outcome A
invalid m = err (QvodError.invalid_uri m)

-- `qvod://{}|{}|{}|{}|`
unfoldable pub to_string : QvodUri → Bytes
unfolding InfoHash.to_string
to_string u =
    ascii "qvod://"
    ++ (InfoHash.to_string u.info_hash
        ++ b'|' ∷ (u.filename ++ b'|' ∷ (print u.filesize ++ b'|' ∷ (u.format ++ b'|' ∷ []))))

abbrev or_else : Option Bytes → Option Bytes → Option Bytes
or_else (some s) other = some s
or_else none other = other

abbrev or_err {ℓ} : {A : Type ℓ} → Option A → Message → Outcome A
or_err none m = invalid m
or_err (some a) m = ok a

abbrev is_empty : Bytes → Bool
is_empty [] = true
is_empty (c ∷ s) = false

-- The checks of the four parts, from the length of the hash on.
unfoldable pub from_fields : Bytes → Bytes → Bytes → Bytes → Outcome QvodUri
from_fields hash name size format =
    if not (length hash == 40)
    then invalid (Message.with_number "info_hash must be 40 hex chars, got " (length hash))
    else InfoHash.from_str hash >>= λ info_hash.
        if is_empty name
        then invalid (Message.text "filename cannot be empty")
        else or_err (parse_u64 size) (Message.with_parse_error "invalid filesize: ") >>= λ filesize.
            if is_empty format
            then invalid (Message.text "format cannot be empty")
            else ok (record {
              info_hash = info_hash;
              filename = name;
              filesize = filesize;
              format = format;
            })

unfoldable pub from_parts : List Bytes → Outcome QvodUri
unfolding from_fields
from_parts (hash ∷ name ∷ size ∷ format ∷ _) = from_fields hash name size format
from_parts parts =
    invalid (Message.with_number "expected at least 4 pipe-delimited parts, got " (length parts))

-- `QvodUri::from_str`
unfoldable pub from_str : Bytes → Outcome QvodUri
unfolding from_parts
from_str s =
    or_err (or_else (strip_prefix (ascii "qvod://") s) (strip_prefix (ascii "qvod:") s))
      (Message.text "missing qvod:// prefix")
    >>= λ rest.
        or_err (strip_suffix b'|' rest) (Message.text "URI must end with trailing pipe '|'")
        >>= λ trimmed. from_parts (split b'|' trimmed)

abbrev is_some : Option Bytes → Bool
is_some none = false
is_some (some s) = true

abbrev pub starts_with : Bytes → Bytes → Bool
starts_with s prefix = is_some (strip_prefix prefix s)

-- The part behind the last slash, unless it is empty.
unfoldable pub url_filename : Bytes → Bytes
url_filename s =
    let name = last_part (split b'/' s) in if is_empty name then ascii "stream" else name

abbrev is_alphabetic : ℕ → Bool
is_alphabetic c = (leb b'a' c && leb c b'z') || (leb b'A' c && leb c b'Z')

unfoldable pub is_abs_path : Bytes → Bool
is_abs_path s = starts_with s (ascii "/") || starts_with s (ascii "\\\\") || is_drive s
  where
    is_drive : Bytes → Bool
    is_drive (b ∷ c ∷ d ∷ _) = is_alphabetic b && c == b':' && (d == 0x5C || d == b'/')
    is_drive _ = false

abbrev or_path : Option Bytes → Bytes → Outcome MediaUri
or_path (some path) s = ok (file path)
or_path none s =
    if is_abs_path s
    then ok (file s)
    else invalid (
        Message.text
          "unsupported URI scheme (expected qvod://, http(s)://, file://, or a local file path)")

-- `MediaUri::from_str`
unfoldable pub media_from_str : Bytes → Outcome MediaUri
unfolding from_str url_filename is_abs_path
media_from_str s =
    if starts_with s (ascii "qvod://") || starts_with s (ascii "qvod:")
    then (from_str s >>= λ u. ok (qvod u))
    else if starts_with s (ascii "http://") || starts_with s (ascii "https://")
    then ok (http (record { url = s; filename = url_filename s }))
    else or_path (strip_prefix (ascii "file://") s) s

unfoldable pub media_to_string : MediaUri → Bytes
unfolding to_string
media_to_string (qvod u) = to_string u
media_to_string (http h) = h.url
media_to_string (file path) = ascii "file://" ++ path

unfoldable pub media_filename : MediaUri → Bytes
media_filename (qvod u) = u.filename
media_filename (http h) = h.filename
media_filename (file path) = last_part (split 0x5C (last_part (split b'/' path)))

unfoldable pub media_filesize : MediaUri → ℕ
media_filesize (qvod u) = u.filesize
media_filesize (http h) = 0
media_filesize (file path) = 0

module _ (sha1 : Bytes → Bytes) where
  unfoldable pub media_info_hash : MediaUri → Bytes
  media_info_hash (qvod u) = u.info_hash
  media_info_hash (http h) = sha1 h.url
  media_info_hash (file path) = sha1 path
