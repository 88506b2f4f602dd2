-- ===== src/Format/QvsFile/RoundTrip.antt =====
-- crates/qvs-format/src/qvs_file.rs: a file that is encoded is decoded again.
use qvod_player.Prelude.{◌≡◌}
use qvod_player.Core.Outcome.{ok, ◌>>=◌}
use qvod_player.Format.Bencode.Defs.{dict, as_dict}
use qvod_player.Format.Bencode.RoundTrip.{decode_all-encode_whole}
use qvod_player.Format.QvsFile.Defs.{QvsFile, encode, decode}
use qvod_player.Format.QvsFile.Entries.{
  IsFile, in_order, to_dict-in_order, in_order-IsValue, from_dict-in_order,
}

-- A file is read back from its encoding, with or without its key frame index, when its texts are
-- UTF-8, its hashes have 20 bytes, its numbers 64 bits, and no string is longer than a Vec can be.
pub decode-encode_file : (f : QvsFile) → IsFile f → (encode f >>= decode) ≡ ok f
unfolding encode decode as_dict
decode-encode_file f h =
    rw (to_dict-in_order f, decode_all-encode_whole (dict (in_order f)) (in_order-IsValue f h))
      (from_dict-in_order f h)
