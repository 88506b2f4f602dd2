-- ===== src/Format/QvsFile/Tests.antt =====
-- crates/qvs-format/src/qvs_file.rs: the file of the tests of the source.
use qvod_player.Prelude.{◌≡◌, refl, arith, [], ◌∷◌, some, replicate, ascii, is_utf8}
use qvod_player.Core.Outcome.{ok, ◌>>=◌}
use qvod_player.Format.QvsFile.Defs.{QvsFile, concat, encode, decode}
use qvod_player.Format.QvsFile.Entries.{IsFile}
use qvod_player.Format.QvsFile.RoundTrip.{decode-encode_file}

abbrev sample : QvsFile
sample = record {
  info_hash = replicate 20 0;
  filename = ascii "test.mp4";
  file_size = 1024;
  piece_length = 256;
  pieces = replicate 20 1 ∷ replicate 20 2 ∷ [];
  trackers = ascii "http://tracker.example.com/announce" ∷ [];
  keyframe_index = some (0 ∷ 1 ∷ 2 ∷ 3 ∷ []);
}

sample-IsFile : IsFile sample
unfolding concat is_utf8
sample-IsFile = (
  refl,
  (refl, omega arith),
  omega arith,
  omega arith,
  (refl, (refl, tt)),
  omega arith,
  ((refl, omega arith), tt),
  omega arith,
)

decode-encode_file_example : (encode sample >>= decode) ≡ ok sample
decode-encode_file_example = decode-encode_file sample sample-IsFile
