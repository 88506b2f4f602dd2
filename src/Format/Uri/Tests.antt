-- ===== src/Format/Uri/Tests.antt =====
-- crates/qvs-format/src/uri.rs: addresses like those of the tests of the source.
use qvod_player.Prelude.{◌≡◌, refl, arith, ascii, replicate, replicate-All, IsByte}
use qvod_player.Core.Outcome.{ok}
use qvod_player.Format.Uri.Defs.{QvodUri, qvod, media_from_str, media_to_string}
use qvod_player.Format.Uri.RoundTrip.{IsUri, media_from_str-media_to_string}

abbrev sample : QvodUri
sample = record {
  info_hash = replicate 20 0xA1;
  filename = ascii "movie.mp4";
  filesize = 734003200;
  format = ascii "rmvb";
}

sample-IsUri : IsUri sample
sample-IsUri = (
  refl,
  replicate-All IsByte 20 0xA1 (omega arith),
  (refl, (refl, (refl, (refl, (refl, (refl, (refl, (refl, (refl, tt))))))))),
  omega arith,
  (refl, (refl, (refl, (refl, tt)))),
)

media_from_str-media_to_string_example :
    media_from_str (media_to_string (qvod sample)) ≡ ok (qvod sample)
media_from_str-media_to_string_example = media_from_str-media_to_string (qvod sample) sample-IsUri
