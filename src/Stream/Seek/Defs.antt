-- ===== src/Stream/Seek/Defs.antt =====
-- crates/qvs-stream/src/seek.rs: `SeekEngine`, which holds the metadata of a file.
use qvod_player.Prelude.{ℕ, ◌/◌, Option, none, some, ◌==◌, if◌then◌else◌, u32}
use qvod_player.Core.Error.{Message, QvodError, Result, ok, err, ◌>>=◌}
use qvod_player.Core.Meta.{FileMeta}
use qvod_player.Core.Meta.Keyframes.{find_nearest_i_frame}

pub record SeekEngine : Type 0 where
  pub metadata : FileMeta

-- `ok_or_else`
abbrev or_err {ℓ} : {A : Type ℓ} → Option A → QvodError → Result A
or_err none e = err e
or_err (some a) e = ok a

unfoldable pub find_nearest_keyframe : SeekEngine → ℕ → Result ℕ
find_nearest_keyframe s t =
    or_err s.metadata.keyframe_index (QvodError.protocol (Message.text "no keyframe index"))
    >>= λ index.
        or_err (find_nearest_i_frame index t)
          (QvodError.protocol (Message.text "no keyframe found"))
        >>= λ entry. ok entry.file_offset

unfoldable pub piece_for_offset : SeekEngine → ℕ → ℕ
piece_for_offset s offset =
    if s.metadata.piece_length == 0 then 0 else u32 (offset / s.metadata.piece_length)
