-- ===== src/Core/Meta.antt =====
-- crates/qvs-core/src/types.rs: `FileMeta`, the key frame index and the piece priorities. The name of a file
-- is its bytes, in UTF-8.
pub mod Keyframes
use qvod_player.Prelude.{
  ℕ, Bool, Option, none, some, List, Bytes, String, ◌+◌, ◌-◌, ◌/◌, ◌==◌, if◌then◌else◌, u32, u64,
}
use Keyframes.{KeyFrameIndex}

pub data PiecePriority : Type 0 where
  critical high normal low : PiecePriority

pub record FileMeta : Type 0 where
  pub info_hash : Bytes
  pub filename : Bytes
  pub file_size : ℕ
  pub piece_length : ℕ
  pub pieces : List Bytes
  pub keyframe_index : Option KeyFrameIndex
  pub duration_ms : ℕ
  pub video_codec : Option String
  pub audio_codec : Option String
  pub width : ℕ
  pub height : ℕ
  pub bitrate : ℕ
  pub from_cache : Bool

-- `(file_size + piece_length - 1) / piece_length` as a `u32`; the division by 0 panics, `none` here.
unfoldable pub num_pieces : FileMeta → Option ℕ
num_pieces m =
    if m.piece_length == 0
    then none
    else some (u32 (u64 (m.file_size + m.piece_length - 1) / m.piece_length))
