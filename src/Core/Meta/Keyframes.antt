-- ===== src/Core/Meta/Keyframes.antt =====
-- crates/qvs-core/src/types.rs: `FrameType`, `KeyFrameEntry` and `KeyFrameIndex`.
pub mod Nearest
pub mod Segments
use qvod_player.Prelude.{
  ℕ, suc, ◌+◌, ◌-◌, ◌^◌, Bool, true, false, Option, none, some, List, [], ◌∷◌, leb, ltb,
  if◌then◌else◌, length, get_or, u64,
}

pub data FrameType : Type 0 where
  i_frame p_frame b_frame : FrameType

pub record KeyFrameEntry : Type 0 where
  pub timestamp_ms : ℕ
  pub file_offset : ℕ
  pub frame_size : ℕ
  pub frame_type : FrameType

abbrev pub KeyFrameIndex : Type 0
KeyFrameIndex = List KeyFrameEntry

unfoldable pub new : KeyFrameIndex
new = []

abbrev pub is_i : FrameType → Bool
is_i i_frame = true
is_i _ = false

-- The inner `match best` for an I frame that is not behind the time.
unfoldable pub better : ℕ → KeyFrameEntry → Option KeyFrameEntry → Option KeyFrameEntry
better t e none = some e
better t e (some current) =
    if ltb (t - e.timestamp_ms) (t - current.timestamp_ms) then some e else some current

unfoldable pub nearest_loop : ℕ → Option KeyFrameEntry → KeyFrameIndex → Option KeyFrameEntry
unfolding better
nearest_loop t best [] = best
nearest_loop t best (e ∷ es) =
    nearest_loop t
      (if is_i e.frame_type then if leb e.timestamp_ms t then better t e best else best else best)
      es

unfoldable pub find_nearest_i_frame : KeyFrameIndex → ℕ → Option KeyFrameEntry
unfolding nearest_loop
find_nearest_i_frame entries t = nearest_loop t none entries

unfoldable pub find_all_i_frames : KeyFrameIndex → List KeyFrameEntry
find_all_i_frames [] = []
find_all_i_frames (e ∷ es) =
    if is_i e.frame_type then e ∷ find_all_i_frames es else find_all_i_frames es

abbrev no_entry : KeyFrameEntry
no_entry = record { timestamp_ms = 0; file_offset = 0; frame_size = 0; frame_type = i_frame }

-- The end of a segment: the offset of the next I frame, or the end of the last one.
unfoldable pub segment_end : List KeyFrameEntry → ℕ → ℕ
segment_end frames i =
    if ltb (i + 1) (length frames)
    then (get_or frames (i + 1) no_entry).file_offset
    else u64 ((get_or frames i no_entry).file_offset + (get_or frames i no_entry).frame_size)

unfoldable pub segment_at : KeyFrameIndex → ℕ → Option (ℕ × ℕ)
unfolding segment_end find_all_i_frames
segment_at entries i =
    let frames = find_all_i_frames entries in
    if leb (length frames) i
    then none
    else let start = (get_or frames i no_entry).file_offset in
      some (start, u64 (segment_end frames i + 2 ^ 64 - start))
