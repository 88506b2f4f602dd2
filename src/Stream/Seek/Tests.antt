-- ===== src/Stream/Seek/Tests.antt =====
-- The seek theorems at concrete inputs.
use qvod_player.Prelude.{
  ascii, ◌+◌, ◌^◌, ◌≤◌, ◌<◌, ◌≡◌, refl, false, none, some, [], ◌∷◌, arith, length,
}
use qvod_player.Core.Error.{ok}
use qvod_player.Core.Meta.{num_pieces}
use qvod_player.Core.Meta.Keyframes
use qvod_player.Core.Meta.Keyframes.{
  KeyFrameEntry, KeyFrameIndex, is_i, i_frame, p_frame, find_nearest_i_frame, find_all_i_frames,
  segment_at,
}
use qvod_player.Core.Meta.Keyframes.Nearest.{IsNearest, find_nearest_i_frame-IsNearest}
use qvod_player.Core.Meta.Keyframes.Segments.{frame_offset}
use qvod_player.Stream.Seek.Defs.{SeekEngine, find_nearest_keyframe}

abbrev index : KeyFrameIndex
index =
    record { timestamp_ms = 0; file_offset = 0; frame_size = 10; frame_type = i_frame }
    ∷ record { timestamp_ms = 3000; file_offset = 400; frame_size = 10; frame_type = p_frame }
    ∷ record { timestamp_ms = 5000; file_offset = 600; frame_size = 10; frame_type = i_frame }
    ∷ []

abbrev engine : SeekEngine
engine = record {
  metadata = record {
    info_hash = [];
    filename = ascii "film";
    file_size = 1000;
    piece_length = 300;
    pieces = [];
    keyframe_index = some index;
    duration_ms = 9000;
    video_codec = none;
    audio_codec = none;
    width = 0;
    height = 0;
    bitrate = 0;
    from_cache = false;
  };
}

find_nearest_i_frame-IsNearest_example : IsNearest 4000 index (find_nearest_i_frame index 4000)
find_nearest_i_frame-IsNearest_example = find_nearest_i_frame-IsNearest index 4000

two_frames : 0 + 1 < length (find_all_i_frames index)
unfolding find_all_i_frames
two_frames = omega arith

in_order : frame_offset index 0 ≤ frame_offset index (0 + 1)
unfolding find_all_i_frames
in_order = omega arith

fits : frame_offset index (0 + 1) < 2 ^ 64
unfolding find_all_i_frames
fits = omega arith

seek_run : find_nearest_keyframe engine 7000 ≡ ok 600
unfolding find_nearest_keyframe find_nearest_i_frame Keyframes.nearest_loop Keyframes.better
seek_run = refl

four : num_pieces engine.metadata ≡ some 4
unfolding num_pieces
four = refl
