-- ===== src/Core/Meta/Keyframes/Segments.antt =====
-- The segments between I frames.
use qvod_player.Prelude.{ℕ, ◌+◌, ◌-◌, ◌^◌, ◌≤◌, ◌<◌, ◌≡◌, some, length, get_or, u64, arith}
use qvod_player.Core.Meta.Keyframes.{
  KeyFrameIndex, no_entry, find_all_i_frames, segment_end, segment_at,
}

-- The file offset of the I frame with a number.
abbrev pub frame_offset : KeyFrameIndex → ℕ → ℕ
frame_offset es i = (get_or (find_all_i_frames es) i no_entry).file_offset

wrap_sub : (a b : ℕ) → a ≤ b → b < 2 ^ 64 → u64 (b + 2 ^ 64 - a) ≡ b - a
wrap_sub a b le lt = omega arith

-- Where the offsets of two neighbouring I frames are in order and fit 64 bits, the segment of the first
-- starts at its offset and ends where the segment of the second starts.
pub segment_at-segment_at :
    (es : KeyFrameIndex) (i : ℕ)
    → i + 1 < length (find_all_i_frames es)
    → frame_offset es i ≤ frame_offset es (i + 1)
    → frame_offset es (i + 1) < 2 ^ 64
    → (len next : ℕ) × (segment_at es i ≡ some (frame_offset es i, len))
      × (segment_at es (i + 1) ≡ some (frame_offset es i + len, next))
unfolding segment_at segment_end
segment_at-segment_at es i inside le lt =
    let a = frame_offset es i in
    let b = frame_offset es (i + 1) in
    let e : a + (b - a) ≡ b = omega arith in
    let w = wrap_sub a b le lt in
    (
      b - a,
      u64 (segment_end (find_all_i_frames es) (i + 1) + 2 ^ 64 - b),
      ground (arith, w),
      rw e (ground arith),
    )
