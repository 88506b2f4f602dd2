-- ===== src/Stream/Buffer/Defs.antt =====
-- crates/qvs-stream/src/buffer.rs: the record `RingBuffer` and its methods. `u64` sums and differences
-- wrap; a plain `-` stands where the code has tested that the difference is not negative, or where it
-- saturates.
use qvod_player.Prelude.{
  ℕ, ◌+◌, ◌-◌, ◌^◌, Bool, not, ◌&&◌, ◌||◌, Option, none, some, [], ◌∷◌, ◌==◌, ltb, leb,
  if◌then◌else◌, min, length, take, slice, replicate, overwrite, Bytes, u64,
}
use qvod_player.Stream.Buffer.Ranges.{Ranges, insert, merge_range, any_holds}

pub record RingBuffer : Type 0 where
  pub capacity : ℕ
  pub bytes : Bytes
  pub file_offset : ℕ
  pub filled : Ranges
  pub play_position : ℕ
  pub total_size : ℕ

unfoldable pub new : ℕ → ℕ → RingBuffer
new capacity total = record {
  capacity = capacity;
  bytes = replicate capacity 0;
  file_offset = 0;
  filled = [];
  play_position = 0;
  total_size = total;
}

-- `(x as i64 - shift).max(0) as u64`, for a `shift` below 2 ^ 63: a number of 2 ^ 63 or more is
-- negative as an `i64`, and a difference below -2 ^ 63 wraps.
abbrev pub sub_i64 : ℕ → ℕ → ℕ
sub_i64 x shift =
    if ltb x (2 ^ 63) then x - shift else if leb shift (x - 2 ^ 63) then 0 else x - shift

-- The two loops of `slide_to` over the old ranges, in order.
unfoldable pub slide_back : ℕ → Ranges → Ranges → Ranges
slide_back shift [] out = out
slide_back shift (r ∷ rs) out =
    let s = sub_i64 r.start shift in
    let e = sub_i64 r.end shift in
    slide_back shift rs (if ltb s e then insert (record { start = s; end = e }) out else out)

unfoldable pub slide_on : ℕ → ℕ → Ranges → Ranges → Ranges
slide_on new_offset capacity [] out = out
slide_on new_offset capacity (r ∷ rs) out =
    let s = r.start - new_offset in
    let e = r.end - new_offset in
    slide_on new_offset capacity rs (
      if ltb s e && ltb s capacity
      then insert (record { start = s; end = min e capacity }) out
      else out)

-- The data of a backward slide: the old data `shift` further on, cut at the capacity.
unfoldable pub shifted_back : ℕ → ℕ → Bytes → Bytes
shifted_back capacity shift bytes =
    let copy_end = min (shift + length bytes) capacity in
    overwrite (replicate capacity 0) shift (take (copy_end - shift) bytes)

unfoldable pub slide_backward : RingBuffer → ℕ → RingBuffer
unfolding slide_back shifted_back
slide_backward b new_offset =
    let shift = b.file_offset - new_offset in
    if leb b.capacity shift
    then record b { bytes = replicate (length b.bytes) 0; filled = []; file_offset = new_offset }
    else record b {
      bytes = shifted_back b.capacity shift b.bytes;
      filled = slide_back shift b.filled [];
      file_offset = new_offset;
    }

unfoldable pub slide_forward : RingBuffer → ℕ → RingBuffer
unfolding slide_on
slide_forward b new_offset =
    let shift = new_offset - b.file_offset in
    if leb b.capacity shift
    then record b {
      bytes = replicate (length b.bytes) 0;
      filled = slide_on new_offset b.capacity [] [];
      file_offset = new_offset;
    }
    else let new_len = b.capacity - shift in
      record b {
        bytes = overwrite (replicate b.capacity 0) 0 (slice b.bytes shift (shift + new_len));
        filled = slide_on new_offset b.capacity b.filled [];
        file_offset = new_offset;
      }

unfoldable pub slide_to : RingBuffer → ℕ → RingBuffer
unfolding slide_backward slide_forward
slide_to b new_offset =
    if new_offset == b.file_offset
    then b
    else if ltb b.file_offset new_offset
    then slide_forward b new_offset
    else slide_backward b new_offset

-- The copy of `write` into the window, where it fits the buffer.
unfoldable pub store : RingBuffer → ℕ → Bytes → RingBuffer
store b offset bytes =
    let at = offset - b.file_offset in
    let write_len = min (length bytes) (b.capacity - at) in
    if ltb at b.capacity && leb (at + write_len) (length b.bytes)
    then record b { bytes = overwrite b.bytes at (take write_len bytes) }
    else b

-- The two slides of `write`, for data that ends at `end`.
unfoldable pub make_room : RingBuffer → ℕ → ℕ → RingBuffer
unfolding slide_to
make_room b offset end =
    let back = if ltb offset b.file_offset then slide_to b offset else b in
    let target = min (end - back.capacity) (back.total_size - back.capacity) in
    if ltb (u64 (back.file_offset + back.capacity)) end then slide_to back target else back

unfoldable pub write : RingBuffer → ℕ → Bytes → RingBuffer
unfolding make_room store
write b offset input =
    if leb b.total_size offset || length input == 0
    then b
    else let end = min (u64 (offset + length input)) b.total_size in
      let bytes = take (u64 (2 ^ 64 + end - offset)) input in
      let stop = u64 (offset + length bytes) in
      let stored = store (make_room b offset stop) offset bytes in
      record stored { filled = merge_range offset stop stored.filled }

unfoldable pub is_range_filled : RingBuffer → ℕ → ℕ → Bool
is_range_filled b offset len = any_holds b.filled offset (u64 (offset + len))

-- The part of `read` behind its first test.
unfoldable pub read_window : RingBuffer → ℕ → ℕ → Option Bytes
read_window b at len =
    if ltb b.capacity (u64 (at + len))
    then none
    else if ltb (length b.bytes) (at + len)
    then none
    else some (slice b.bytes at (at + len))

unfoldable pub read : RingBuffer → ℕ → ℕ → Option Bytes
unfolding is_range_filled read_window
read b offset len =
    if not (is_range_filled b offset len) then none else read_window b (offset - b.file_offset) len

unfoldable pub is_playable : RingBuffer → Bool
unfolding is_range_filled
is_playable b = is_range_filled b 0 (min (min b.total_size 262144) b.capacity)

unfoldable pub set_play_position : RingBuffer → ℕ → RingBuffer
set_play_position b p = record b { play_position = p }

unfoldable pub clear : RingBuffer → RingBuffer
clear b = record b {
  filled = [];
  bytes = replicate (length b.bytes) 0;
  file_offset = 0;
  play_position = 0;
}
