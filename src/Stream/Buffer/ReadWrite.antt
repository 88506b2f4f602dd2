-- ===== src/Stream/Buffer/ReadWrite.antt =====
-- Reading and writing within the window that the buffer holds: no slide takes place.
use qvod_player.Prelude.{
  ℕ, ◌+◌, ◌-◌, ◌^◌, ◌≤◌, ◌<◌, ◌≡◌, true, some, arith, min, length, overwrite, Bytes, u64, take_all,
  length-overwrite, slice-overwrite,
}
use qvod_player.Stream.Buffer.Ranges.{Ranges, merge_range, any_holds}
use qvod_player.Stream.Buffer.Merge.{Separate}
use qvod_player.Stream.Buffer.Coverage.{merge_range-covers, any_holds_iff}
use qvod_player.Stream.Buffer.Defs.{RingBuffer, store, make_room, write, read}

-- What holds of a buffer between two calls, as long as it has not slid.
pub record IsSound (b : RingBuffer) : Type 0 where
  pub sized : length b.bytes ≡ b.capacity
  pub separate : Separate 0 b.filled
  pub window_fits : b.file_offset + b.capacity < 2 ^ 64
  pub total_fits : b.total_size < 2 ^ 64

-- The piece lies in the window and in the file, and is not empty.
pub record InWindow (b : RingBuffer) (offset len : ℕ) : Type 0 where
  pub not_empty : 0 < len
  pub from_start : b.file_offset ≤ offset
  pub to_end : offset + len ≤ b.file_offset + b.capacity
  pub in_file : offset + len ≤ b.total_size

-- What a write in the window leaves.
abbrev pub written : RingBuffer → ℕ → Bytes → RingBuffer
written b offset input = record b {
  bytes = overwrite b.bytes (offset - b.file_offset) input;
  filled = merge_range offset (offset + length input) b.filled;
}

make_room_window :
    (b : RingBuffer) (offset len : ℕ)
    → IsSound b
    → InWindow b offset len
    → make_room b offset (offset + len) ≡ b
unfolding make_room
make_room_window b offset len s w = ground arith

store_window :
    (b : RingBuffer) (offset : ℕ) (input : Bytes)
    → IsSound b
    → InWindow b offset (length input)
    → store b offset input ≡ record b { bytes = overwrite b.bytes (offset - b.file_offset) input }
unfolding store
store_window b offset input s w =
    let e : min (length input) (b.capacity - (offset - b.file_offset)) ≡ length input =
      omega arith in
    rw (e, take_all) (ground arith)

write_window :
    (b : RingBuffer) (offset : ℕ) (input : Bytes)
    → IsSound b
    → InWindow b offset (length input)
    → write b offset input ≡ written b offset input
unfolding write
write_window b offset input s w =
    let stop : min (u64 (offset + length input)) b.total_size ≡ offset + length input =
      omega arith in
    let len : u64 (2 ^ 64 + (offset + length input) - offset) ≡ length input = omega arith in
    let sum : u64 (offset + length input) ≡ offset + length input = omega arith in
    ground (
      arith,
      stop,
      len,
      sum,
      take_all input,
      make_room_window b offset (length input) s w,
      store_window b offset input s w,
    )

-- A new buffer is sound, and a write in the window keeps it so.
pub write-IsSound :
    (b : RingBuffer) (offset : ℕ) (input : Bytes)
    → IsSound b
    → InWindow b offset (length input)
    → IsSound (write b offset input)
write-IsSound b offset input s w = rw (write_window b offset input s w) (record {
  sized = omega (
    arith,
    s.sized,
    length-overwrite b.bytes (offset - b.file_offset) input (omega (arith, s.sized)),
  );
  separate =
      (merge_range-covers offset (offset + length input) 0 b.filled (omega arith) s.separate).0;
  window_fits = s.window_fits;
  total_fits = s.total_fits;
})

-- What was just written in the window is read back.
pub read-write :
    (b : RingBuffer) (offset : ℕ) (input : Bytes)
    → IsSound b
    → InWindow b offset (length input)
    → read (write b offset input) offset (length input) ≡ some input
unfolding read
read-write b offset input s w =
    let at = offset - b.file_offset in
    let stop = offset + length input in
    let (sep, cov) = merge_range-covers offset stop 0 b.filled (omega arith) s.separate in
    let held : any_holds (merge_range offset stop b.filled) offset stop ≡ true =
      (any_holds_iff offset stop 0 _ (omega arith) sep).1 (λ x hx hy. ground (arith, cov x)) in
    let sum : u64 stop ≡ stop = omega arith in
    rw (write_window b offset input s w) (
      ground (
        arith,
        held,
        sum,
        length-overwrite b.bytes at input (omega (arith, s.sized)),
        slice-overwrite b.bytes at input (omega (arith, s.sized)),
      ))
