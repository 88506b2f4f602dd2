-- ===== src/Stream/Buffer/Tests.antt =====
-- The theorems on the ring buffer at concrete inputs.
use qvod_player.Prelude.{
  ℕ, ◌+◌, ◌<◌, ◌^◌, ◌-◌, ◌≡◌, refl, true, false, ◌&&◌, ◌||◌, none, some, [], ◌∷◌, arith, leb, ltb,
}
use qvod_player.Stream.Buffer.Ranges.{Ranges, merge_range, scan, insert, remove_all, any_holds}
use qvod_player.Stream.Buffer.Merge.{Separate}
use qvod_player.Stream.Buffer.Coverage.{covers, merge_range-covers}
use qvod_player.Stream.Buffer.Defs.{RingBuffer, write, read, slide_to, is_range_filled}
use qvod_player.Stream.Buffer.ReadWrite.{IsSound, read-write}
use qvod_player.Stream.Buffer.Slide.{slide_to_relabels}

abbrev two : Ranges
two = record { start = 2; end = 4 } ∷ record { start = 7; end = 9 } ∷ []

merge_range-covers_example :
    Separate 0 (merge_range 4 7 two)
    × ((x : ℕ) → covers (merge_range 4 7 two) x ≡ ((leb 4 x && ltb x 7) || covers two x))
merge_range-covers_example = merge_range-covers 4 7 0 two (omega arith) (omega arith)

abbrev small : RingBuffer
small = record {
  capacity = 4;
  bytes = 0 ∷ 1 ∷ 2 ∷ 3 ∷ [];
  file_offset = 0;
  filled = record { start = 2; end = 4 } ∷ [];
  play_position = 0;
  total_size = 20;
}

small-IsSound : IsSound small
small-IsSound = omega arith

read-write_example : read (write small 0 (5 ∷ 6 ∷ [])) 0 2 ≡ some (5 ∷ 6 ∷ [])
read-write_example = read-write small 0 (5 ∷ 6 ∷ []) small-IsSound (omega arith)

slide_to_relabels_example :
    (is_range_filled small 2 (4 - 2) ≡ true)
    × (is_range_filled small (2 - 2) (4 - 2) ≡ false)
    × (is_range_filled (slide_to small 2) 2 (4 - 2) ≡ false)
    × (is_range_filled (slide_to small 2) (2 - 2) (4 - 2) ≡ true)
    × ((x : ℕ)
        → x + 1 < 2 ^ 64
        → (is_range_filled small x 1 ≡ (leb 2 x && ltb x 4))
          × (is_range_filled (slide_to small 2) x 1 ≡ (leb (2 - 2) x && ltb x (4 - 2))))
slide_to_relabels_example =
    slide_to_relabels small 2 2 4 refl (omega arith) (omega arith) (omega arith) (omega arith)
      (omega arith) (omega arith)

-- A write that makes the buffer slide: the bytes of offset 2 are then given for offset 0.
slid_read :
    (read (write small 4 (8 ∷ 9 ∷ [])) 2 2 ≡ none)
    × (read (write small 4 (8 ∷ 9 ∷ [])) 0 2 ≡ some (2 ∷ 3 ∷ []))
unfolding read write merge_range scan insert remove_all any_holds
slid_read = (refl, refl)
