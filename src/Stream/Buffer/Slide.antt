-- ===== src/Stream/Buffer/Slide.antt =====
-- What a slide does to the record of filled ranges. The ranges are compared with offsets of the file
-- everywhere else, and the slide stores them as offsets of the window.
use qvod_player.Prelude.{
  ℕ, ◌+◌, ◌-◌, ◌^◌, ◌≤◌, ◌<◌, ◌≡◌, true, false, [], ◌∷◌, arith, min, u64, leb, ltb, ◌&&◌,
}
use qvod_player.Stream.Buffer.Ranges.{insert, any_holds}
use qvod_player.Stream.Buffer.Defs.{RingBuffer, slide_to, slide_on, is_range_filled}

slide_on_one :
    (n capacity s e : ℕ)
    → n ≤ s
    → s < e
    → e ≤ n + capacity
    → slide_on n capacity (record { start = s; end = e } ∷ []) []
      ≡ record { start = s - n; end = e - n } ∷ []
unfolding slide_on insert
slide_on_one n capacity s e hn hs he =
    let m : min (e - n) capacity ≡ e - n = omega arith in ground (arith, m)

slide_to_one :
    (b : RingBuffer) (n s e : ℕ)
    → b.filled ≡ record { start = s; end = e } ∷ []
    → b.file_offset < n
    → n < b.file_offset + b.capacity
    → n ≤ s
    → s < e
    → e ≤ n + b.capacity
    → (slide_to b n).filled ≡ record { start = s - n; end = e - n } ∷ []
unfolding slide_to
slide_to_one b n s e f lo hi hn hs he = ground (arith, slide_on_one n b.capacity s e hn hs he, f)

-- Let one range be filled, and let the buffer slide forward by less than its capacity, so that the whole
-- range stays in the window. Asked for as a whole, the range is then reported missing at its own offset,
-- and reported present at an offset that is lower by the new window start, where it was not before. Byte
-- for byte: a byte was reported present exactly in the range, and is then reported present exactly in the
-- range that is lower by the window start.
pub slide_to_relabels :
    (b : RingBuffer) (n s e : ℕ)
    → b.filled ≡ record { start = s; end = e } ∷ []
    → b.file_offset < n
    → n < b.file_offset + b.capacity
    → n ≤ s
    → s < e
    → e ≤ n + b.capacity
    → e < 2 ^ 64
    → (is_range_filled b s (e - s) ≡ true)
      × (is_range_filled b (s - n) (e - s) ≡ false)
      × (is_range_filled (slide_to b n) s (e - s) ≡ false)
      × (is_range_filled (slide_to b n) (s - n) (e - s) ≡ true)
      × ((x : ℕ)
          → x + 1 < 2 ^ 64
          → (is_range_filled b x 1 ≡ (leb s x && ltb x e))
            × (is_range_filled (slide_to b n) x 1 ≡ (leb (s - n) x && ltb x (e - n))))
unfolding is_range_filled any_holds
slide_to_relabels b n s e f lo hi hn hs he big =
    let slid = slide_to_one b n s e f lo hi hn hs he in
    let whole : u64 (s + (e - s)) ≡ e = omega arith in
    let lower : u64 (s - n + (e - s)) ≡ e - n = omega arith in
    (
      ground (arith, f, whole),
      ground (arith, f, lower),
      ground (arith, slid, whole),
      ground (arith, slid, lower),
      λ x fits.
          let next : u64 (x + 1) ≡ x + 1 = omega arith in
          (ground (arith, f, next), ground (arith, slid, next)),
    )
