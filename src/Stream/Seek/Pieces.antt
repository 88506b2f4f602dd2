-- ===== src/Stream/Seek/Pieces.antt =====
-- The piece that holds an offset of the file.
use native.Mathlib.Nat.{div-add-mod, mod-lt, lt_of_mul-lt-mul_left, mul_comm, mul-suc}
use qvod_player.Prelude.{
  ℕ, suc, ◌+◌, ◌-◌, ◌*◌, ◌/◌, ◌%◌, ◌^◌, ◌≤◌, ◌<◌, ◌≡◌, some, ◌==◌, u64, arith, Bool-cases, inl, inr,
}
use qvod_player.Core.Meta.{num_pieces}
use qvod_player.Stream.Seek.Defs.{SeekEngine, piece_for_offset}

-- Rounding down stays below rounding up.
div-lt-ceil : (a b p : ℕ) → 0 < p → a < b → a / p < (b + p - 1) / p
div-lt-ceil a b p pos lt =
    let q = a / p in
    let n = (b + p - 1) / p in
    let low = div-add-mod a p in
    let high = div-add-mod (b + p - 1) p in
    let rest = mod-lt (b + p - 1) pos in
    let step = mul-suc p n in
    let step' = mul-suc p q in
    let bound : p * suc q < p * suc n = omega arith in
    let le = lt_of_mul-lt-mul_left p bound in omega arith

div-bounds : (a p : ℕ) → 0 < p → (a / p * p ≤ a) × (a < (a / p + 1) * p)
div-bounds a p pos =
    let low = div-add-mod a p in
    let rest = mod-lt a pos in
    let flip = mul_comm p (a / p) in
    let flip' = mul_comm p (suc (a / p)) in
    let step = mul-suc p (a / p) in (omega arith, omega arith)

-- In a file whose number of pieces fits 32 bits and whose size and piece length together fit 64 bits, the
-- piece of an offset inside the file is one of the pieces of the file, and the offset is in it.
pub piece_for_offset-num_pieces :
    (s : SeekEngine) (offset n : ℕ)
    → num_pieces s.metadata ≡ some n
    → s.metadata.file_size + s.metadata.piece_length ≤ 2 ^ 64
    → (s.metadata.file_size + s.metadata.piece_length - 1) / s.metadata.piece_length < 2 ^ 32
    → offset < s.metadata.file_size
    → let piece = piece_for_offset s offset in
      (piece < n)
      × (piece * s.metadata.piece_length ≤ offset)
      × (offset < (piece + 1) * s.metadata.piece_length)
unfolding piece_for_offset num_pieces
piece_for_offset-num_pieces s offset n h small fits inside =
    let p = s.metadata.piece_length in
    let size = s.metadata.file_size in
    elim (Bool-cases (p == 0)) [
      | inl z ↦ cc (rw (num_pieces, z) at h)
      | inr nz ↦
          let pos : 0 < p = ground (arith, nz) in
          let sum : u64 (size + p - 1) ≡ size + p - 1 = omega arith in
          let count : (size + p - 1) / p % 2 ^ 32 ≡ (size + p - 1) / p = omega arith in
          let total : (size + p - 1) / p ≡ n = cc (rw (num_pieces, nz, sum, count) at h) in
          let less = div-lt-ceil offset size p pos inside in
          let whole : offset / p % 2 ^ 32 ≡ offset / p = omega arith in
          let (low, high) = div-bounds offset p pos in rw (nz, whole) (omega arith, low, high)
    ]
