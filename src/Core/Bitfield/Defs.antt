-- ===== src/Core/Bitfield/Defs.antt =====
-- crates/qvs-core/src/types.rs: the record `Bitfield` and its methods.
use qvod_player.Prelude.{
  ℕ, ◌+◌, ◌/◌, ◌%◌, ◌≡◌, Bool, false, Option, none, some, [], ◌∷◌, map, ◌==◌, leb, min,
  if◌then◌else◌, length, get_or, set, replicate, Bytes, IsByte, All,
}
use qvod_player.Core.Bitfield.Bits.{has_bit, put_bit, count_ones}

pub record Bitfield : Type 0 where
  pub bytes : Bytes
  pub num_pieces : ℕ

-- `n.div_ceil(8)`
abbrev pub div_ceil8 : ℕ → ℕ
div_ceil8 n = (n + 7) / 8

unfoldable pub new : ℕ → Bitfield
new n = record { bytes = replicate (div_ceil8 n) 0; num_pieces = n }

unfoldable pub from_bytes : Bytes → ℕ → Bitfield
from_bytes bs n = record { bytes = bs; num_pieces = n }

unfoldable pub has : Bitfield → ℕ → Bool
has b i =
    if leb b.num_pieces i
    then false
    else if leb (length b.bytes) (i / 8)
    then false
    else has_bit (get_or b.bytes (i / 8) 0) (i % 8)

unfoldable pub set_piece : Bitfield → ℕ → Bool → Bitfield
set_piece b i v =
    if leb b.num_pieces i
    then b
    else if leb (length b.bytes) (i / 8)
    then b
    else record b { bytes = set b.bytes (i / 8) (put_bit v (get_or b.bytes (i / 8) 0) (i % 8)) }

unfoldable pub set_all : Bitfield → Bool → Bitfield
set_all b v = let byte = if v then 255 else 0 in record b { bytes = map (λ _. byte) b.bytes }

abbrev pub sum_ones : Bytes → ℕ
sum_ones [] = 0
sum_ones (x ∷ xs) = count_ones x + sum_ones xs

unfoldable pub count : Bitfield → ℕ
count b = min (sum_ones b.bytes) b.num_pieces

unfoldable pub is_empty : Bitfield → Bool
unfolding count
is_empty b = count b == 0

-- `BitfieldIter`: the bit field and the position.
pub record BitfieldIter : Type 0 where
  pub bitfield : Bitfield
  pub index : ℕ

unfoldable pub iter : Bitfield → BitfieldIter
iter b = record { bitfield = b; index = 0 }

unfoldable pub next : BitfieldIter → Option Bool × BitfieldIter
next it =
    if leb it.bitfield.num_pieces it.index
    then (none, it)
    else (some (has it.bitfield it.index), record it { index = it.index + 1 })

-- The representation that `new` makes: as many bytes as the pieces need, each of eight bits.
pub record IsValid (b : Bitfield) : Type 0 where
  pub sized : length b.bytes ≡ div_ceil8 b.num_pieces
  pub bytes_ok : All IsByte b.bytes
