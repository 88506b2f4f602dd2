-- ===== src/Core/Bitfield/Bits.antt =====
-- The bits of one byte, as `Bitfield::has` and `Bitfield::set` read and write them, and their laws
-- checked over every byte and every pair of positions.
use Prim.Native.Nat.{bit_and, bit_or}
use qvod_player.Prelude.{
  ℕ, ◌+◌, ◌-◌, ◌/◌, ◌%◌, ◌^◌, ◌<◌, ◌≡◌, refl, Bool, true, false, not, ◌&&◌, arith, ◌==◌, ltb,
  if◌then◌else◌, IsByte, passes, test_of_passes,
}

-- `(byte & (1 << (7 - off))) != 0`
unfoldable pub has_bit : ℕ → ℕ → Bool
has_bit x off = not (bit_and x (2 ^ (7 - off)) == 0)

-- `byte |= 1 << (7 - off)`, or `byte &= !(1 << (7 - off))`
unfoldable pub put_bit : Bool → ℕ → ℕ → ℕ
put_bit v x off = if v then bit_or x (2 ^ (7 - off)) else bit_and x (255 - 2 ^ (7 - off))

-- `u8::count_ones`
unfoldable pub count_ones : ℕ → ℕ
count_ones x =
    x / 128 % 2 + x / 64 % 2 + x / 32 % 2 + x / 16 % 2 + x / 8 % 2 + x / 4 % 2 + x / 2 % 2 + x % 2

abbrev agree : Bool → Bool → Bool
agree true b = b
agree false b = not b

-- One entry of the table: reading position `j` after a write at position `k`.
abbrev entry : Bool → ℕ → ℕ → ℕ → Bool
entry v x k j =
    agree (has_bit (put_bit v x k) j) (if k == j then v else has_bit x j) && ltb (put_bit v x k) 256

table : Bool → Bool
table v = passes (λ x. passes (λ k. passes (λ j. entry v x k j) 8) 8) 256

table_holds : (v : Bool) → table v ≡ true
unfolding table passes has_bit put_bit
table_holds true = refl
table_holds false = refl

entry_holds : (v : Bool) (x k j : ℕ) → x < 256 → k < 8 → j < 8 → entry v x k j ≡ true
unfolding table
entry_holds v x k j hx hk hj =
    let row = test_of_passes _ 256 (table_holds v) x hx in
    test_of_passes _ 8 (test_of_passes _ 8 row k hk) j hj

pub has_bit-put_bit :
    (v : Bool) (x k j : ℕ)
    → IsByte x
    → k < 8
    → j < 8
    → has_bit (put_bit v x k) j ≡ (if k == j then v else has_bit x j)
has_bit-put_bit v x k j hx hk hj = ground (arith, entry_holds v x k j hx hk hj)

pub put_bit-IsByte : (v : Bool) (x k : ℕ) → IsByte x → k < 8 → IsByte (put_bit v x k)
put_bit-IsByte v x k hx hk = ground (arith, entry_holds v x k 0 hx hk (omega arith))

const_table : Bool → Bool
const_table v = passes (λ j. agree (has_bit (if v then 255 else 0) j) v) 8

const_table_holds : (v : Bool) → const_table v ≡ true
unfolding const_table passes has_bit
const_table_holds true = refl
const_table_holds false = refl

-- A byte of all ones has every bit, and a zero byte none.
pub has_bit_const : (v : Bool) (j : ℕ) → j < 8 → has_bit (if v then 255 else 0) j ≡ v
unfolding const_table
has_bit_const v j h = ground (arith, test_of_passes _ 8 (const_table_holds v) j h)
