-- ===== src/Core/Bitfield/Update.antt =====
-- Reading a bit field after each of its updates.
use qvod_player.Prelude.{
  replicate-All, ℕ, zero, suc, ◌⊎◌, inl, inr, ◌&&◌, ◌/◌, ◌%◌, ◌≤◌, ◌<◌, ◌≡◌, refl, Bool, true,
  false, [], ◌∷◌, map, arith, ◌==◌, ltb, if◌then◌else◌, length, get_or, set, replicate, length-set,
  length-replicate, get_or-set_self, get_or-set_ne, Bytes, IsByte, All,
}
use native.Mathlib.Decide.{dec_lt, ℕ_discrete}
use qvod_player.Core.Bitfield.Bits.{
  has_bit, put_bit, has_bit-put_bit, put_bit-IsByte, has_bit_const,
}
use qvod_player.Core.Bitfield.Defs.{Bitfield, IsValid, div_ceil8, new, has, set_piece, set_all}

get_or-IsByte : (bs : Bytes) (i : ℕ) → All IsByte bs → IsByte (get_or bs i 0)
get_or-IsByte [] i h = omega arith
get_or-IsByte (x ∷ xs) zero h = h.0
get_or-IsByte (x ∷ xs) (suc i) h = get_or-IsByte xs i h.1

set-IsByte : (bs : Bytes) (i v : ℕ) → All IsByte bs → IsByte v → All IsByte (set bs i v)
set-IsByte [] i v h hv = h
set-IsByte (x ∷ xs) zero v h hv = (hv, h.1)
set-IsByte (x ∷ xs) (suc i) v h hv = (h.0, set-IsByte xs i v h.1 hv)

replicate-IsByte : (n : ℕ) → All IsByte (replicate n 0)
replicate-IsByte n = replicate-All IsByte n 0 (omega arith)

const-IsByte : (bs : Bytes) (v : ℕ) → IsByte v → All IsByte (map (λ _. v) bs)
const-IsByte [] v h = tt
const-IsByte (x ∷ xs) v h = (h, const-IsByte xs v h)

length-map_const : (bs : Bytes) (v : ℕ) → length (map (λ _. v) bs) ≡ length bs
length-map_const [] v = refl
length-map_const (x ∷ xs) v = omega (arith, length-map_const xs v)

get_or-map_const : (bs : Bytes) (v i : ℕ) → i < length bs → get_or (map (λ _. v) bs) i 0 ≡ v
get_or-map_const [] v i h = absurd (omega arith)
get_or-map_const (x ∷ xs) v zero h = refl
get_or-map_const (x ∷ xs) v (suc i) h = get_or-map_const xs v i (omega arith)

get_or-replicate : (n i : ℕ) → get_or {A = ℕ} (replicate n 0) i 0 ≡ 0
get_or-replicate zero i = refl
get_or-replicate (suc n) zero = refl
get_or-replicate (suc n) (suc i) = get_or-replicate n i

-- What `set_piece` makes where its guards pass.
abbrev written : Bitfield → ℕ → Bool → Bitfield
written b i v = record b {
  bytes = set b.bytes (i / 8) (put_bit v (get_or b.bytes (i / 8) 0) (i % 8));
}

written-IsValid : (b : Bitfield) (i : ℕ) (v : Bool) → IsValid b → IsValid (written b i v)
written-IsValid b i v h =
    let new_byte = put_bit v (get_or b.bytes (i / 8) 0) (i % 8) in
    let ok = put_bit-IsByte v _ (i % 8) (get_or-IsByte b.bytes (i / 8) h.bytes_ok) (omega arith) in
    record {
      sized = omega (arith, h.sized, length-set b.bytes (i / 8) new_byte);
      bytes_ok = set-IsByte b.bytes (i / 8) new_byte h.bytes_ok ok;
    }

set_piece_cases :
    (b : Bitfield) (i : ℕ) (v : Bool) → (set_piece b i v ≡ b) ⊎ (set_piece b i v ≡ written b i v)
unfolding set_piece
set_piece_cases b i v = ground arith

set_piece_in :
    (b : Bitfield) (i : ℕ) (v : Bool)
    → IsValid b
    → i < b.num_pieces
    → set_piece b i v ≡ written b i v
unfolding set_piece
set_piece_in b i v h hi = ground arith

has_in :
    (b : Bitfield) (j : ℕ)
    → IsValid b
    → j < b.num_pieces
    → has b j ≡ has_bit (get_or b.bytes (j / 8) 0) (j % 8)
unfolding has
has_in b j h hj = ground arith

pub has_out : (b : Bitfield) (j : ℕ) → b.num_pieces ≤ j → has b j ≡ false
unfolding has
has_out b j h = ground arith

filled : Bitfield → Bool → Bitfield
filled b v = let byte = if v then 255 else 0 in record b { bytes = map (λ _. byte) b.bytes }

set_all-IsValid : (b : Bitfield) (v : Bool) → IsValid b → IsValid (set_all b v)
unfolding set_all
set_all-IsValid b true h = record {
  sized = omega (arith, h.sized, length-map_const b.bytes 255);
  bytes_ok = const-IsByte b.bytes 255 (omega arith);
}
set_all-IsValid b false h = record {
  sized = omega (arith, h.sized, length-map_const b.bytes 0);
  bytes_ok = const-IsByte b.bytes 0 (omega arith);
}

set_piece-IsValid : (b : Bitfield) (i : ℕ) (v : Bool) → IsValid b → IsValid (set_piece b i v)
set_piece-IsValid b i v h = elim (set_piece_cases b i v) [
  | inl e ↦ rw e h
  | inr e ↦ rw e (written-IsValid b i v h)
]

pub new-IsValid : (n : ℕ) → IsValid (new n)
unfolding new
new-IsValid n = record {
  sized = length-replicate (div_ceil8 n) 0;
  bytes_ok = replicate-IsByte (div_ceil8 n);
}

-- `new` gives a representation with the right size and bytes, and both updates keep it.
pub updates-IsValid :
    (n i : ℕ) (v : Bool) (b : Bitfield)
    → IsValid b
    → IsValid (new n) × IsValid (set_piece b i v) × IsValid (set_all b v)
updates-IsValid n i v b h = (new-IsValid n, set_piece-IsValid b i v h, set_all-IsValid b v h)

has-written :
    (b : Bitfield) (i j : ℕ) (v : Bool)
    → IsValid b
    → i < b.num_pieces
    → j < b.num_pieces
    → has (written b i v) j ≡ (if i == j then v else has b j)
has-written b i j v h hi hj =
    let old = get_or b.bytes (i / 8) 0 in
    let byte = put_bit v old (i % 8) in
    let step = has_in (written b i v) j (written-IsValid b i v h) hj in
    let here = has_in b j h hj in
    elim (ℕ_discrete (i / 8) (j / 8)) [
      | yes e ↦ ground (
        arith,
        step,
        here,
        get_or-set_self b.bytes (j / 8) byte 0 (omega (arith, h.sized)),
        e,
        has_bit-put_bit v old (i % 8) (j % 8) (get_or-IsByte b.bytes (i / 8) h.bytes_ok)
            (omega arith) (omega arith),
      )
      | no ne ↦ ground (arith, step, here, get_or-set_ne b.bytes (i / 8) (j / 8) byte 0 ne, ne)
    ]

-- In a field with as many bytes as its pieces need, each of eight bits: after a write at a piece of the field,
-- a read of that piece gives the value written, and a read of any other is what it was.
pub has-set_piece :
    (b : Bitfield) (i j : ℕ) (v : Bool)
    → IsValid b
    → i < b.num_pieces
    → has (set_piece b i v) j ≡ (if i == j then v else has b j)
has-set_piece b i j v h hi = rw (set_piece_in b i v h hi) (elim (dec_lt j b.num_pieces) [
  | yes hj ↦ has-written b i j v h hi hj
  | no nj ↦ ground (arith, has_out (written b i v) j (omega arith), has_out b j (omega arith), nj)
])

new_in : (n j : ℕ) → j < n → has (new n) j ≡ false
unfolding new
new_in n j hj = ground (
  arith,
  has_in (new n) j (new-IsValid n) hj,
  get_or-replicate (div_ceil8 n) (j / 8),
  has_bit_const false (j % 8) (omega arith),
)

set_all_in :
    (b : Bitfield) (v : Bool) (j : ℕ) → IsValid b → j < b.num_pieces → has (set_all b v) j ≡ v
unfolding set_all
set_all_in b true j h hj = ground (
  arith,
  has_in (set_all b true) j (set_all-IsValid b true h) hj,
  get_or-map_const b.bytes 255 (j / 8) (omega (arith, h.sized)),
  has_bit_const true (j % 8) (omega arith),
)
set_all_in b false j h hj = ground (
  arith,
  has_in (set_all b false) j (set_all-IsValid b false h) hj,
  get_or-map_const b.bytes 0 (j / 8) (omega (arith, h.sized)),
  has_bit_const false (j % 8) (omega arith),
)

-- `new` holds no piece; after `set_all` every piece of the field is what it says, and no piece
-- outside is held.
pub has-new-set_all :
    (n j : ℕ) (v : Bool) (b : Bitfield)
    → IsValid b
    → (has (new n) j ≡ false) × (has (set_all b v) j ≡ (ltb j b.num_pieces && v))
unfolding new set_all
has-new-set_all n j v b h = (
  elim (dec_lt j n) [ yes hj ↦ new_in n j hj | no nj ↦ has_out (new n) j (omega arith) ],
  elim (dec_lt j b.num_pieces) [
    | yes hj ↦ ground (arith, set_all_in b v j h hj, hj)
    | no nj ↦ ground (arith, has_out (set_all b v) j (omega arith), nj)
  ],
)
