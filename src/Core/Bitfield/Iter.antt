-- ===== src/Core/Bitfield/Iter.antt =====
-- The iterator over a bit field, run to its end.
use qvod_player.Prelude.{
  ℕ, zero, suc, ◌+◌, ◌-◌, ◌≤◌, ◌<◌, ◌≡◌, Bool, false, none, some, List, [], ◌∷◌, arith, length,
  get_or,
}
use qvod_player.Core.Bitfield.Defs.{Bitfield, BitfieldIter, has, iter, next}

-- `collect`: calls `next` until it gives `none`; the fuel bounds the calls.
pub collect : ℕ → BitfieldIter → List Bool
collect zero it = []
collect (suc f) it = elim (next it).0 [ none ↦ [] | some v ↦ v ∷ collect f (next it).1 ]

abbrev at : Bitfield → ℕ → BitfieldIter
at b i = record { bitfield = b; index = i }

collect_from :
    (f i : ℕ) (b : Bitfield)
    → b.num_pieces < f + i
    → i ≤ b.num_pieces
    → length (collect f (at b i)) ≡ b.num_pieces - i
unfolding collect next
collect_from zero i b h hi = absurd (omega arith)
collect_from (suc f) i b h hi = ground (arith, collect_from f (i + 1) b)

get_or-collect_from :
    (f i j : ℕ) (b : Bitfield)
    → b.num_pieces < f + i
    → i + j < b.num_pieces
    → get_or (collect f (at b i)) j false ≡ has b (i + j)
unfolding collect next
get_or-collect_from zero i j b h hj = absurd (omega arith)
get_or-collect_from (suc f) i zero b h hj = let e : i + 0 ≡ i = omega arith in ground (arith, e)
get_or-collect_from (suc f) i (suc j) b h hj =
    let e : i + suc j ≡ i + 1 + j = omega arith in
    ground (arith, e, get_or-collect_from f (i + 1) j b)

-- With more calls than pieces, the iterator ends after one item for each piece, and the item at a
-- position is whether that piece is held.
pub collect-iter :
    (f : ℕ) (b : Bitfield)
    → b.num_pieces < f
    → (length (collect f (iter b)) ≡ b.num_pieces)
      × ((j : ℕ) → j < b.num_pieces → get_or (collect f (iter b)) j false ≡ has b j)
unfolding iter
collect-iter f b h = (
  omega (arith, collect_from f 0 b),
  λ j hj.
      let e : 0 + j ≡ j = omega arith in
      rw e at (get_or-collect_from f 0 j b (omega arith) (omega arith)),
)
