-- ===== src/Dht/Table/Index.antt =====
-- Which bucket `RoutingTable::bucket_index` chooses.
use Prim.Native.Nat.{bit_xor}
use native.Mathlib.Decide.{ℕ_discrete}
use qvod_player.Prelude.{
  ℕ, suc, ◌+◌, ◌*◌, ◌<◌, ◌≡◌, ◌≢◌, ◌⊎◌, inl, inr, refl, true, false, none, some, [], ◌∷◌, arith,
  if◌then◌else◌, length, IsByte, All,
}
use qvod_player.Core.NodeId.{
  NodeId, IsNodeId, xor_distance, leading_zeros8, same_id, bit_xor-eq-zero_iff,
}
use qvod_player.Dht.Table.Defs.{RoutingTable, first_bit, bucket_index}

leading_zeros8-lt : (b : ℕ) → b ≢ 0 → leading_zeros8 b < 8
unfolding leading_zeros8
leading_zeros8-lt b h = ground arith

-- Equal identifiers have no distance bit; the first bit of others lies within their length.
first_bit_cases :
    (i : ℕ) (x y : NodeId)
    → length x ≡ length y
    → All IsByte x
    → All IsByte y
    → ((same_id x y ≡ true) × (first_bit i (xor_distance x y) ≡ none))
      ⊎ ((v : ℕ) × (same_id x y ≡ false)
          × (first_bit i (xor_distance x y) ≡ some v)
          × (v < (i + length x) * 8))
unfolding first_bit xor_distance same_id
first_bit_cases i [] [] h hx hy = inl (refl, refl)
first_bit_cases i [] (y ∷ ys) h hx hy = absurd (omega arith)
first_bit_cases i (x ∷ xs) [] h hx hy = absurd (omega arith)
first_bit_cases i (x ∷ xs) (y ∷ ys) h hx hy =
    let (to, from) = bit_xor-eq-zero_iff x y hx.0 hy.0 in
    elim (ℕ_discrete x y) [
      | yes e ↦
          let z : bit_xor x y ≡ 0 = from e in
          elim (first_bit_cases (suc i) xs ys (omega arith) hx.1 hy.1) [
            | inl (s, f) ↦ inl (ground (arith, e, s), rw z f)
            | inr (v, s, f, b) ↦ inr (v, ground (arith, e, s), rw z f, omega arith)
          ]
      | no ne ↦
          let nz : bit_xor x y ≢ 0 = λ z. ne (to z) in
          inr (
            i * 8 + leading_zeros8 (bit_xor x y),
            ground (arith, ne),
            ground (arith, nz),
            omega (arith, leading_zeros8-lt (bit_xor x y) nz),
          )
    ]

-- The bucket index of the node's own identifier is 0, and that of every other identifier is 159.
pub bucket_index_lem :
    (t : RoutingTable) (id : NodeId)
    → IsNodeId t.local_id
    → IsNodeId id
    → bucket_index t id ≡ (if same_id t.local_id id then 0 else 159)
unfolding bucket_index
bucket_index_lem t id hl hi =
    elim (first_bit_cases 0 t.local_id id (omega (arith, hl.sized, hi.sized)) hl.bytes_ok
      hi.bytes_ok) [
        | inl (s, f) ↦ rw (s, f)
        | inr (v, s, f, b) ↦ rw (s, f) (omega (arith, hl.sized))
      ]
