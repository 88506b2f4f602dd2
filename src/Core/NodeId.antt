-- ===== src/Core/NodeId.antt =====
-- crates/qvs-core/src/types.rs: `NodeId`, a list of 20 bytes, its distance and its leading zeros.
use Prim.Native.Nat.{bit_xor}
use qvod_player.Prelude.{
  ℕ, ◌+◌, ◌≡◌, ◌↔◌, refl, Bool, true, false, not, ◌&&◌, [], ◌∷◌, arith, ltb, leb, ◌==◌,
  if◌then◌else◌, length, Bytes, IsByte, passes, test_of_passes, All,
}

abbrev pub NodeId : Type 0
NodeId = Bytes

pub record IsNodeId (id : NodeId) : Type 0 where
  pub sized : length id ≡ 20
  pub bytes_ok : All IsByte id

-- `self.0[i] ^ other.0[i]` at each of the 20 places.
unfoldable pub xor_distance : NodeId → NodeId → Bytes
xor_distance [] ys = []
xor_distance (x ∷ xs) [] = []
xor_distance (x ∷ xs) (y ∷ ys) = bit_xor x y ∷ xor_distance xs ys

-- `u8::leading_zeros`
unfoldable pub leading_zeros8 : ℕ → ℕ
leading_zeros8 b =
    if leb 128 b
    then 0
    else if leb 64 b
    then 1
    else if leb 32 b
    then 2
    else if leb 16 b
    then 3
    else if leb 8 b
    then 4
    else if leb 4 b
    then 5
    else if leb 2 b
    then 6
    else if leb 1 b
    then 7
    else 8

unfoldable pub leading_zeros : NodeId → ℕ
unfolding leading_zeros8
leading_zeros [] = 0
leading_zeros (b ∷ bs) =
    let rest = leading_zeros bs in if b == 0 then 8 + rest else leading_zeros8 b

-- `==` on two identifiers.
unfoldable pub same_id : NodeId → NodeId → Bool
same_id [] [] = true
same_id (x ∷ xs) (y ∷ ys) = x == y && same_id xs ys
same_id _ _ = false

-- The lexicographic order of two distances, `da.cmp(&db)` as "not greater".
unfoldable pub not_greater : Bytes → Bytes → Bool
not_greater [] ys = true
not_greater (x ∷ xs) [] = false
not_greater (x ∷ xs) (y ∷ ys) =
    let rest = not_greater xs ys in if ltb x y then true else if x == y then rest else false

pub same_id_iff : (x y : NodeId) → (same_id x y ≡ true) ↔ (x ≡ y)
unfolding same_id
same_id_iff [] [] = ((λ h. refl), λ h. refl)
same_id_iff [] (y ∷ ys) = ((λ h. cc), λ h. cc)
same_id_iff (x ∷ xs) [] = ((λ h. cc), λ h. cc)
same_id_iff (x ∷ xs) (y ∷ ys) =
    let (to, from) = same_id_iff xs ys in (λ h. ground (arith, to), λ h. ground (arith, from))

-- The exclusive or of two bytes is a byte, and is zero for equal bytes only.
abbrev entry : ℕ → ℕ → Bool
entry x y = (if bit_xor x y == 0 then x == y else not (x == y)) && ltb (bit_xor x y) 256

table : passes (λ x. passes (λ y. entry x y) 256) 256 ≡ true
unfolding passes
table = refl

entry_holds : (x y : ℕ) → IsByte x → IsByte y → entry x y ≡ true
entry_holds x y hx hy = test_of_passes _ 256 (test_of_passes _ 256 table x hx) y hy

pub bit_xor-eq-zero_iff : (x y : ℕ) → IsByte x → IsByte y → (bit_xor x y ≡ 0) ↔ (x ≡ y)
bit_xor-eq-zero_iff x y hx hy = ground (arith, entry_holds x y hx hy)

pub bit_xor-IsByte : (x y : ℕ) → IsByte x → IsByte y → IsByte (bit_xor x y)
bit_xor-IsByte x y hx hy = ground (arith, entry_holds x y hx hy)
