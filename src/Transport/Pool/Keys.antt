-- ===== src/Transport/Pool/Keys.antt =====
-- The identifiers of an association list, and how its operations change them.
use qvod_player.Prelude.{
  ◌≤◌, ◌≡◌, refl, sym, inl, inr, Bool, false, ◌||◌, List, [], ◌∷◌, ◌++◌, length, if◌then◌else◌,
  Bytes, arith, Bool-cases,
}
use qvod_player.Core.NodeId.{same_id, same_id_iff}
use qvod_player.Core.HashMap.{contains_key, put, delete}

unfoldable pub keys {ℓ} : {V : Type ℓ} → List (Bytes × V) → List Bytes
keys [] = []
keys ((id, v) ∷ rest) = id ∷ keys rest

unfoldable pub has_id : List Bytes → Bytes → Bool
has_id [] id = false
has_id (i ∷ is) id = same_id i id || has_id is id

unfoldable pub without : List Bytes → Bytes → List Bytes
without [] id = []
without (i ∷ is) id = if same_id i id then without is id else i ∷ without is id

-- No identifier twice.
abbrev pub Distinct : List Bytes → Type 0
Distinct [] = Unit
Distinct (i ∷ is) = (has_id is i ≡ false) × Distinct is

pub has_id-keys {ℓ} :
    {V : Type ℓ} (m : List (Bytes × V)) (id : Bytes) → contains_key m id ≡ has_id (keys m) id
unfolding contains_key has_id keys
has_id-keys [] id = refl
has_id-keys ((i, v) ∷ rest) id = rw (has_id-keys rest id) refl

pub length-keys {ℓ} : {V : Type ℓ} (m : List (Bytes × V)) → length (keys m) ≡ length m
unfolding keys
length-keys [] = refl
length-keys ((i, v) ∷ rest) = rw (length-keys rest) refl

pub keys-put {ℓ} :
    {V : Type ℓ} (m : List (Bytes × V)) (id : Bytes) (v : V)
    → has_id (keys m) id ≡ false
    → keys (put m id v) ≡ keys m ++ id ∷ []
unfolding put has_id keys
keys-put [] id v h = refl
keys-put ((i, w) ∷ rest) id v h = elim (Bool-cases (same_id i id)) [
  | inl p ↦ cc (rw p at h)
  | inr p ↦ rw (p, keys-put rest id v (rw p at h)) refl
]

pub keys-delete {ℓ} :
    {V : Type ℓ} (m : List (Bytes × V)) (id : Bytes) → keys (delete m id) ≡ without (keys m) id
unfolding delete keys without
keys-delete [] id = refl
keys-delete ((i, w) ∷ rest) id = elim (Bool-cases (same_id i id)) [
  | inl p ↦ rw p (keys-delete rest id)
  | inr p ↦ rw (p, keys-delete rest id) refl
]

has_id-without :
    (is : List Bytes) (id j : Bytes) → has_id is j ≡ false → has_id (without is id) j ≡ false
unfolding has_id without
has_id-without [] id j h = refl
has_id-without (i ∷ is) id j h = elim (Bool-cases (same_id i j)) [
  | inl q ↦ cc (rw q at h)
  | inr q ↦ elim (Bool-cases (same_id i id)) [
    | inl p ↦ rw p (has_id-without is id j (rw q at h))
    | inr p ↦ rw (p, q) (has_id-without is id j (rw q at h))
  ]
]

pub Distinct-without : (is : List Bytes) (id : Bytes) → Distinct is → Distinct (without is id)
unfolding without
Distinct-without [] id d = tt
Distinct-without (i ∷ is) id d = elim (Bool-cases (same_id i id)) [
  | inl p ↦ rw p (Distinct-without is id d.1)
  | inr p ↦ rw p (has_id-without is id i d.0, Distinct-without is id d.1)
]

pub length-without : (is : List Bytes) (id : Bytes) → length (without is id) ≤ length is
unfolding without
length-without [] id = omega arith
length-without (i ∷ is) id = ground (arith, length-without is id, Bool-cases (same_id i id))

has_id-snoc :
    (is : List Bytes) (id j : Bytes)
    → has_id is j ≡ false
    → same_id id j ≡ false
    → has_id (is ++ id ∷ []) j ≡ false
unfolding has_id
has_id-snoc [] id j h n = rw n refl
has_id-snoc (i ∷ is) id j h n = elim (Bool-cases (same_id i j)) [
  | inl q ↦ cc (rw q at h)
  | inr q ↦ rw q (has_id-snoc is id j (rw q at h) n)
]

pub same_id_flip : (x y : Bytes) → same_id x y ≡ false → same_id y x ≡ false
same_id_flip x y h = elim (Bool-cases (same_id y x)) [
  | inl p ↦ cc (h, (same_id_iff x y).1 (sym ((same_id_iff y x).0 p)))
  | inr p ↦ p
]

pub Distinct-snoc :
    (is : List Bytes) (id : Bytes) → Distinct is → has_id is id ≡ false → Distinct (is ++ id ∷ [])
unfolding has_id
Distinct-snoc [] id d h = (refl, tt)
Distinct-snoc (i ∷ is) id d h = elim (Bool-cases (same_id i id)) [
  | inl p ↦ cc (rw p at h)
  | inr p ↦ (has_id-snoc is id i d.0 (same_id_flip i id p), Distinct-snoc is id d.1 (rw p at h))
]
