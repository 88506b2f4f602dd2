-- ===== src/Core/HashMap.antt =====
-- A HashMap whose keys are byte arrays, as an association list; its order stands for the order of
-- iteration.
use qvod_player.Prelude.{
  ◌≡◌, refl, sym, arith, inl, inr, Bool-cases, Bool, false, ◌||◌, Option, none, some, List, [], ◌∷◌,
  if◌then◌else◌, Bytes,
}
use qvod_player.Core.NodeId.{same_id, same_id_iff}

-- `HashMap::get`, `contains_key`, `insert` and `remove`
unfoldable pub get {ℓ} : {V : Type ℓ} → List (Bytes × V) → Bytes → Option V
get [] id = none
get ((i, v) ∷ rest) id = if same_id i id then some v else get rest id

unfoldable pub contains_key {ℓ} : {V : Type ℓ} → List (Bytes × V) → Bytes → Bool
contains_key [] id = false
contains_key ((i, v) ∷ rest) id = same_id i id || contains_key rest id

unfoldable pub put {ℓ} : {V : Type ℓ} → List (Bytes × V) → Bytes → V → List (Bytes × V)
put [] id v = (id, v) ∷ []
put ((i, w) ∷ rest) id v = if same_id i id then (id, v) ∷ rest else (i, w) ∷ put rest id v

unfoldable pub delete {ℓ} : {V : Type ℓ} → List (Bytes × V) → Bytes → List (Bytes × V)
delete [] id = []
delete ((i, v) ∷ rest) id = if same_id i id then delete rest id else (i, v) ∷ delete rest id

same_id_flip : (x y : Bytes) → same_id x y ≡ false → same_id y x ≡ false
same_id_flip x y h = elim (Bool-cases (same_id y x)) [
  | inl p ↦ cc (h, (same_id_iff x y).1 (sym ((same_id_iff y x).0 p)))
  | inr p ↦ p
]

pub get-put {ℓ} :
    {V : Type ℓ} (m : List (Bytes × V)) (id j : Bytes) (v : V)
    → get (put m id v) j ≡ (if same_id id j then some v else get m j)
unfolding get put
get-put [] id j v = refl
get-put ((i, w) ∷ rest) id j v = elim (Bool-cases (same_id i id)) [
  | inl p ↦ let same : i ≡ id = (same_id_iff i id).0 p in rw (p, same) (ground arith)
  | inr p ↦ elim (Bool-cases (same_id i j)) [
    | inr q ↦ rw (p, q) (get-put rest id j v)
    | inl q ↦
        let same : i ≡ j = (same_id_iff i j).0 q in
        rw (p, q) (rw (← same) (rw (same_id_flip i id p) refl))
  ]
]
