-- ===== src/Dht/Bucket/Unique.antt =====
-- `KBucket::insert` keeps the identifiers of a bucket apart, and what it stores is there.
use qvod_player.Prelude.{
  ℕ, zero, suc, ◌+◌, ◌≤◌, ◌<◌, ◌≡◌, ◌≢◌, inl, inr, ◌∙◌, refl, ap, Bool, true, Option, none, some,
  [], ◌∷◌, ◌++◌, arith, if◌then◌else◌, take, drop, take-append-drop, Bool-cases, Option-cases,
}
use qvod_player.Core.NodeId.{NodeId, same_id, same_id_iff}
use qvod_player.Dht.Bucket.Defs.{
  KBucket, KBucketEntry, Entries, InsertResult, full, is_full, position, touch, rotate_left,
  remove_at, is_stale, insert_fresh, insert_at, insert,
}

-- How many entries of the identifier there are.
unfoldable pub count : NodeId → Entries → ℕ
count id [] = 0
count id (e ∷ es) = if same_id e.node_id id then suc (count id es) else count id es

count-append : (id : NodeId) (xs ys : Entries) → count id (xs ++ ys) ≡ count id xs + count id ys
unfolding count
count-append id [] ys = omega arith
count-append id (x ∷ xs) ys = ground (arith, count-append id xs ys)

count-rotate_left : (id : NodeId) (n : ℕ) (es : Entries) → count id (rotate_left n es) ≡ count id es
unfolding rotate_left
count-rotate_left id n es =
    let whole = ap (count id) (take-append-drop n es) in
    omega (
      arith,
      whole,
      count-append id (drop n es) (take n es),
      count-append id (take n es) (drop n es),
    )

count-touch :
    (id : NodeId) (es : Entries) (pos now latency : ℕ)
    → count id (touch es pos now latency) ≡ count id es
unfolding count touch
count-touch id [] pos now latency = refl
count-touch id (e ∷ es) zero now latency = refl
count-touch id (e ∷ es) (suc pos) now latency = ground (arith, count-touch id es pos now latency)

count-remove_at : (id : NodeId) (n : ℕ) (es : Entries) → count id (remove_at n es) ≤ count id es
unfolding count remove_at
count-remove_at id n [] = omega arith
count-remove_at id zero (e ∷ es) = ground arith
count-remove_at id (suc n) (e ∷ es) = ground (arith, count-remove_at id n es)

by_id : NodeId → KBucketEntry → Bool
by_id id x = same_id x.node_id id

count_of_position :
    (id : NodeId) (es : Entries)
    → (position (by_id id) es ≡ none → count id es ≡ 0)
      × ((i : ℕ) → position (by_id id) es ≡ some i → 0 < count id es)
unfolding position count by_id
count_of_position id [] = ((λ h. refl), λ i h. cc)
count_of_position id (e ∷ es) =
    let (absent, present) = count_of_position id es in
    elim (Option-cases (position (by_id id) es)) [
      | inl p ↦ ((λ h. ground (arith, absent p)), λ i h. ground (arith, p))
      | inr (j, p) ↦ ((λ h. ground (arith, p)), λ i h. ground (arith, present j p))
    ]

-- Every identifier has at most one entry.
abbrev pub IsUnique : Entries → Type 0
IsUnique es = (id : NodeId) → count id es ≤ 1

same_self : (id : NodeId) → same_id id id ≡ true
same_self id = (same_id_iff id id).1 refl

-- What an entry adds to the count of an identifier.
one_if : NodeId → KBucketEntry → ℕ
one_if id e = if same_id e.node_id id then 1 else 0

count_one : (id : NodeId) (e : KBucketEntry) → count id (e ∷ []) ≡ one_if id e
unfolding count one_if
count_one id e = ground arith

-- The entry is put behind entries that do not hold its identifier.
append-IsUnique :
    (es rest : Entries) (e : KBucketEntry)
    → IsUnique es
    → count e.node_id es ≡ 0
    → ((id : NodeId) → count id rest ≤ count id es)
    → IsUnique (rest ++ e ∷ [])
unfolding one_if
append-IsUnique es rest e u absent less id = elim (Bool-cases (same_id e.node_id id)) [
  | inl s ↦
      let same : count e.node_id es ≡ count id es =
        ap (λ x. count x es) ((same_id_iff e.node_id id).0 s) in
      ground (arith, same, less id, count-append id rest (e ∷ []), count_one id e, s, absent)
  | inr s ↦ ground (arith, less id, count-append id rest (e ∷ []), count_one id e, s, u id)
]

append_present : (rest : Entries) (e : KBucketEntry) → 0 < count e.node_id (rest ++ e ∷ [])
unfolding one_if
append_present rest e =
    ground (arith, count-append e.node_id rest (e ∷ []), count_one e.node_id e, same_self e.node_id)

-- What holds of a result of `insert`.
pub record Inserted (b : KBucket) (e : KBucketEntry) (r : KBucket × InsertResult) : Type 0 where
  pub unique : IsUnique r.0.entries
  pub present : r.1 ≢ full → 0 < count e.node_id r.0.entries
  pub unchanged : r.1 ≡ full → r.0 ≡ b

insert_fresh-Inserted :
    (b : KBucket) (e : KBucketEntry) (o : Option ℕ)
    → IsUnique b.entries
    → count e.node_id b.entries ≡ 0
    → Inserted b e (insert_fresh b e o)
unfolding insert_fresh
insert_fresh-Inserted b e none u absent = record {
  unique = u;
  present = λ h. absurd (h refl);
  unchanged = λ h. refl;
}
insert_fresh-Inserted b e (some pos) u absent = record {
  unique =
      append-IsUnique b.entries (remove_at pos b.entries) e u absent
        (λ id. count-remove_at id pos b.entries);
  present = λ h. append_present (remove_at pos b.entries) e;
  unchanged = λ h. cc;
}

insert_at-Inserted :
    (b : KBucket) (e : KBucketEntry) (now : ℕ) (o : Option ℕ)
    → IsUnique b.entries
    → (o ≡ none → count e.node_id b.entries ≡ 0)
    → ((i : ℕ) → o ≡ some i → 0 < count e.node_id b.entries)
    → Inserted b e (insert_at b e now o)
unfolding insert_at
insert_at-Inserted b e now (some pos) u absent present =
    let moved = touch b.entries pos now e.latency in
    let same = λ (id : NodeId).
      count-rotate_left id pos moved ∙ count-touch id b.entries pos now e.latency in
    record {
      unique = λ id. omega (arith, same id, u id);
      present = λ h. omega (arith, same e.node_id, present pos refl);
      unchanged = λ h. cc;
    }
insert_at-Inserted b e now none u absent present = elim (Bool-cases (is_full b)) [
  | inl f ↦ rw f (insert_fresh-Inserted b e (position (is_stale now) b.entries) u (absent refl))
  | inr f ↦ rw f (record {
    unique = append-IsUnique b.entries b.entries e u (absent refl) (λ id. omega arith);
    present = λ h. append_present b.entries e;
    unchanged = λ h. cc;
  })
]

-- On a bucket with at most one entry for each identifier, `insert` keeps that; unless its result is
-- `Full` the identifier of the entry is held afterwards, and if it is, the bucket is unchanged.
pub insert-Inserted :
    (b : KBucket) (e : KBucketEntry) (now : ℕ) → IsUnique b.entries → Inserted b e (insert b e now)
unfolding insert by_id
insert-Inserted b e now u =
    let (absent, present) = count_of_position e.node_id b.entries in
    insert_at-Inserted b e now _ u absent present
