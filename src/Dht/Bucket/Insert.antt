-- ===== src/Dht/Bucket/Insert.antt =====
-- What `KBucket::insert` does to the number of entries and to the identifiers.
use qvod_player.Prelude.{
  ℕ, zero, suc, ◌+◌, ◌<◌, ◌≡◌, ◌≢◌, inl, inr, refl, ap, Bool, Option, none, some, [], ◌∷◌, arith,
  length, take, drop, length-append, length-take, length-drop, Bool-cases, Option-cases,
}
use qvod_player.Dht.Bucket.Defs.{
  KBucket, KBucketEntry, Entries, InsertResult, added, k, is_full, position, touch, rotate_left,
  remove_at, is_stale, insert_fresh, insert_at, insert,
}

position-lt :
    (p : KBucketEntry → Bool) (es : Entries) (i : ℕ) → position p es ≡ some i → i < length es
unfolding position
position-lt p [] i h = cc
position-lt p (e ∷ es) i h = elim (Option-cases (position p es)) [
  | inl none_there ↦ ground arith
  | inr (j, there) ↦ ground (arith, position-lt p es j there)
]

length-touch : (es : Entries) (pos now latency : ℕ) → length (touch es pos now latency) ≡ length es
unfolding touch
length-touch [] pos now latency = refl
length-touch (e ∷ es) zero now latency = refl
length-touch (e ∷ es) (suc pos) now latency = ap suc (length-touch es pos now latency)

length-rotate_left : (n : ℕ) (es : Entries) → length (rotate_left n es) ≡ length es
unfolding rotate_left
length-rotate_left n es =
    omega (arith, length-append (drop n es) (take n es), length-take n es, length-drop n es)

length-remove_at :
    (n : ℕ) (es : Entries) → n < length es → suc (length (remove_at n es)) ≡ length es
unfolding remove_at
length-remove_at n [] h = absurd (omega arith)
length-remove_at zero (e ∷ es) h = refl
length-remove_at (suc n) (e ∷ es) h = ap suc (length-remove_at n es (omega arith))

-- How many entries a result of `insert` adds.
abbrev pub grown : InsertResult → ℕ
grown added = 1
grown _ = 0

insert_fresh_length :
    (b : KBucket) (e : KBucketEntry) (o : Option ℕ)
    → ((i : ℕ) → o ≡ some i → i < length b.entries)
    → length (insert_fresh b e o).0.entries ≡ length b.entries + grown (insert_fresh b e o).1
unfolding insert_fresh
insert_fresh_length b e none h = omega arith
insert_fresh_length b e (some pos) h = omega (
  arith,
  length-append (remove_at pos b.entries) (e ∷ []),
  length-remove_at pos b.entries (h pos refl),
)

insert_fresh-ne-added :
    (b : KBucket) (e : KBucketEntry) (o : Option ℕ) → (insert_fresh b e o).1 ≢ added
unfolding insert_fresh
insert_fresh-ne-added b e none h = cc
insert_fresh-ne-added b e (some pos) h = cc

insert_at_length :
    (b : KBucket) (e : KBucketEntry) (now : ℕ) (o : Option ℕ)
    → (length (insert_at b e now o).0.entries ≡ length b.entries + grown (insert_at b e now o).1)
      × ((insert_at b e now o).1 ≡ added → length b.entries < k)
unfolding insert_at
insert_at_length b e now (some pos) = (
  omega (
    arith,
    length-rotate_left pos (touch b.entries pos now e.latency),
    length-touch b.entries pos now e.latency,
  ),
  λ h. cc,
)
insert_at_length b e now none = elim (Bool-cases (is_full b)) [
  | inl f ↦
      let stale = position (is_stale now) b.entries in
      rw f (
        insert_fresh_length b e stale (λ i p. position-lt (is_stale now) b.entries i p),
        λ h. absurd (insert_fresh-ne-added b e stale h),
      )
  | inr f ↦ rw f (omega (arith, length-append b.entries (e ∷ [])), λ h. ground arith)
]

-- An insertion adds one entry if its result is `Added` and none otherwise; it adds one only to a
-- bucket of less than `K` entries.
pub insert_length :
    (b : KBucket) (e : KBucketEntry) (now : ℕ)
    → (length (insert b e now).0.entries ≡ length b.entries + grown (insert b e now).1)
      × ((insert b e now).1 ≡ added → length b.entries < k)
unfolding insert
insert_length b e now = insert_at_length b e now _
