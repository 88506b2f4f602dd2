-- ===== src/Dht/Table/Own.antt =====
-- The bucket of the node itself.
use qvod_player.Prelude.{
  ℕ, zero, suc, ◌≤◌, ◌≡◌, ◌≢◌, inl, inr, ◌∙◌, refl, sym, true, List, [], ◌∷◌, arith, length, set,
  Bool-cases, All,
}
use qvod_player.Core.NodeId.{NodeId, same_id, same_id_iff}
use qvod_player.Dht.Bucket.Defs as Bucket
use qvod_player.Dht.Bucket.Defs.{
  KBucket, KBucketEntry, Entries, InsertResult, full, k, without, mark_refreshed,
}
use qvod_player.Dht.Table.Defs.{bucket_at}

-- The entries of bucket 0 are entries of the node itself.
abbrev pub OnlyLocal : NodeId → Entries → Type 0
OnlyLocal local_id = All (λ x. same_id x.node_id local_id ≡ true)

same_of_same : (x y z : NodeId) → same_id x z ≡ true → same_id y z ≡ true → same_id x y ≡ true
same_of_same x y z h h' = (same_id_iff x y).1 ((same_id_iff x z).0 h ∙ sym ((same_id_iff y z).0 h'))

-- An insertion of the node itself into bucket 0.
pub own_insert :
    (local_id : NodeId) (es : Entries) (r : ℕ) (e : KBucketEntry) (now : ℕ)
    → length es ≤ 1
    → OnlyLocal local_id es
    → same_id e.node_id local_id ≡ true
    → let out = Bucket.insert (record { entries = es; last_refreshed = r }) e now in
      (length out.0.entries ≤ 1) × OnlyLocal local_id out.0.entries × (out.1 ≢ full)
unfolding Bucket.insert Bucket.position Bucket.touch
own_insert local_id [] r e now h o s = (omega arith, (s, tt), λ f. cc)
own_insert local_id (x ∷ []) r e now h o s =
    let same = same_of_same x.node_id e.node_id local_id o.0 s in
    rw (same, Bucket.insert) (omega arith, (o.0, tt), λ f. cc)
own_insert local_id (x ∷ y ∷ es) r e now h o s = absurd (omega arith)

pub without-le : (id : NodeId) (es : Entries) → length (without id es) ≤ length es
unfolding without
without-le id [] = omega arith
without-le id (e ∷ es) = ground (arith, without-le id es)

pub OnlyLocal-without :
    (local_id id : NodeId) (es : Entries)
    → OnlyLocal local_id es
    → OnlyLocal local_id (without id es)
unfolding without
OnlyLocal-without local_id id [] o = tt
OnlyLocal-without local_id id (e ∷ es) o = elim (Bool-cases (same_id e.node_id id)) [
  | inl s ↦ rw s (OnlyLocal-without local_id id es o.1)
  | inr s ↦ rw s (o.0, OnlyLocal-without local_id id es o.1)
]

pub own_set :
    (local_id : NodeId) (bs : List KBucket) (j : ℕ) (b : KBucket)
    → OnlyLocal local_id (bucket_at bs 0).entries
    → (j ≡ 0 → OnlyLocal local_id b.entries)
    → OnlyLocal local_id (bucket_at (set bs j b) 0).entries
own_set local_id [] j b o f = o
own_set local_id (x ∷ bs) zero b o f = f refl
own_set local_id (x ∷ bs) (suc j) b o f = o
