-- ===== src/Format/Bencode/Order.antt =====
-- crates/qvs-format/src/bencode.rs: the order of the keys of a dictionary.
use qvod_player.Prelude.{◌≡◌, refl, ap, inl, inr, true, false, [], ◌∷◌, arith, Bytes, Bool-cases}
use qvod_player.Core.NodeId.{same_id, same_id_iff}
use qvod_player.Format.Bencode.Defs.{BencodeValue, Entries, no_entries, entry, before, insert}

before_irrefl : (k : Bytes) → before k k ≡ false
unfolding before
before_irrefl [] = refl
before_irrefl (x ∷ xs) = ground (arith, before_irrefl xs)

before-asym : (j k : Bytes) → before j k ≡ true → before k j ≡ false
unfolding before
before-asym [] [] h = refl
before-asym [] (y ∷ ys) h = refl
before-asym (x ∷ xs) [] h = cc
before-asym (x ∷ xs) (y ∷ ys) h = ground (arith, before-asym xs ys)

before-other : (j k : Bytes) → before j k ≡ true → same_id k j ≡ false
before-other j k h = elim (Bool-cases (same_id k j)) [
  | inl p ↦
      let e : k ≡ j = (same_id_iff k j).0 p in let same = ap (before j) e in cc (before_irrefl j)
  | inr p ↦ p
]

-- `join m n` is the entries of `m`, and then those of `n`.
unfoldable pub join : Entries → Entries → Entries
join no_entries n = n
join (entry k v m) n = entry k v (join m n)

-- Every key of the map stands before `k`, or behind it.
abbrev pub IsLast : Entries → Bytes → Type 0
IsLast no_entries k = Unit
IsLast (entry j w m) k = (before j k ≡ true) × IsLast m k

abbrev pub IsFirst : Bytes → Entries → Type 0
IsFirst k no_entries = Unit
IsFirst k (entry j w m) = (before k j ≡ true) × IsFirst k m

-- The keys of the second map stand behind those of the first.
abbrev pub Follows : Entries → Entries → Type 0
Follows m no_entries = Unit
Follows m (entry k v n) = IsLast m k × Follows m n

-- A key behind all others is inserted at the end.
pub insert-IsLast :
    (k : Bytes) (v : BencodeValue) (m : Entries)
    → IsLast m k
    → insert k v m ≡ join m (entry k v no_entries)
unfolding insert join
insert-IsLast k v no_entries h = refl
insert-IsLast k v (entry j w m) (h, last) =
    rw (before-asym j k h, before-other j k h, insert-IsLast k v m last) refl

pub join_assoc :
    (m : Entries) (k : Bytes) (v : BencodeValue) (n : Entries)
    → join (join m (entry k v no_entries)) n ≡ join m (entry k v n)
unfolding join
join_assoc no_entries k v n = refl
join_assoc (entry j w m) k v n = ap (entry j w) (join_assoc m k v n)

IsLast-snoc :
    (m : Entries) (k : Bytes) (v : BencodeValue) (j : Bytes)
    → IsLast m j
    → before k j ≡ true
    → IsLast (join m (entry k v no_entries)) j
unfolding join
IsLast-snoc no_entries k v j h b = (b, tt)
IsLast-snoc (entry i w m) k v j (h, last) b = (h, IsLast-snoc m k v j last b)

pub Follows-snoc :
    (m : Entries) (k : Bytes) (v : BencodeValue) (n : Entries)
    → Follows m n
    → IsFirst k n
    → Follows (join m (entry k v no_entries)) n
Follows-snoc m k v no_entries h f = tt
Follows-snoc m k v (entry j w n) (last, h) (b, f) =
    (IsLast-snoc m k v j last b, Follows-snoc m k v n h f)

pub Follows-empty : (n : Entries) → Follows no_entries n
Follows-empty no_entries = tt
Follows-empty (entry k v n) = (tt, Follows-empty n)

pub join-no_entries : (m : Entries) → join m no_entries ≡ m
unfolding join
join-no_entries no_entries = refl
join-no_entries (entry k v m) = ap (entry k v) (join-no_entries m)
