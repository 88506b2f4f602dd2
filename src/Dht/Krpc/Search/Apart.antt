-- ===== src/Dht/Krpc/Search/Apart.antt =====
-- crates/qvs-dht/src/krpc.rs: a search whose first nodes have different addresses keeps them different.
use qvod_player.Prelude.{
  ℕ, ◌≡◌, refl, ◌∙◌, inl, inr, Bool, true, false, ◌&&◌, ◌||◌, List, [], ◌∷◌, ◌++◌, not, Bytes,
  arith, Bool-cases,
}
use qvod_player.Core.NodeId.{NodeId, same_id, not_greater, xor_distance}
use qvod_player.Core.Peer.{SocketAddr}
use qvod_player.Dht.Bucket.Defs.{KBucketEntry, Entries, place, sort_by_distance}
use qvod_player.Dht.Rpc.Defs.{NodeInfo}
use qvod_player.Dht.Krpc.Search.{Search, same_addr, any_addr, contains, node_entry, add_nodes}
use qvod_player.Dht.Krpc.Search.Bound.{of}

-- No two entries have the same address.
abbrev pub AreApart : Entries → Type 0
AreApart [] = Unit
AreApart (e ∷ es) = (any_addr es e.addr ≡ false) × AreApart es

same_id_comm : (x y : Bytes) → same_id x y ≡ same_id y x
unfolding same_id
same_id_comm [] [] = refl
same_id_comm [] (y ∷ ys) = refl
same_id_comm (x ∷ xs) [] = refl
same_id_comm (x ∷ xs) (y ∷ ys) = ground (arith, same_id_comm xs ys)

pub same_addr_comm : (a b : SocketAddr) → same_addr a b ≡ same_addr b a
same_addr_comm a b = ground (arith, same_id_comm a.ip b.ip)

any_addr-place :
    (target : NodeId) (e : KBucketEntry) (es : Entries) (a : SocketAddr)
    → any_addr (place target e es) a ≡ (same_addr e.addr a || any_addr es a)
unfolding any_addr place
any_addr-place target e [] a = refl
any_addr-place target e (x ∷ xs) a =
    elim (Bool-cases
      (not_greater (xor_distance e.node_id target) (xor_distance x.node_id target))) [
        | inl p ↦ rw p refl
        | inr p ↦
            rw (p, any_addr-place target e xs a)
              (swap (same_addr x.addr a) (same_addr e.addr a) (any_addr xs a))
      ]
  where
    swap : (p q r : Bool) → (p || (q || r)) ≡ (q || (p || r))
    swap true true r = refl
    swap true false r = refl
    swap false true r = refl
    swap false false r = refl

place-AreApart :
    (target : NodeId) (e : KBucketEntry) (es : Entries)
    → any_addr es e.addr ≡ false
    → AreApart es
    → AreApart (place target e es)
unfolding any_addr place
place-AreApart target e [] h apart = (refl, tt)
place-AreApart target e (x ∷ xs) h (first, apart) =
    elim (Bool-cases
      (not_greater (xor_distance e.node_id target) (xor_distance x.node_id target))) [
        | inl p ↦ rw p (h, (first, apart))
        | inr p ↦
            let here : same_addr x.addr e.addr ≡ false = ground (arith, h) in
            let there : any_addr xs e.addr ≡ false = ground (arith, h) in
            rw p (
              any_addr-place target e xs x.addr
                  ∙ rw (same_addr_comm e.addr x.addr, here, first) refl,
              place-AreApart target e xs there apart,
            )
      ]

any_addr-sort :
    (target : NodeId) (es : Entries) (a : SocketAddr)
    → any_addr (sort_by_distance target es) a ≡ any_addr es a
unfolding any_addr sort_by_distance
any_addr-sort target [] a = refl
any_addr-sort target (e ∷ es) a =
    any_addr-place target e (sort_by_distance target es) a ∙ rw (any_addr-sort target es a) refl

pub sort-AreApart :
    (target : NodeId) (es : Entries) → AreApart es → AreApart (sort_by_distance target es)
unfolding sort_by_distance
sort-AreApart target [] h = tt
sort-AreApart target (e ∷ es) (first, apart) =
    place-AreApart target e (sort_by_distance target es) (any_addr-sort target es e.addr ∙ first)
      (sort-AreApart target es apart)

any_addr-snoc :
    (es : Entries) (e : KBucketEntry) (a : SocketAddr)
    → any_addr es a ≡ false
    → same_addr e.addr a ≡ false
    → any_addr (es ++ e ∷ []) a ≡ false
unfolding any_addr
any_addr-snoc [] e a h d = rw d refl
any_addr-snoc (x ∷ xs) e a h d =
    let here : same_addr x.addr a ≡ false = ground (arith, h) in
    let there : any_addr xs a ≡ false = ground (arith, h) in
    rw (here, any_addr-snoc xs e a there d) refl

snoc-AreApart :
    (es : Entries) (e : KBucketEntry)
    → any_addr es e.addr ≡ false
    → AreApart es
    → AreApart (es ++ e ∷ [])
unfolding any_addr
snoc-AreApart [] e h apart = (refl, tt)
snoc-AreApart (x ∷ xs) e h (first, apart) =
    let here : same_addr x.addr e.addr ≡ false = ground (arith, h) in
    let there : any_addr xs e.addr ≡ false = ground (arith, h) in
    (
      any_addr-snoc xs e x.addr first (same_addr_comm e.addr x.addr ∙ here),
      snoc-AreApart xs e there apart,
    )

pub add_nodes-AreApart :
    (now : ℕ) (ns : List NodeInfo) (any : Bool) (s : Search)
    → AreApart s.shortlist
    → AreApart (of (add_nodes now ns any s)).shortlist
unfolding add_nodes
add_nodes-AreApart now [] any s h = h
add_nodes-AreApart now (n ∷ ns) any s h =
    let e = node_entry now n in
    elim (Bool-cases (not (any_addr s.shortlist e.addr) && not (contains s.queried e.addr))) [
      | inl p ↦
          let fresh : any_addr s.shortlist e.addr ≡ false = ground (arith, p) in
          rw p (
            add_nodes-AreApart now ns true (record s { shortlist = s.shortlist ++ e ∷ [] })
              (snoc-AreApart s.shortlist e fresh h))
      | inr p ↦ rw p (add_nodes-AreApart now ns any s h)
    ]
