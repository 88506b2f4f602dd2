-- ===== src/Dht/Krpc/Search/Waiting.antt =====
-- crates/qvs-dht/src/krpc.rs: the nodes that a round is about to ask.
use qvod_player.Prelude.{
  ℕ, zero, suc, ◌≡◌, refl, inl, inr, false, List, [], ◌∷◌, take, arith, Bool-cases, All,
}
use qvod_player.Core.Peer.{SocketAddr}
use qvod_player.Dht.Bucket.Defs.{KBucketEntry, Entries}
use qvod_player.Dht.Krpc.Search.{same_addr, any_addr, contains, unqueried}
use qvod_player.Dht.Krpc.Search.Apart.{AreApart, same_addr_comm}

-- The nodes of a round: apart, and not marked.
abbrev pub Waiting : List SocketAddr → Entries → Type 0
Waiting queried es = AreApart es × All (λ (e : KBucketEntry). contains queried e.addr ≡ false) es

any_addr-unqueried :
    (queried : List SocketAddr) (es : Entries) (a : SocketAddr)
    → any_addr es a ≡ false
    → any_addr (unqueried queried es) a ≡ false
unfolding any_addr unqueried
any_addr-unqueried queried [] a h = refl
any_addr-unqueried queried (e ∷ es) a h =
    let here : same_addr e.addr a ≡ false = ground (arith, h) in
    let there : any_addr es a ≡ false = ground (arith, h) in
    elim (Bool-cases (contains queried e.addr)) [
      | inl p ↦ rw p (any_addr-unqueried queried es a there)
      | inr p ↦ rw (p, here) (any_addr-unqueried queried es a there)
    ]

pub unqueried-Waiting :
    (queried : List SocketAddr) (es : Entries)
    → AreApart es
    → Waiting queried (unqueried queried es)
unfolding unqueried
unqueried-Waiting queried [] h = (tt, tt)
unqueried-Waiting queried (e ∷ es) (first, apart) =
    let (a, new) = unqueried-Waiting queried es apart in
    elim (Bool-cases (contains queried e.addr)) [
      | inl p ↦ rw p (a, new)
      | inr p ↦ rw p ((any_addr-unqueried queried es e.addr first, a), (p, new))
    ]

any_addr-take :
    (n : ℕ) (es : Entries) (a : SocketAddr) → any_addr es a ≡ false → any_addr (take n es) a ≡ false
unfolding any_addr
any_addr-take zero es a h = refl
any_addr-take (suc n) [] a h = refl
any_addr-take (suc n) (e ∷ es) a h =
    let here : same_addr e.addr a ≡ false = ground (arith, h) in
    let there : any_addr es a ≡ false = ground (arith, h) in rw here (any_addr-take n es a there)

pub take-Waiting :
    (queried : List SocketAddr) (n : ℕ) (es : Entries)
    → Waiting queried es
    → Waiting queried (take n es)
take-Waiting queried zero es h = (tt, tt)
take-Waiting queried (suc n) [] h = (tt, tt)
take-Waiting queried (suc n) (e ∷ es) ((first, apart), (new, others)) =
    let (a, fresh) = take-Waiting queried n es (apart, others) in
    ((any_addr-take n es e.addr first, a), (new, fresh))

-- A node that is asked is marked, and the others go on waiting.
pub mark-Waiting :
    (queried : List SocketAddr) (a : SocketAddr) (es : Entries)
    → any_addr es a ≡ false
    → Waiting queried es
    → Waiting (a ∷ queried) es
unfolding any_addr contains
mark-Waiting queried a [] h w = (tt, tt)
mark-Waiting queried a (e ∷ es) h ((first, apart), (new, others)) =
    let here : same_addr e.addr a ≡ false = ground (arith, h) in
    let there : any_addr es a ≡ false = ground (arith, h) in
    let (b, fresh) = mark-Waiting queried a es there (apart, others) in
    ((first, b), (rw (same_addr_comm a e.addr, here) new, fresh))
