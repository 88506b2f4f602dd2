-- ===== src/Dht/Krpc/Search/Once.antt =====
-- crates/qvs-dht/src/krpc.rs: a search asks no address twice.
use qvod_player.Prelude.{
  ℕ, zero, suc, ◌≡◌, refl, sym, Bool, true, false, Option, none, some, List, [], ◌∷◌, length, take,
  Bytes, arith,
}
use mathlib.Core.Path.{subst}
use qvod_player.Core.Error.{Result, ok, err}
use qvod_player.Core.NodeId.{NodeId}
use qvod_player.Core.Peer.{SocketAddr}
use qvod_player.Dht.Bucket.Defs.{KBucketEntry, Entries}
use qvod_player.Dht.Rpc.Defs.{
  DhtMessage, ping, ping_response, find_node, find_node_response, find_peers, find_peers_response,
  announce, announce_response, peers, nodes,
}
use qvod_player.Dht.Rpc.Decode.{decode}
use qvod_player.Dht.Krpc.Search.{
  Search, Step, found, going, same_addr, contains, insert_addr, unqueried, take_answer, receive,
  sort_shortlist, track_closest, closer, tracked, end_round, ask, query_all, to_query, round,
  rounds, start, search,
}
use qvod_player.Dht.Krpc.Search.Bound.{of, Same-receive}
use qvod_player.Dht.Krpc.Search.Apart.{AreApart, sort-AreApart, add_nodes-AreApart}
use qvod_player.Dht.Krpc.Search.Waiting.{Waiting, unqueried-Waiting, take-Waiting, mark-Waiting}

abbrev pub Once : List SocketAddr → Type 0
Once [] = Unit
Once (a ∷ set) = (contains set a ≡ false) × Once set

pub record IsFresh (s : Search) : Type 0 where
  pub apart : AreApart s.shortlist
  pub once : Once s.asked
  pub marked : (a : SocketAddr) → contains s.queried a ≡ false → contains s.asked a ≡ false

take_answer-AreApart :
    (now : ℕ) (m : DhtMessage) (any : Bool) (s : Search)
    → AreApart s.shortlist
    → AreApart (of (take_answer now m any s)).shortlist
unfolding take_answer
take_answer-AreApart now (ping h id) any s a = a
take_answer-AreApart now (ping_response h id) any s a = a
take_answer-AreApart now (find_node h id target) any s a = a
take_answer-AreApart now (find_node_response h id ns) any s a = add_nodes-AreApart now ns any s a
take_answer-AreApart now (find_peers h id info_hash) any s a = a
take_answer-AreApart now (find_peers_response h id (peers [])) any s a = a
take_answer-AreApart now (find_peers_response h id (peers (p ∷ ps))) any s a = a
take_answer-AreApart now (find_peers_response h id (nodes ns)) any s a =
    add_nodes-AreApart now ns any s a
take_answer-AreApart now (announce h id info_hash token port) any s a = a
take_answer-AreApart now (announce_response h id) any s a = a

receive-AreApart :
    (o : Option (Bytes × ℕ)) (any : Bool) (s : Search)
    → AreApart s.shortlist
    → AreApart (of (receive o any s)).shortlist
unfolding receive
receive-AreApart none any s a = a
receive-AreApart (some (packet, now)) any s a = decoded (decode (take 1400 packet))
  where
    decoded :
        (r : Result DhtMessage)
        → AreApart (of (elim r [ ok m ↦ take_answer now m any s | err e ↦ going any s ])).shortlist
    decoded (ok m) = take_answer-AreApart now m any s a
    decoded (err e) = a

IsFresh-receive :
    (o : Option (Bytes × ℕ)) (any : Bool) (s : Search) → IsFresh s → IsFresh (of (receive o any s))
IsFresh-receive o any s h =
    let (asked, queried) = Same-receive o any s in
    record {
      apart = receive-AreApart o any s h.apart;
      once = rw asked h.once;
      marked = rw (asked, queried) h.marked;
    }

-- The search once a node is marked and asked.
abbrev marked_asked : Search → SocketAddr → Search
marked_asked s a = record s { queried = a ∷ s.queried; asked = a ∷ s.asked }

IsFresh-marked_asked :
    (s : Search) (a : SocketAddr)
    → contains s.queried a ≡ false
    → IsFresh s
    → IsFresh (marked_asked s a)
unfolding contains
IsFresh-marked_asked s a new h = record {
  apart = h.apart;
  once = (h.marked a new, h.once);
  marked = λ b e.
      let here : same_addr a b ≡ false = ground (arith, e) in
      let there : contains s.queried b ≡ false = ground (arith, e) in rw here (h.marked b there);
}

IsFresh-sort : (target : NodeId) (s : Search) → IsFresh s → IsFresh (sort_shortlist target s)
unfolding sort_shortlist
IsFresh-sort target s h = record {
  apart = sort-AreApart target s.shortlist h.apart;
  once = h.once;
  marked = h.marked;
}

abbrev Kept : Option Search → Type 0
Kept none = Unit
Kept (some u) = IsFresh u

Kept-track_closest : (t : Search) → IsFresh t → Kept (track_closest t)
unfolding track_closest
Kept-track_closest t h = first t.shortlist
  where
    next :
        (o : Option (Option Bytes))
        → Kept (elim o [ none ↦ none | some c ↦ some (record t { closest_peer = c }) ])
    next none = tt
    next (some c) = record { apart = h.apart; once = h.once; marked = h.marked }

    first :
        (es : Entries)
        → Kept (elim es [
          | [] ↦ some t
          | e ∷ es ↦ elim (closer t.closest_peer e.node_id) [
            | none ↦ none
            | some c ↦ some (record t { closest_peer = c })
          ]
        ])
    first [] = h
    first (e ∷ es) = next (closer t.closest_peer e.node_id)

IsFresh-tracked :
    (more : Search → Step) (any : Bool) (t : Search) (o : Option Search)
    → IsFresh t
    → Kept o
    → ((u : Search) → IsFresh u → IsFresh (of (more u)))
    → IsFresh (of (tracked more any t o))
IsFresh-tracked more any t none h k m = h
IsFresh-tracked more true t (some u) h k m = m u k
IsFresh-tracked more false t (some u) h k m = k

IsFresh-end_round :
    (more : Search → Step) (target : NodeId) (st : Step)
    → IsFresh (of st)
    → ((u : Search) → IsFresh u → IsFresh (of (more u)))
    → IsFresh (of (end_round more target st))
IsFresh-end_round more target (found ps t) h m = h
IsFresh-end_round more target (going any t) h m =
    let sorted = IsFresh-sort target t h in
    IsFresh-tracked more any (sort_shortlist target t) (track_closest (sort_shortlist target t))
      sorted (Kept-track_closest (sort_shortlist target t) sorted) m

module _ (net : ℕ → SocketAddr → Option (Bytes × ℕ)) where
  ask-marked :
      (any : Bool) (s : Search) (e : KBucketEntry)
      → contains s.queried e.addr ≡ false
      → ask net any s e ≡ receive (net (length s.asked) e.addr) any (marked_asked s e.addr)
  unfolding ask insert_addr
  ask-marked any s e new = rw new refl

  IsFresh-query_all :
      (es : Entries) (any : Bool) (s : Search)
      → Waiting s.queried es
      → IsFresh s
      → IsFresh (of (query_all net es any s))
  unfolding query_all
  IsFresh-query_all [] any s w h = h
  IsFresh-query_all (e ∷ es) any s ((first, apart), (new, others)) h =
      let t = marked_asked s e.addr in
      let o = net (length s.asked) e.addr in
      let kept = IsFresh-receive o any t (IsFresh-marked_asked s e.addr new h) in
      let waiting = mark-Waiting s.queried e.addr es first (apart, others) in
      let fresh = subst (λ st. IsFresh (of st)) (sym (ask-marked any s e new)) kept in
      let left =
        subst (λ st. Waiting (of st).queried es) (sym (ask-marked any s e new))
          (rw ((Same-receive o any t).1) waiting) in
      next (ask net any s e) fresh left (λ b u. IsFresh-query_all es b u)
    where
      next :
          (st : Step)
          → IsFresh (of st)
          → Waiting (of st).queried es
          → ((b : Bool) (u : Search)
              → Waiting u.queried es
              → IsFresh u
              → IsFresh (of (query_all net es b u)))
          → IsFresh (of (elim st [ found ps t ↦ found ps t | going b t ↦ query_all net es b t ]))
      next (found ps t) k w m = k
      next (going b t) k w m = m b t w k

  IsFresh-round :
      (more : Search → Step) (target : NodeId) (s : Search) (es : Entries)
      → Waiting s.queried es
      → IsFresh s
      → ((u : Search) → IsFresh u → IsFresh (of (more u)))
      → IsFresh (of (round net more target s es))
  IsFresh-round more target s [] w h m = h
  IsFresh-round more target s (e ∷ es) w h m =
      IsFresh-end_round more target (query_all net (e ∷ es) false s)
        (IsFresh-query_all (e ∷ es) false s w h) m

  IsFresh-rounds :
      (n alpha : ℕ) (target : NodeId) (s : Search)
      → IsFresh s
      → IsFresh (of (rounds net n alpha target s))
  unfolding rounds to_query
  IsFresh-rounds zero alpha target s h = h
  IsFresh-rounds (suc n) alpha target s h =
      let t = sort_shortlist target s in
      let sorted = IsFresh-sort target s h in
      IsFresh-round (λ u. rounds net n alpha target u) target t (to_query net alpha t)
        (take-Waiting t.queried alpha (unqueried t.queried t.shortlist)
          (unqueried-Waiting t.queried t.shortlist sorted.apart))
        sorted (IsFresh-rounds n alpha target)

  -- When the nodes that a search starts from have different addresses, it asks no address twice, whatever
  -- the other nodes answer.
  pub search-Once :
      (shortlist : Entries) (alpha : ℕ) (target : NodeId)
      → AreApart shortlist
      → Once (of (search net shortlist alpha target)).asked
  unfolding search
  search-Once shortlist alpha target h =
      (IsFresh-rounds 8 alpha target (start net shortlist)
        (record { apart = h; once = tt; marked = λ a e. refl })).once
