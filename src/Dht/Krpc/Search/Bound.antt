-- ===== src/Dht/Krpc/Search/Bound.antt =====
-- crates/qvs-dht/src/krpc.rs: how many packets a search sends.
use qvod_player.Prelude.{
  ℕ, zero, suc, ◌+◌, ◌*◌, ◌≤◌, ◌≡◌, ◌⊎◌, refl, ap, sym, inl, inr, Bool, true, false, ◌&&◌, Option,
  none, some, List, [], ◌∷◌, ◌++◌, not, length, take, Bytes, arith, Bool-cases, length-take,
}
use qvod_player.Core.Error.{Result, ok, err}
use qvod_player.Core.NodeId.{NodeId}
use qvod_player.Core.Peer.{SocketAddr}
use qvod_player.Dht.Bucket.Defs.{KBucketEntry, Entries}
use qvod_player.Dht.Rpc.Defs.{
  NodeInfo, DhtMessage, ping, ping_response, find_node, find_node_response, find_peers,
  find_peers_response, announce, announce_response, peers, nodes,
}
use qvod_player.Dht.Rpc.Decode.{decode}
use qvod_player.Dht.Krpc.Search.{
  Search, Step, found, going, any_addr, contains, node_entry, add_nodes, take_answer, receive,
  sort_shortlist, track_closest, closer, ask, query_all, to_query, tracked, end_round, round,
  rounds, unqueried, start, search,
}

-- The variables at the end of a step.
abbrev pub of : Step → Search
of (found ps s) = s
of (going any s) = s

-- The addresses asked and marked are those of before.
abbrev pub Same : Search → Search → Type 0
Same t s = (t.asked ≡ s.asked) × (t.queried ≡ s.queried)

Same-add_nodes :
    (now : ℕ) (ns : List NodeInfo) (any : Bool) (s : Search) → Same (of (add_nodes now ns any s)) s
unfolding add_nodes
Same-add_nodes now [] any s = (refl, refl)
Same-add_nodes now (n ∷ ns) any s =
    let e = node_entry now n in
    elim (Bool-cases (not (any_addr s.shortlist e.addr) && not (contains s.queried e.addr))) [
      | inl p ↦ rw p (Same-add_nodes now ns true (record s { shortlist = s.shortlist ++ e ∷ [] }))
      | inr p ↦ rw p (Same-add_nodes now ns any s)
    ]

Same-take_answer :
    (now : ℕ) (m : DhtMessage) (any : Bool) (s : Search) → Same (of (take_answer now m any s)) s
unfolding take_answer
Same-take_answer now (ping h id) any s = (refl, refl)
Same-take_answer now (ping_response h id) any s = (refl, refl)
Same-take_answer now (find_node h id target) any s = (refl, refl)
Same-take_answer now (find_node_response h id ns) any s = Same-add_nodes now ns any s
Same-take_answer now (find_peers h id info_hash) any s = (refl, refl)
Same-take_answer now (find_peers_response h id (peers [])) any s = (refl, refl)
Same-take_answer now (find_peers_response h id (peers (p ∷ ps))) any s = (refl, refl)
Same-take_answer now (find_peers_response h id (nodes ns)) any s = Same-add_nodes now ns any s
Same-take_answer now (announce h id info_hash token port) any s = (refl, refl)
Same-take_answer now (announce_response h id) any s = (refl, refl)

pub Same-receive :
    (o : Option (Bytes × ℕ)) (any : Bool) (s : Search) → Same (of (receive o any s)) s
unfolding receive
Same-receive none any s = (refl, refl)
Same-receive (some (packet, now)) any s = decoded (decode (take 1400 packet))
  where
    decoded :
        (r : Result DhtMessage)
        → Same (of (elim r [ ok m ↦ take_answer now m any s | err e ↦ going any s ])) s
    decoded (ok m) = Same-take_answer now m any s
    decoded (err e) = (refl, refl)

module _ (net : ℕ → SocketAddr → Option (Bytes × ℕ)) where
  pub asked-ask :
      (any : Bool) (s : Search) (e : KBucketEntry) → (of (ask net any s e)).asked ≡ e.addr ∷ s.asked
  unfolding ask
  asked-ask any s e = (Same-receive (net (length s.asked) e.addr) any _).0

  -- After a query the search has peers, or goes on with the next node.
  query_all-cons :
      (e : KBucketEntry) (es : Entries) (any : Bool) (s : Search)
      → (of (query_all net (e ∷ es) any s) ≡ of (ask net any s e))
        ⊎ ((b : Bool) × (query_all net (e ∷ es) any s ≡ query_all net es b (of (ask net any s e))))
  unfolding query_all
  query_all-cons e es any s = asked_first (ask net any s e)
    where
      asked_first :
          (st : Step)
          → (of (elim st [ found ps t ↦ found ps t | going b t ↦ query_all net es b t ]) ≡ of st)
            ⊎ ((b : Bool) × (elim st [ found ps t ↦ found ps t | going b t ↦ query_all net es b t ]
                  ≡ query_all net es b (of st)))
      asked_first (found ps t) = inl refl
      asked_first (going b t) = inr (b, refl)

  length-query_all :
      (es : Entries) (any : Bool) (s : Search)
      → length (of (query_all net es any s)).asked ≤ length s.asked + length es
  length-query_all [] any s = unfold query_all in omega arith
  length-query_all (e ∷ es) any s =
      let one = ap length (asked-ask any s e) in
      elim (query_all-cons e es any s) [
        | inl p ↦ let same = ap (λ (t : Search). length t.asked) p in omega (arith, one, same)
        | inr (b, p) ↦
            let same = ap (λ st. length (of st).asked) p in
            omega (arith, one, same, length-query_all es b (of (ask net any s e)))
      ]

  -- What `more` rounds add at most.
  asked-tracked :
      (more : Search → Step) (any : Bool) (t : Search) (o : Option Search) (bound : ℕ)
      → ((u : Search) → o ≡ some u → u.asked ≡ t.asked)
      → ((u : Search) → length (of (more u)).asked ≤ length u.asked + bound)
      → length (of (tracked more any t o)).asked ≤ length t.asked + bound
  asked-tracked more any t none bound same h = omega arith
  asked-tracked more true t (some u) bound same h =
      let e = ap length (same u refl) in omega (arith, h u, e)
  asked-tracked more false t (some u) bound same h =
      let e = ap length (same u refl) in omega (arith, e)

  asked-track_closest : (t u : Search) → track_closest t ≡ some u → u.asked ≡ t.asked
  unfolding track_closest
  asked-track_closest t u e = of_list t.shortlist e
    where
      closer_list :
          (o : Option (Option Bytes))
          → (elim o [ none ↦ none | some c ↦ some (record t { closest_peer = c }) ]) ≡ some u
          → u.asked ≡ t.asked
      closer_list none e = cc
      closer_list (some c) e =
          ap (λ (o : Option Search). elim o [ none ↦ t.asked | some v ↦ v.asked ]) (sym e)

      of_list :
          (es : Entries)
          → (elim es [
            | [] ↦ some t
            | x ∷ xs ↦ elim (closer t.closest_peer x.node_id) [
              | none ↦ none
              | some c ↦ some (record t { closest_peer = c })
            ]
          ])
            ≡ some u
          → u.asked ≡ t.asked
      of_list [] e =
          ap (λ (o : Option Search). elim o [ none ↦ t.asked | some v ↦ v.asked ]) (sym e)
      of_list (x ∷ xs) e = closer_list (closer t.closest_peer x.node_id) e

  asked-end_round :
      (more : Search → Step) (target : NodeId) (st : Step) (bound : ℕ)
      → ((u : Search) → length (of (more u)).asked ≤ length u.asked + bound)
      → length (of (end_round more target st)).asked ≤ length (of st).asked + bound
  unfolding sort_shortlist
  asked-end_round more target (found ps t) bound h = omega arith
  asked-end_round more target (going any t) bound h =
      asked-tracked more any (sort_shortlist target t) (track_closest (sort_shortlist target t))
        bound (asked-track_closest (sort_shortlist target t)) h

  asked-round :
      (more : Search → Step) (target : NodeId) (s : Search) (es : Entries) (bound : ℕ)
      → ((u : Search) → length (of (more u)).asked ≤ length u.asked + bound)
      → length (of (round net more target s es)).asked ≤ length s.asked + length es + bound
  asked-round more target s [] bound h = omega arith
  asked-round more target s (e ∷ es) bound h =
      let sent = length-query_all (e ∷ es) false s in
      let rest = asked-end_round more target (query_all net (e ∷ es) false s) bound h in
      omega (arith, sent, rest)

  few_queried : (alpha : ℕ) (s : Search) → length (to_query net alpha s) ≤ alpha
  unfolding to_query
  few_queried alpha s = omega (arith, length-take alpha (unqueried s.queried s.shortlist))

  asked-rounds :
      (n alpha : ℕ) (target : NodeId) (s : Search)
      → length (of (rounds net n alpha target s)).asked ≤ length s.asked + n * alpha
  unfolding rounds sort_shortlist to_query
  asked-rounds zero alpha target s = omega arith
  asked-rounds (suc n) alpha target s =
      let sorted = sort_shortlist target s in
      let few = few_queried alpha sorted in
      let all =
        asked-round (λ t. rounds net n alpha target t) target sorted (to_query net alpha sorted)
          (n * alpha) (asked-rounds n alpha target) in
      omega (arith, few, all)

  -- Whatever the other nodes answer: a search asks at most eight times `alpha` addresses in all, and the
  -- queries of one round, from whatever the search has by then, at most `alpha` more.
  pub length-search :
      (shortlist : Entries) (alpha : ℕ) (target : NodeId)
      → (length (of (search net shortlist alpha target)).asked ≤ 8 * alpha)
        × ((any : Bool) (s : Search)
            → length (of (query_all net (to_query net alpha s) any s)).asked
              ≤ length s.asked + alpha)
  unfolding search
  length-search shortlist alpha target =
      let all = asked-rounds 8 alpha target (start net shortlist) in
      (
        omega (arith, all),
        λ any s. omega (arith, length-query_all (to_query net alpha s) any s, few_queried alpha s),
      )
