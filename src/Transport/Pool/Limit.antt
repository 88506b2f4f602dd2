-- ===== src/Transport/Pool/Limit.antt =====
-- What holds of a pool after any calls of the methods that change it themselves.
use qvod_player.Prelude.{
  ℕ, ◌≤◌, ◌<◌, ◌≡◌, ◌∙◌, refl, sym, ap, inl, inr, min, false, List, [], ◌∷◌, map, length, Bytes,
  arith, leb, Bool-cases, length-append,
}
use qvod_player.Core.HashMap.{contains_key, put, delete}
use qvod_player.Core.Peer.{PeerInfo}
use qvod_player.Transport.Pool.Defs.{
  PeerConnection, ConnectionPool, new, new_connection, add_peer, remove_peer, remove_all,
  cleanup_idle, maintain_connections, update_activity, idle_ids,
}
use qvod_player.Transport.Pool.Keys.{
  keys, has_id, Distinct, has_id-keys, length-keys, keys-put, keys-delete, Distinct-without,
  length-without, Distinct-snoc,
}

-- The calls of a pool that change it themselves, with the times that they read. `get_peer_mut`,
-- `get_congestion_mut` and `all_connections_mut` hand out mutable references, with which the caller can write
-- anything, and are no calls here.
pub data Call (Addr : Type 0) : Type 0 where
  adding : PeerInfo Addr → ℕ → ℕ → Call Addr
  removing : Bytes → Call Addr
  cleaning maintaining : ℕ → Call Addr

unfoldable pub apply :
    {Addr F C : Type 0} → F → C → ConnectionPool Addr F C → Call Addr → ConnectionPool Addr F C
apply zero_f fresh p (adding peer now later) = (add_peer zero_f fresh p peer now later).0
apply zero_f fresh p (removing id) = remove_peer p id
apply zero_f fresh p (cleaning now) = cleanup_idle p now
apply zero_f fresh p (maintaining now) = maintain_connections p now

unfoldable pub run :
    {Addr F C : Type 0}
    → F
    → C
    → ConnectionPool Addr F C
    → List (Call Addr)
    → ConnectionPool Addr F C
run zero_f fresh p [] = p
run zero_f fresh p (c ∷ cs) = run zero_f fresh (apply zero_f fresh p c) cs

-- No more connections than allowed, one for each peer, and a congestion control for each.
pub record IsPooled {Addr F C : Type 0} (limit : ℕ) (p : ConnectionPool Addr F C) : Type 0 where
  pub same_limit : p.max_connections ≡ limit
  pub bounded : length p.connections ≤ limit
  pub distinct : Distinct (keys p.connections)
  pub same_keys : keys p.congestion ≡ keys p.connections

pub remove_peer-IsPooled :
    {Addr F C : Type 0} (limit : ℕ) (p : ConnectionPool Addr F C) (id : Bytes)
    → IsPooled limit p
    → IsPooled limit (remove_peer p id)
unfolding remove_peer
remove_peer-IsPooled limit p id h =
    let ek = keys-delete p.connections id in
    record {
      same_limit = h.same_limit;
      bounded = omega (
        arith,
        length-keys p.connections,
        length-keys (delete p.connections id),
        ap length ek,
        length-without (keys p.connections) id,
        h.bounded,
      );
      distinct = rw ek (Distinct-without (keys p.connections) id h.distinct);
      same_keys = rw (ek, keys-delete p.congestion id, h.same_keys) refl;
    }

remove_all-IsPooled :
    {Addr F C : Type 0} (limit : ℕ) (p : ConnectionPool Addr F C) (ids : List Bytes)
    → IsPooled limit p
    → IsPooled limit (remove_all p ids)
unfolding remove_all
remove_all-IsPooled limit p [] h = h
remove_all-IsPooled limit p (id ∷ ids) h =
    remove_all-IsPooled limit (remove_peer p id) ids (remove_peer-IsPooled limit p id h)

keys-map :
    {Addr F : Type 0} (now : ℕ) (m : List (Bytes × PeerConnection Addr F))
    → keys (map (λ x. (x.0, update_activity x.1 now)) m) ≡ keys m
unfolding keys
keys-map now [] = refl
keys-map now ((i, c) ∷ rest) = rw (keys-map now rest) refl

maintain-IsPooled :
    {Addr F C : Type 0} (limit : ℕ) (p : ConnectionPool Addr F C) (now : ℕ)
    → IsPooled limit p
    → IsPooled limit (maintain_connections p now)
unfolding maintain_connections
maintain-IsPooled limit p now h =
    let ek = keys-map now p.connections in
    record {
      same_limit = h.same_limit;
      bounded = omega (
        arith,
        length-keys p.connections,
        length-keys (map (λ x. (x.0, update_activity x.1 now)) p.connections),
        ap length ek,
        h.bounded,
      );
      distinct = rw ek h.distinct;
      same_keys = rw ek h.same_keys;
    }

-- A connection that is put for a peer without one, below the limit.
put-IsPooled :
    {Addr F C : Type 0} (limit : ℕ) (p : ConnectionPool Addr F C) (id : Bytes)
    (c : PeerConnection Addr F) (g : C)
    → IsPooled limit p
    → length p.connections < limit
    → contains_key p.connections id ≡ false
    → IsPooled limit
        (record p { connections = put p.connections id c; congestion = put p.congestion id g })
put-IsPooled limit p id c g h room absent =
    let missing : has_id (keys p.connections) id ≡ false =
      sym (has_id-keys p.connections id) ∙ absent in
    let ek = keys-put p.connections id c missing in
    let eg = keys-put p.congestion id g (rw h.same_keys missing) in
    record {
      same_limit = h.same_limit;
      bounded = omega (
        arith,
        length-keys p.connections,
        length-keys (put p.connections id c),
        ap length ek,
        length-append (keys p.connections) (id ∷ []),
        room,
      );
      distinct = rw ek (Distinct-snoc (keys p.connections) id h.distinct missing);
      same_keys = rw (ek, eg, h.same_keys) refl;
    }

add_peer-IsPooled :
    {Addr F C : Type 0} (zero_f : F) (fresh : C) (limit : ℕ) (p : ConnectionPool Addr F C)
    (peer : PeerInfo Addr) (now later : ℕ)
    → IsPooled limit p
    → IsPooled limit (add_peer zero_f fresh p peer now later).0
unfolding add_peer
add_peer-IsPooled zero_f fresh limit p peer now later h =
    elim (Bool-cases (leb p.max_connections (length p.connections))) [
      | inl q ↦ rw q h
      | inr q ↦ elim (Bool-cases (contains_key p.connections peer.peer_id)) [
        | inl r ↦ rw (q, r) h
        | inr r ↦
            let c = new_connection zero_f peer.peer_id peer.addr now later in
            let room : length p.connections < limit = ground (arith, q, h.same_limit) in
            rw (q, r) (put-IsPooled limit p peer.peer_id c fresh h room r)
      ]
    ]

run_calls-IsPooled :
    {Addr F C : Type 0} (zero_f : F) (fresh : C) (limit : ℕ) (p : ConnectionPool Addr F C)
    (cs : List (Call Addr))
    → IsPooled limit p
    → IsPooled limit (run zero_f fresh p cs)
unfolding run apply cleanup_idle
run_calls-IsPooled zero_f fresh limit p [] h = h
run_calls-IsPooled zero_f fresh limit p (adding peer now later ∷ cs) h =
    run_calls-IsPooled zero_f fresh limit (add_peer zero_f fresh p peer now later).0 cs
      (add_peer-IsPooled zero_f fresh limit p peer now later h)
run_calls-IsPooled zero_f fresh limit p (removing id ∷ cs) h =
    run_calls-IsPooled zero_f fresh limit (remove_peer p id) cs (remove_peer-IsPooled limit p id h)
run_calls-IsPooled zero_f fresh limit p (cleaning now ∷ cs) h =
    run_calls-IsPooled zero_f fresh limit (cleanup_idle p now) cs
      (remove_all-IsPooled limit p (idle_ids now p.connections) h)
run_calls-IsPooled zero_f fresh limit p (maintaining now ∷ cs) h =
    run_calls-IsPooled zero_f fresh limit (maintain_connections p now) cs
      (maintain-IsPooled limit p now h)

-- After any calls of `add_peer`, `remove_peer`, `cleanup_idle` and `maintain_connections` (not of the methods
-- that hand out mutable references to the maps or their values), a pool keeps its limit, which is at most 50,
-- and holds no more connections than it, at most one for each identifier, and a congestion control for
-- exactly the identifiers with a connection.
pub run-IsPooled :
    {Addr F C : Type 0} (zero_f : F) (fresh : C) (limit : ℕ) (cs : List (Call Addr))
    → (min limit 50 ≤ 50) × IsPooled (min limit 50) (run zero_f fresh (new limit) cs)
unfolding new keys
run-IsPooled zero_f fresh limit cs = (
  omega arith,
  run_calls-IsPooled zero_f fresh (min limit 50) (new limit) cs
      (record { same_limit = refl; bounded = omega arith; distinct = tt; same_keys = refl }),
)
