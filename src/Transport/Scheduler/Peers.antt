-- ===== src/Transport/Scheduler/Peers.antt =====
-- Which peer `select_peer_for_piece` chooses.
use mathlib.Core.List.{Memᴰ}
use qvod_player.Prelude.{
  ℕ, ◌≤◌, ◌≡◌, refl, sym, ◌⊎◌, inl, inr, true, Option, none, some, List, [], ◌∷◌, ltb, arith,
  Bool-cases, Option-cases, Bytes, All,
}
use qvod_player.Core.Bitfield.Defs.{Bitfield, has, count}
use qvod_player.Transport.Scheduler.Defs.{least, select_peer_for_piece}

abbrev pub Peer : Type 0
Peer = Bytes × Bitfield

-- `x` comes from `best` or from the peers that have the piece, and counts no more than any of them.
record IsLeast (piece : ℕ) (best : Option Peer) (peers : List Peer) (x : Peer) : Type 0 where
  found : (best ≡ some x) ⊎ (Memᴰ x peers × (has x.1 piece ≡ true))
  below_best : (b : Peer) → best ≡ some b → count x.1 ≤ count b.1
  below_all : All (λ y. has y.1 piece ≡ true → count x.1 ≤ count y.1) peers

-- The step of the loop, where the peer takes the place of `best`, and where it does not.
IsLeast-taken :
    (piece : ℕ) (best : Option Peer) (p : Peer) (peers : List Peer) (x : Peer)
    → has p.1 piece ≡ true
    → ((b : Peer) → best ≡ some b → count p.1 ≤ count b.1)
    → IsLeast piece (some p) peers x
    → IsLeast piece best (p ∷ peers) x
IsLeast-taken piece best p peers x h le l = record {
  found = elim l.found [
    | inl e ↦ let same : p ≡ x = cc e in inr (Memᴰ.head (sym same), rw (← same) h)
    | inr (m, hx) ↦ inr (Memᴰ.tail m, hx)
  ];
  below_best = λ b e. omega (arith, le b e, l.below_best p refl);
  below_all = ((λ _. l.below_best p refl), l.below_all);
}

IsLeast-kept :
    (piece : ℕ) (best : Option Peer) (p : Peer) (peers : List Peer) (x : Peer)
    → (has p.1 piece ≡ true → count x.1 ≤ count p.1)
    → IsLeast piece best peers x
    → IsLeast piece best (p ∷ peers) x
IsLeast-kept piece best p peers x le l = record {
  found = elim l.found [ inl e ↦ inl e | inr (m, hx) ↦ inr (Memᴰ.tail m, hx) ];
  below_best = l.below_best;
  below_all = (le, l.below_all);
}

least-IsLeast :
    (piece : ℕ) (best : Option Peer) (peers : List Peer) (x : Peer)
    → least piece best peers ≡ some x
    → IsLeast piece best peers x
unfolding least
least-IsLeast piece best [] x h = record {
  found = inl h;
  below_best = λ b e. let same : b ≡ x = cc (e, h) in rw same (omega arith);
  below_all = tt;
}
least-IsLeast piece none ((id, b) ∷ rest) x h = elim (Bool-cases (has b piece)) [
  | inl p ↦
      IsLeast-taken piece none (id, b) rest x p (λ _ e. cc)
        (least-IsLeast piece (some (id, b)) rest x (rw p at h))
  | inr p ↦
      IsLeast-kept piece none (id, b) rest x (λ q. cc) (least-IsLeast piece none rest x (rw p at h))
]
least-IsLeast piece (some (i, c)) ((id, b) ∷ rest) x h = elim (Bool-cases (has b piece)) [
  | inl p ↦ elim (Bool-cases (ltb (count b) (count c))) [
    | inl q ↦
        IsLeast-taken piece (some (i, c)) (id, b) rest x p
          (λ y e. let same : (i, c) ≡ y = cc e in rw (← same) (ground (arith, q)))
          (least-IsLeast piece (some (id, b)) rest x (rw (p, q) at h))
    | inr q ↦
        let kept = least-IsLeast piece (some (i, c)) rest x (rw (p, q) at h) in
        IsLeast-kept piece (some (i, c)) (id, b) rest x
          (λ _. ground (arith, q, kept.below_best (i, c) refl)) kept
  ]
  | inr p ↦
      IsLeast-kept piece (some (i, c)) (id, b) rest x (λ q. cc)
        (least-IsLeast piece (some (i, c)) rest x (rw p at h))
]

-- The chosen peer is one of the peers, has the piece, and holds no more pieces than any other peer
-- that has it.
pub select_peer_for_piece_least :
    (piece : ℕ) (peers : List Peer) (id : Bytes)
    → select_peer_for_piece piece peers ≡ some id
    → (b : Bitfield) × Memᴰ (id, b) peers
      × (has b piece ≡ true)
      × All (λ y. has y.1 piece ≡ true → count b ≤ count y.1) peers
unfolding select_peer_for_piece
select_peer_for_piece_least piece peers id h = elim (Option-cases (least piece none peers)) [
  | inl e ↦ cc (rw (e, select_peer_for_piece) at h)
  | inr ((i, b), e) ↦
      let same : i ≡ id = cc (rw (e, select_peer_for_piece) at h) in
      let l = least-IsLeast piece none peers (i, b) e in
      elim l.found [ inl f ↦ cc | inr (m, hx) ↦ rw (← same) (b, m, hx, l.below_all) ]
]
