-- ===== src/Transport/Scheduler/Order.antt =====
-- The order of the queue: by score from high to low, the score of each piece spelled out.
use native.Mathlib.Decide.{ℕ_discrete}
use qvod_player.Prelude.{
  ℕ, zero, suc, ◌+◌, ◌-◌, ◌≤◌, ◌≡◌, ◌∙◌, refl, inl, inr, ◌&&◌, ◌||◌, Option, some, List, [], ◌∷◌,
  map, leb, ltb, if◌then◌else◌, arith, All, Bool-cases, Option-cases,
}
use qvod_player.Core.Meta.{PiecePriority}
use qvod_player.Core.Bitfield.Defs.{Bitfield, has}
use qvod_player.Transport.Scheduler.Defs.{
  PieceScheduler, num_pieces, contains, cached, calculate_priority, count_pieces, count_peers,
  peer_count, priority_score, seek_bonus, score_loop, place, sort_scored, update_download_queue,
  rarest_first,
}
use qvod_player.Transport.Scheduler.Queue.{priority_keeps, scores, updated_fields}

-- From high to low.
abbrev pub Descending : List (ℕ × ℕ) → Type 0
Descending [] = Unit
Descending (x ∷ xs) = All (λ y. y.1 ≤ x.1) xs × Descending xs

All-place {κ} :
    (P : ℕ × ℕ → Type κ) (x : ℕ × ℕ) (ys : List (ℕ × ℕ)) → P x → All P ys → All P (place x ys)
unfolding place
All-place P x [] hx h = (hx, tt)
All-place P x (y ∷ ys) hx h = elim (Bool-cases (leb y.1 x.1)) [
  | inl p ↦ rw p (hx, h)
  | inr p ↦ rw p (h.0, All-place P x ys hx h.1)
]

All-sort {κ} : (P : ℕ × ℕ → Type κ) (xs : List (ℕ × ℕ)) → All P xs → All P (sort_scored xs)
unfolding sort_scored
All-sort P [] h = h
All-sort P (x ∷ xs) h = All-place P x (sort_scored xs) h.0 (All-sort P xs h.1)

All-weaken : (a b : ℕ) (ys : List (ℕ × ℕ)) → a ≤ b → All (λ y. y.1 ≤ a) ys → All (λ y. y.1 ≤ b) ys
All-weaken a b [] h l = tt
All-weaken a b (y ∷ ys) h l = (omega arith, All-weaken a b ys h l.1)

Descending-place : (x : ℕ × ℕ) (ys : List (ℕ × ℕ)) → Descending ys → Descending (place x ys)
unfolding place
Descending-place x [] d = (tt, tt)
Descending-place x (y ∷ ys) d = elim (Bool-cases (leb y.1 x.1)) [
  | inl p ↦ let le : y.1 ≤ x.1 = ground (arith, p) in rw p ((le, All-weaken y.1 x.1 ys le d.0), d)
  | inr p ↦
      let le : x.1 ≤ y.1 = ground (arith, p) in
      rw p (All-place (λ z. z.1 ≤ y.1) x ys le d.0, Descending-place x ys d.1)
]

Descending-sort : (xs : List (ℕ × ℕ)) → Descending (sort_scored xs)
unfolding sort_scored
Descending-sort [] = tt
Descending-sort (x ∷ xs) = Descending-place x (sort_scored xs) (Descending-sort xs)

-- A cached priority stays.
priority_cached :
    (s : PieceScheduler) (piece q : ℕ) (v : PiecePriority)
    → cached s.priority_cache q ≡ some v
    → cached (calculate_priority s piece).1.priority_cache q ≡ some v
unfolding calculate_priority cached
priority_cached s piece q v h = ground (arith, Option-cases (cached s.priority_cache piece))

priority_now :
    (s : PieceScheduler) (piece : ℕ)
    → cached (calculate_priority s piece).1.priority_cache piece
      ≡ some (calculate_priority s piece).0
unfolding calculate_priority cached
priority_now s piece = ground (arith, Option-cases (cached s.priority_cache piece))

cached-score_loop :
    (left piece all : ℕ) (counts : ℕ → ℕ) (s : PieceScheduler) (q : ℕ) (v : PiecePriority)
    → cached s.priority_cache q ≡ some v
    → cached (score_loop left piece all counts s).1.priority_cache q ≡ some v
unfolding score_loop
cached-score_loop zero piece all counts s q v h = h
cached-score_loop (suc left) piece all counts s q v h =
    let deep =
      cached-score_loop left (suc piece) all counts (calculate_priority s piece).1 q v
        (priority_cached s piece q v h) in
    let flat = cached-score_loop left (suc piece) all counts s q v h in ground (arith, deep, flat)

-- The score of a piece: its priority in the cache, how many peers lack it, and the bonus of the seek.
abbrev pub IsScored : List (ℕ × PiecePriority) → ℕ → (ℕ → ℕ) → Option ℕ → ℕ × ℕ → Type 0
IsScored cache all counts seek x =
    (v : PiecePriority) × (cached cache x.0 ≡ some v)
    × (x.1 ≡ priority_score v + (all - counts x.0) + seek_bonus seek x.0)

score_loop-IsScored :
    (left piece all : ℕ) (counts : ℕ → ℕ) (s : PieceScheduler) (seek : Option ℕ)
    → s.seek_target ≡ seek
    → let out = score_loop left piece all counts s in
      All (IsScored out.1.priority_cache all counts seek) out.0
unfolding score_loop
score_loop-IsScored zero piece all counts s seek h = tt
score_loop-IsScored (suc left) piece all counts s seek h =
    let (_, _, kept) = priority_keeps s piece in
    let s' = (calculate_priority s piece).1 in
    let v = (calculate_priority s piece).0 in
    let deep = score_loop-IsScored left (suc piece) all counts s' seek (kept ∙ h) in
    let flat = score_loop-IsScored left (suc piece) all counts s seek h in
    let now = cached-score_loop left (suc piece) all counts s' piece v (priority_now s piece) in
    elim (Bool-cases (contains s.completed piece || contains s.requested piece)) [
      | inl p ↦ rw p flat
      | inr p ↦ rw p ((v, now, rw h), deep)
    ]

count_pieces_lem :
    (n : ℕ) (b : Bitfield) (counts : ℕ → ℕ) (j : ℕ)
    → count_pieces n b counts j ≡ counts j + (if ltb j n && has b j then 1 else 0)
unfolding count_pieces
count_pieces_lem zero b counts j = ground arith
count_pieces_lem (suc n) b counts j = elim (ℕ_discrete j n) [
  | yes e ↦ rw e (ground (arith, count_pieces_lem n b counts n))
  | no ne ↦ ground (arith, ne, count_pieces_lem n b counts j)
]

-- How many peers have a piece of the file.
abbrev pub holders : ℕ → List Bitfield → ℕ → ℕ
holders n peers j = if ltb j n then rarest_first j peers else 0

count_peers_lem :
    (n : ℕ) (peers : List Bitfield) (counts : ℕ → ℕ) (j : ℕ)
    → count_peers n peers counts j ≡ counts j + holders n peers j
unfolding count_peers rarest_first
count_peers_lem n [] counts j = ground arith
count_peers_lem n (b ∷ bs) counts j =
    ground (arith, count_peers_lem n bs (count_pieces n b counts) j, count_pieces_lem n b counts j)

IsScored-counts :
    (cache : List (ℕ × PiecePriority)) (all : ℕ) (f g : ℕ → ℕ) (seek : Option ℕ) (xs : List (ℕ × ℕ))
    → ((j : ℕ) → f j ≡ g j)
    → All (IsScored cache all f seek) xs
    → All (IsScored cache all g seek) xs
IsScored-counts cache all f g seek [] h a = tt
IsScored-counts cache all f g seek (x ∷ xs) h ((v, c, e), a) =
    ((v, c, rw (← h x.0) e), IsScored-counts cache all f g seek xs h a)

zero_add : (n : ℕ) → 0 + n ≡ n
zero_add n = omega arith

-- The queue is in the order of scores that fall, and the score of each piece is the score of its
-- priority in the cache that is left, plus the number of peers that lack it, plus the bonus of a
-- seek that is near.
pub update_download_queue_order :
    (s : PieceScheduler) (peers : List Bitfield) (n : ℕ) (t : PieceScheduler)
    → num_pieces s ≡ some n
    → update_download_queue s peers ≡ some t
    → (l : List (ℕ × ℕ)) × (t.download_queue ≡ map (λ x. x.0) l)
      × Descending l
      × All (IsScored t.priority_cache (peer_count peers) (holders n peers) s.seek_target) l
update_download_queue_order s peers n t hn h =
    let all = peer_count peers in
    let counts = count_peers n peers (λ _. 0) in
    let out = scores s peers n in
    let (queue, cache) = updated_fields s peers n t hn h in
    let zero_base = λ (j : ℕ). count_peers_lem n peers (λ _. 0) j ∙ zero_add (holders n peers j) in
    let scored = score_loop-IsScored n 0 all counts s s.seek_target refl in
    let known =
      IsScored-counts out.1.priority_cache all counts (holders n peers) s.seek_target out.0
        zero_base scored in
    (
      sort_scored out.0,
      queue,
      Descending-sort out.0,
      rw cache (
          All-sort (IsScored out.1.priority_cache all (holders n peers) s.seek_target) out.0 known),
    )
