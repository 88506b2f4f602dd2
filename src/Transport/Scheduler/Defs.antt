-- ===== src/Transport/Scheduler/Defs.antt =====
-- crates/qvs-transport/src/scheduler.rs: the record and the methods. A HashSet is a list without
-- repetitions, the priority cache an association list, and the piece counts a function.
use qvod_player.Prelude.{
  ℕ, zero, suc, ◌+◌, ◌-◌, Bool, false, ◌&&◌, ◌||◌, Option, none, some, List, [], ◌∷◌, map, leb, ltb,
  ◌==◌, if◌then◌else◌, u32, Bytes,
}
use qvod_player.Core.Meta.{FileMeta, PiecePriority, critical, high, normal, low}
use qvod_player.Core.Meta
use qvod_player.Core.Bitfield.Defs.{Bitfield, has, count}
use qvod_player.Transport.PeerWire.State.{BlockRequest}

pub record PieceScheduler : Type 0 where
  pub metadata : FileMeta
  pub playhead_piece : ℕ
  pub download_queue : List ℕ
  pub requested : List ℕ
  pub completed : List ℕ
  pub priority_cache : List (ℕ × PiecePriority)
  pub seek_target : Option ℕ

unfoldable pub new : FileMeta → PieceScheduler
new m = record {
  metadata = m;
  playhead_piece = 0;
  download_queue = [];
  requested = [];
  completed = [];
  priority_cache = [];
  seek_target = none;
}

unfoldable pub num_pieces : PieceScheduler → Option ℕ
unfolding Meta.num_pieces
num_pieces s = Meta.num_pieces s.metadata

-- `HashSet::contains`, `insert` and `remove`
unfoldable pub contains : List ℕ → ℕ → Bool
contains [] x = false
contains (y ∷ ys) x = y == x || contains ys x

unfoldable pub insert : ℕ → List ℕ → List ℕ
insert x ys = if contains ys x then ys else x ∷ ys

unfoldable pub remove : ℕ → List ℕ → List ℕ
remove x [] = []
remove x (y ∷ ys) = if y == x then remove x ys else y ∷ remove x ys

unfoldable pub set_playhead : PieceScheduler → ℕ → PieceScheduler
set_playhead s piece = record s { playhead_piece = piece }

unfoldable pub mark_completed : PieceScheduler → ℕ → PieceScheduler
unfolding insert remove
mark_completed s piece = record s {
  completed = insert piece s.completed;
  requested = remove piece s.requested;
}

unfoldable pub mark_requested : PieceScheduler → ℕ → PieceScheduler
unfolding insert
mark_requested s piece = record s { requested = insert piece s.requested }

unfoldable pub is_completed : PieceScheduler → ℕ → Bool
is_completed s piece = contains s.completed piece

unfoldable pub is_requested : PieceScheduler → ℕ → Bool
is_requested s piece = contains s.requested piece

unfoldable pub set_seek_target : PieceScheduler → ℕ → PieceScheduler
set_seek_target s piece = record s { seek_target = some piece; playhead_piece = piece }

unfoldable pub cached : List (ℕ × PiecePriority) → ℕ → Option PiecePriority
cached [] piece = none
cached ((p, v) ∷ rest) piece = if p == piece then some v else cached rest piece

-- `piece.abs_diff(playhead)` against the bounds of the classes.
unfoldable pub by_distance : ℕ → ℕ → PiecePriority
by_distance piece playhead =
    let dist = (piece - playhead) + (playhead - piece) in
    if piece == playhead
    then critical
    else if leb dist 2
    then high
    else if leb dist 16
    then normal
    else low

-- The priority, and the cache that the method leaves.
unfoldable pub calculate_priority : PieceScheduler → ℕ → PiecePriority × PieceScheduler
unfolding by_distance
calculate_priority s piece = elim (cached s.priority_cache piece) [
  | some v ↦ (v, s)
  | none ↦
      let v = by_distance piece s.playhead_piece in
      (v, record s { priority_cache = (piece, v) ∷ s.priority_cache })
]

-- The first two loops of `update_download_queue`: each peer, and each piece from 0 on.
unfoldable pub count_pieces : ℕ → Bitfield → (ℕ → ℕ) → ℕ → ℕ
count_pieces zero b counts = counts
count_pieces (suc n) b counts =
    let before = count_pieces n b counts in
    λ j. if has b n && j == n then suc (before n) else before j

unfoldable pub count_peers : ℕ → List Bitfield → (ℕ → ℕ) → ℕ → ℕ
unfolding count_pieces
count_peers n [] counts = counts
count_peers n (b ∷ bs) counts = count_peers n bs (count_pieces n b counts)

unfoldable pub peer_count : List Bitfield → ℕ
peer_count [] = 0
peer_count (b ∷ bs) = suc (peer_count bs)

unfoldable pub priority_score : PiecePriority → ℕ
priority_score critical = 1000
priority_score high = 100
priority_score normal = 10
priority_score low = 0

unfoldable pub seek_bonus : Option ℕ → ℕ → ℕ
seek_bonus none piece = 0
seek_bonus (some t) piece = if leb (t - 2) piece && leb piece (u32 (t + 2)) then 500 else 0

-- The loop that scores the pieces that are neither completed nor requested, with `left` pieces to go.
unfoldable pub score_loop : ℕ → ℕ → ℕ → (ℕ → ℕ) → PieceScheduler → List (ℕ × ℕ) × PieceScheduler
unfolding priority_score seek_bonus
score_loop zero piece all counts s = ([], s)
score_loop (suc left) piece all counts s =
    let (v, s') = calculate_priority s piece in
    let score = priority_score v + (all - counts piece) + seek_bonus s.seek_target piece in
    let (more, t) = score_loop left (suc piece) all counts s' in
    let skipped = score_loop left (suc piece) all counts s in
    if contains s.completed piece || contains s.requested piece
    then skipped
    else ((piece, score) ∷ more, t)

-- `sort_by(|a, b| b.1.cmp(&a.1))`, a stable sort from high to low.
unfoldable pub place : ℕ × ℕ → List (ℕ × ℕ) → List (ℕ × ℕ)
place x [] = x ∷ []
place x (y ∷ ys) = if leb y.1 x.1 then x ∷ y ∷ ys else y ∷ place x ys

unfoldable pub sort_scored : List (ℕ × ℕ) → List (ℕ × ℕ)
unfolding place
sort_scored [] = []
sort_scored (x ∷ xs) = place x (sort_scored xs)

unfoldable pub update_download_queue : PieceScheduler → List Bitfield → Option PieceScheduler
update_download_queue s peers = elim (num_pieces s) [
  | none ↦ none
  | some n ↦
      let (scored, t) = score_loop n 0 (peer_count peers) (count_peers n peers (λ _. 0)) s in
      some (record t { download_queue = map (λ x. x.0) (sort_scored scored) })
]

unfoldable pub next_request : PieceScheduler → Option BlockRequest
next_request s = elim s.download_queue [
  | [] ↦ none
  | piece ∷ _ ↦ some (record { piece_index = piece; begin = 0; length = 16384 })
]

-- `filter(has).min_by_key(count)`: the first of the peers with the least count, kept in `best`.
unfoldable pub least :
    ℕ → Option (Bytes × Bitfield) → List (Bytes × Bitfield) → Option (Bytes × Bitfield)
least piece best [] = best
least piece best ((id, b) ∷ rest) =
    least piece
      (if has b piece
        then elim best [
          | none ↦ some (id, b)
          | some (i, c) ↦ if ltb (count b) (count c) then some (id, b) else some (i, c)
        ]
        else best)
      rest

unfoldable pub select_peer_for_piece : ℕ → List (Bytes × Bitfield) → Option Bytes
unfolding least
select_peer_for_piece piece peers = elim (least piece none peers) [
  | none ↦ none
  | some (id, b) ↦ some id
]

unfoldable pub rarest_first : ℕ → List Bitfield → ℕ
rarest_first piece [] = 0
rarest_first piece (b ∷ bs) =
    if has b piece then suc (rarest_first piece bs) else rarest_first piece bs
