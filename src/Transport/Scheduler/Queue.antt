-- ===== src/Transport/Scheduler/Queue.antt =====
-- What `update_download_queue` puts into the queue, and in which order.
use native.Mathlib.Decide.{ℕ_discrete}
use qvod_player.Prelude.{
  ℕ, zero, suc, ◌+◌, ◌≡◌, ◌∙◌, refl, sym, ap, Bool, ◌&&◌, ◌||◌, not, some, List, [], ◌∷◌, map, leb,
  ltb, ◌==◌, if◌then◌else◌, arith, Option-cases,
}
use qvod_player.Core.Bitfield.Defs.{Bitfield}
use qvod_player.Transport.Scheduler.Defs.{
  PieceScheduler, num_pieces, contains, cached, calculate_priority, count_peers, peer_count,
  score_loop, place, sort_scored, update_download_queue,
}

abbrev Scores : Type 0
Scores = List (ℕ × ℕ)

-- How often a piece stands in a queue, and in a list of scores.
unfoldable pub occurrences : ℕ → List ℕ → ℕ
occurrences p [] = 0
occurrences p (x ∷ xs) = if x == p then suc (occurrences p xs) else occurrences p xs

scored_times : ℕ → Scores → ℕ
scored_times p [] = 0
scored_times p ((x, v) ∷ xs) = if x == p then suc (scored_times p xs) else scored_times p xs

occurrences-map : (p : ℕ) (xs : Scores) → occurrences p (map (λ x. x.0) xs) ≡ scored_times p xs
unfolding occurrences scored_times
occurrences-map p [] = refl
occurrences-map p ((x, v) ∷ xs) = ground (arith, occurrences-map p xs)

scored_times-place :
    (p : ℕ) (x : ℕ × ℕ) (ys : Scores) → scored_times p (place x ys) ≡ scored_times p (x ∷ ys)
unfolding scored_times place
scored_times-place p x [] = refl
scored_times-place p x ((y, v) ∷ ys) = ground (arith, scored_times-place p x ys)

scored_times-cons :
    (p : ℕ) (x : ℕ × ℕ) (xs ys : Scores)
    → scored_times p xs ≡ scored_times p ys
    → scored_times p (x ∷ xs) ≡ scored_times p (x ∷ ys)
unfolding scored_times
scored_times-cons p x xs ys h = ground arith

scored_times-sort : (p : ℕ) (xs : Scores) → scored_times p (sort_scored xs) ≡ scored_times p xs
unfolding sort_scored
scored_times-sort p [] = refl
scored_times-sort p ((x, v) ∷ xs) =
    scored_times-place p (x, v) (sort_scored xs)
    ∙ scored_times-cons p (x, v) (sort_scored xs) xs (scored_times-sort p xs)

pub priority_keeps :
    (s : PieceScheduler) (piece : ℕ)
    → ((calculate_priority s piece).1.completed ≡ s.completed)
      × ((calculate_priority s piece).1.requested ≡ s.requested)
      × ((calculate_priority s piece).1.seek_target ≡ s.seek_target)
unfolding calculate_priority
priority_keeps s piece = ground (arith, Option-cases (cached s.priority_cache piece))

-- The piece is one to download.
abbrev pub is_wanted : List ℕ → List ℕ → ℕ → Bool
is_wanted completed requested p = not (contains completed p || contains requested p)

scored_times-loop :
    (p left piece all : ℕ) (counts : ℕ → ℕ) (s : PieceScheduler) (c r : List ℕ)
    → s.completed ≡ c
    → s.requested ≡ r
    → scored_times p (score_loop left piece all counts s).0
      ≡ (if (leb piece p && ltb p (piece + left)) && is_wanted c r p then 1 else 0)
unfolding score_loop scored_times
scored_times-loop p zero piece all counts s c r hc hr = ground arith
scored_times-loop p (suc left) piece all counts s c r hc hr =
    let (kc, kr, _) = priority_keeps s piece in
    let deep =
      scored_times-loop p left (suc piece) all counts (calculate_priority s piece).1 c r (kc ∙ hc)
        (kr ∙ hr) in
    let flat = scored_times-loop p left (suc piece) all counts s c r hc hr in
    elim (ℕ_discrete piece p) [
      | yes e ↦ ground (arith, deep, flat, hc, hr, e)
      | no ne ↦ ground (arith, deep, flat, hc, hr, ne)
    ]

-- The scores that `update_download_queue` sorts, and the scheduler that scoring them leaves.
abbrev pub scores : PieceScheduler → List Bitfield → ℕ → Scores × PieceScheduler
scores s peers n = score_loop n 0 (peer_count peers) (count_peers n peers (λ _. 0)) s

pub updated_fields :
    (s : PieceScheduler) (peers : List Bitfield) (n : ℕ) (t : PieceScheduler)
    → num_pieces s ≡ some n
    → update_download_queue s peers ≡ some t
    → (t.download_queue ≡ map (λ x. x.0) (sort_scored (scores s peers n).0))
      × (t.priority_cache ≡ (scores s peers n).1.priority_cache)
unfolding update_download_queue
updated_fields s peers n t hn h =
    let out = scores s peers n in
    let made : PieceScheduler = record (out.1) {
      download_queue = map (λ x. x.0) (sort_scored out.0);
    } in
    let e : made ≡ t = cc (rw (hn, update_download_queue) at h) in
    (
      sym (ap (λ (x : PieceScheduler). x.download_queue) e),
      sym (ap (λ (x : PieceScheduler). x.priority_cache) e),
    )

-- The queue holds every piece of the file that is neither completed nor requested, once, and no
-- other piece.
pub update_download_queue_pieces :
    (s : PieceScheduler) (peers : List Bitfield) (n : ℕ) (t : PieceScheduler) (p : ℕ)
    → num_pieces s ≡ some n
    → update_download_queue s peers ≡ some t
    → occurrences p t.download_queue
      ≡ (if ltb p n && is_wanted s.completed s.requested p then 1 else 0)
update_download_queue_pieces s peers n t p hn h =
    let all = peer_count peers in
    let counts = count_peers n peers (λ _. 0) in
    let (e, _) = updated_fields s peers n t hn h in
    let loop = scored_times-loop p n 0 all counts s s.completed s.requested refl refl in
    ap (occurrences p) e
    ∙ occurrences-map p (sort_scored (scores s peers n).0)
    ∙ scored_times-sort p (scores s peers n).0
    ∙ loop
    ∙ ground arith
