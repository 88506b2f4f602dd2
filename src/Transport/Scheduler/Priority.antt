-- ===== src/Transport/Scheduler/Priority.antt =====
-- The priority of a piece, and its cache.
use qvod_player.Prelude.{ℕ, ◌+◌, ◌≤◌, ◌<◌, ◌≡◌, ◌≢◌, ◌↔◌, ◌⊎◌, none, arith, Option-cases}
use qvod_player.Core.Meta.{critical, high, low}
use qvod_player.Transport.Scheduler.Defs.{
  PieceScheduler, cached, by_distance, calculate_priority, set_playhead, set_seek_target,
}

-- A piece that has no cached priority gets it by its distance from the playhead: critical at the
-- playhead, high up to two pieces away, normal up to sixteen, low beyond.
pub calculate_priority_fresh :
    (s : PieceScheduler) (piece : ℕ)
    → cached s.priority_cache piece ≡ none
    → let v = (calculate_priority s piece).0 in
      let head = s.playhead_piece in
      ((v ≡ critical) ↔ (piece ≡ head))
      × ((v ≡ high) ↔ ((piece ≢ head) × (piece ≤ head + 2) × (head ≤ piece + 2)))
      × ((v ≡ low) ↔ ((head + 16 < piece) ⊎ (piece + 16 < head)))
unfolding calculate_priority by_distance
calculate_priority_fresh s piece h = ground (arith, h)

-- Once calculated, the priority of a piece stays the same, although the playhead and the seek target
-- move.
pub calculate_priority_stale :
    (s : PieceScheduler) (piece playhead target : ℕ)
    → let (v, t) = calculate_priority s piece in
      ((calculate_priority (set_playhead t playhead) piece).0 ≡ v)
      × ((calculate_priority (set_seek_target t target) piece).0 ≡ v)
unfolding calculate_priority cached set_playhead set_seek_target
calculate_priority_stale s piece playhead target =
    ground (arith, Option-cases (cached s.priority_cache piece))
