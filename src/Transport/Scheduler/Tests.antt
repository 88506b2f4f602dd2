-- ===== src/Transport/Scheduler/Tests.antt =====
-- The theorems on the scheduler at concrete inputs.
use qvod_player.Prelude.{
  ascii, ℕ, ◌≡◌, refl, false, ◌&&◌, none, some, List, [], ◌∷◌, map, ltb, if◌then◌else◌, Bytes, All,
}
use qvod_player.Core.Meta.{FileMeta, PiecePriority, critical, high, normal, low}
use qvod_player.Core.Meta
use qvod_player.Core.Bitfield.Defs.{Bitfield, has, count}
use qvod_player.Core.Bitfield.Bits
use qvod_player.Transport.Scheduler.Defs
use qvod_player.Transport.Scheduler.Defs.{
  PieceScheduler, new, mark_completed, mark_requested, set_playhead, set_seek_target, num_pieces,
  update_download_queue, calculate_priority, cached, peer_count, select_peer_for_piece,
  next_request,
}
use qvod_player.Transport.Scheduler.Queue.{update_download_queue_pieces, is_wanted, occurrences}
use qvod_player.Transport.Scheduler.Order.{
  update_download_queue_order, Descending, IsScored, holders,
}

abbrev file : FileMeta
file = record {
  info_hash = [];
  filename = ascii "film";
  file_size = 1000;
  piece_length = 300;
  pieces = [];
  keyframe_index = none;
  duration_ms = 0;
  video_codec = none;
  audio_codec = none;
  width = 0;
  height = 0;
  bitrate = 0;
  from_cache = false;
}

abbrev started : PieceScheduler
started = mark_requested (mark_completed (new file) 0) 2

-- Pieces 0, 1 and 3; pieces 3 and 4 of four, the last bit spare.
abbrev left_peer : Bitfield
left_peer = record { bytes = 208 ∷ []; num_pieces = 4 }

abbrev right_peer : Bitfield
right_peer = record { bytes = 16 ∷ []; num_pieces = 4 }

abbrev peers : List Bitfield
peers = left_peer ∷ right_peer ∷ []

abbrev queued : PieceScheduler
queued = record started {
  download_queue = 1 ∷ 3 ∷ [];
  priority_cache = (3, normal) ∷ (1, high) ∷ [];
}

four : num_pieces started ≡ some 4
unfolding num_pieces Meta.num_pieces new mark_completed mark_requested
four = refl

update_run : update_download_queue started peers ≡ some queued
unfolding update_download_queue num_pieces Meta.num_pieces new mark_completed mark_requested
    Defs.insert Defs.remove Defs.contains Defs.score_loop Defs.count_peers Defs.count_pieces
    Defs.peer_count Defs.sort_scored Defs.place calculate_priority Defs.by_distance Defs.cached has
    Bits.has_bit
update_run = refl

update_download_queue_pieces_example :
    occurrences 3 queued.download_queue
    ≡ (if ltb 3 4 && is_wanted started.completed started.requested 3 then 1 else 0)
update_download_queue_pieces_example =
    update_download_queue_pieces started peers 4 queued 3 four update_run

update_download_queue_order_example :
    (l : List (ℕ × ℕ)) × (queued.download_queue ≡ map (λ x. x.0) l)
    × Descending l
    × All
        (IsScored queued.priority_cache (peer_count peers) (holders 4 peers) started.seek_target)
        l
update_download_queue_order_example =
    update_download_queue_order started peers 4 queued four update_run

nothing_cached : cached started.priority_cache 1 ≡ none
unfolding cached new mark_completed mark_requested
nothing_cached = refl

abbrev named : List (Bytes × Bitfield)
named = (7 ∷ [], left_peer) ∷ (8 ∷ [], right_peer) ∷ []

select_run : select_peer_for_piece 3 named ≡ some (8 ∷ [])
unfolding select_peer_for_piece Defs.least has Bits.has_bit count Bits.count_ones
select_run = refl
