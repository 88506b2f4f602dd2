-- ===== src/Stream/Playback/Defs.antt =====
-- crates/qvs-stream/src/playback.rs: the records and the methods. The speeds and shares, which the
-- source keeps as `f64` and only compares to write a log line, are of any type.
use qvod_player.Prelude.{ℕ, Bool, true, false, Option, none, some, if◌then◌else◌}
use qvod_player.Core.Error.{Result, ok}

pub data StreamState : Type 0 where
  initializing buffering playing paused seeking ended error : StreamState

pub record StreamStats (F : Type 0) : Type 0 where
  pub position_ms : ℕ
  pub duration_ms : ℕ
  pub speed_bps : F
  pub buffered_seconds : F
  pub peer_count : ℕ
  pub state : StreamState
  pub download_progress : F
  pub bytes_downloaded : ℕ

pub record MediaStream (F : Type 0) : Type 0 where
  pub stats : StreamStats F
  pub paused : Bool
  pub seek_target : Option ℕ

-- `StreamStats::new`, with `0.0` given.
unfoldable pub new_stats : {F : Type 0} → F → ℕ → StreamStats F
new_stats zero_f duration = record {
  position_ms = 0;
  duration_ms = duration;
  speed_bps = zero_f;
  buffered_seconds = zero_f;
  peer_count = 0;
  state = initializing;
  download_progress = zero_f;
  bytes_downloaded = 0;
}

unfoldable pub new : {F : Type 0} → StreamStats F → MediaStream F
new stats = record { stats = stats; paused = true; seek_target = none }

abbrev pub with_state : {F : Type 0} → StreamState → MediaStream F → MediaStream F
with_state v s = record s { stats = record (s.stats) { state = v } }

unfoldable pub play : {F : Type 0} → MediaStream F → MediaStream F × Result (Unit {0})
play s = (with_state playing (record s { paused = false }), ok tt)

unfoldable pub pause : {F : Type 0} → MediaStream F → MediaStream F
pause s = with_state StreamState.paused (record s { paused = true })

unfoldable pub resume : {F : Type 0} → MediaStream F → MediaStream F
resume s = with_state playing (record s { paused = false })

unfoldable pub seek : {F : Type 0} → MediaStream F → ℕ → MediaStream F
seek s t = record s {
  seek_target = some t;
  stats = record (s.stats) { state = seeking; position_ms = t };
}

unfoldable pub is_paused : {F : Type 0} → MediaStream F → Bool
is_paused s = s.paused

abbrev pub state : {F : Type 0} → MediaStream F → StreamState
state s = s.stats.state

unfoldable pub end : {F : Type 0} → MediaStream F → MediaStream F
end s = with_state ended s

abbrev pub is_seeking : StreamState → Bool
is_seeking seeking = true
is_seeking _ = false

unfoldable pub update_position : {F : Type 0} → MediaStream F → ℕ → MediaStream F
update_position s t =
    let done =
      if is_seeking s.stats.state
      then with_state playing (record s { seek_target = none })
      else s in
    record done { stats = record (done.stats) { position_ms = t } }

unfoldable pub update_speed : {F : Type 0} → MediaStream F → F → MediaStream F
update_speed s v = record s { stats = record (s.stats) { speed_bps = v } }

unfoldable pub update_buffered : {F : Type 0} → MediaStream F → F → MediaStream F
update_buffered s v = record s { stats = record (s.stats) { buffered_seconds = v } }

unfoldable pub update_peers : {F : Type 0} → MediaStream F → ℕ → MediaStream F
update_peers s n = record s { stats = record (s.stats) { peer_count = n } }

unfoldable pub update_progress : {F : Type 0} → MediaStream F → F → ℕ → MediaStream F
update_progress s v n = record s {
  stats = record (s.stats) { download_progress = v; bytes_downloaded = n };
}
