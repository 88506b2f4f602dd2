-- ===== src/Media/Sync/Defs.antt =====
-- crates/qvs-media/src/sync.rs. An `i64` is kept as its two's complement word, a number below 2 ^ 64.
use qvod_player.Prelude.{ℕ, ◌+◌, ◌-◌, ◌^◌, Bool, ltb, if◌then◌else◌, u64}

pub data SyncStrategy : Type 0 where
  audio_master video_master external_master : SyncStrategy

pub data SyncAction : Type 0 where
  render drop_frame repeat_frame : SyncAction

pub record AudioVideoSync : Type 0 where
  pub strategy : SyncStrategy
  pub last_video_pts : ℕ
  pub last_audio_pts : ℕ
  pub drift_ms : ℕ
  pub dropped_frames : ℕ

unfoldable pub new : AudioVideoSync
new = record {
  strategy = audio_master;
  last_video_pts = 0;
  last_audio_pts = 0;
  drift_ms = 0;
  dropped_frames = 0;
}

unfoldable pub set_strategy : AudioVideoSync → SyncStrategy → AudioVideoSync
set_strategy s v = record s { strategy = v }

-- The order of two `i64`: the words, each moved by half of the range.
unfoldable pub lt_i64 : ℕ → ℕ → Bool
lt_i64 a b = ltb (u64 (a + 2 ^ 63)) (u64 (b + 2 ^ 63))

unfoldable pub neg_i64 : ℕ → ℕ
neg_i64 a = u64 (2 ^ 64 - a)

unfoldable pub abs_i64 : ℕ → ℕ
unfolding lt_i64 neg_i64
abs_i64 a = if lt_i64 a 0 then neg_i64 a else a

-- The `match` on the strategy.
unfoldable pub action_for : SyncStrategy → ℕ → SyncAction
unfolding lt_i64 neg_i64 abs_i64
action_for audio_master diff =
    if lt_i64 20 diff
    then drop_frame
    else if lt_i64 diff (neg_i64 100)
    then repeat_frame
    else render
action_for video_master diff = render
action_for external_master diff = if lt_i64 50 (abs_i64 diff) then drop_frame else render

unfoldable pub sync_video : AudioVideoSync → ℕ → ℕ → AudioVideoSync × SyncAction
unfolding action_for
sync_video s video audio =
    let diff = u64 (video + 2 ^ 64 - audio) in
    (
      record s { last_video_pts = video; last_audio_pts = audio; drift_ms = diff },
      action_for s.strategy diff,
    )

unfoldable pub sync_audio : AudioVideoSync → ℕ → AudioVideoSync × SyncAction
sync_audio s audio = (s, render)

unfoldable pub reset : AudioVideoSync → AudioVideoSync
reset s = record s { last_video_pts = 0; last_audio_pts = 0; drift_ms = 0; dropped_frames = 0 }
