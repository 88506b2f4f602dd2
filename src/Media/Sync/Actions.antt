-- ===== src/Media/Sync/Actions.antt =====
-- What is done with a frame, and what is counted.
use qvod_player.Prelude.{
  ℕ, ◌+◌, ◌-◌, ◌^◌, ◌≤◌, ◌<◌, ◌≡◌, ◌↔◌, ◌⊎◌, refl, inl, inr, ltb, List, [], ◌∷◌, u64, arith,
  Bool-cases,
}
use qvod_player.Media.Sync.Defs.{
  AudioVideoSync, SyncStrategy, audio_master, video_master, external_master, SyncAction, render,
  drop_frame, repeat_frame, new, set_strategy, lt_i64, neg_i64, abs_i64, action_for, sync_video,
  sync_audio, reset,
}

-- The action that the strategy asks for, by the two times.
abbrev pub IsAction : SyncStrategy → ℕ → ℕ → SyncAction → Type 0
IsAction audio_master video audio a =
    ((a ≡ drop_frame) ↔ (audio + 20 < video)) × ((a ≡ repeat_frame) ↔ (video + 100 < audio))
IsAction video_master video audio a = a ≡ render
IsAction external_master video audio a =
    ((a ≡ drop_frame) ↔ ((audio + 50 < video) ⊎ (video + 50 < audio)))
    × ((a ≡ render) ↔ ((video ≤ audio + 50) × (audio ≤ video + 50)))

-- The words moved by half of the range, in times that fit an `i64`.
shifted : (v a : ℕ) → v < 2 ^ 63 → a < 2 ^ 63 → u64 (u64 (v + 2 ^ 64 - a) + 2 ^ 63) ≡ v + 2 ^ 63 - a
shifted v a hv ha = omega arith

shifted_pos : (k : ℕ) → k < 2 ^ 63 → u64 (k + 2 ^ 63) ≡ k + 2 ^ 63
shifted_pos k h = omega arith

shifted_neg : (k : ℕ) → k < 2 ^ 63 → u64 (u64 (2 ^ 64 - k) + 2 ^ 63) ≡ 2 ^ 63 - k
shifted_neg k h = omega arith

over_lem :
    (k v a : ℕ)
    → k < 2 ^ 63
    → v < 2 ^ 63
    → a < 2 ^ 63
    → lt_i64 k (u64 (v + 2 ^ 64 - a)) ≡ ltb (a + k) v
unfolding lt_i64
over_lem k v a hk hv ha = rw (shifted v a hv ha, shifted_pos k hk) (ground arith)

under_lem :
    (k v a : ℕ)
    → k < 2 ^ 63
    → v < 2 ^ 63
    → a < 2 ^ 63
    → lt_i64 (u64 (v + 2 ^ 64 - a)) (neg_i64 k) ≡ ltb (v + k) a
unfolding lt_i64 neg_i64
under_lem k v a hk hv ha = rw (shifted v a hv ha, shifted_neg k hk) (ground arith)

negative_lem : (v a : ℕ) → v < 2 ^ 63 → a < 2 ^ 63 → lt_i64 (u64 (v + 2 ^ 64 - a)) 0 ≡ ltb v a
unfolding lt_i64
negative_lem v a hv ha = rw (shifted v a hv ha) (ground arith)

flipped : (v a : ℕ) → v < a → a < 2 ^ 63 → neg_i64 (u64 (v + 2 ^ 64 - a)) ≡ u64 (a + 2 ^ 64 - v)
unfolding neg_i64
flipped v a lt ha = omega arith

-- How far two times are apart.
apart :
    (v a : ℕ)
    → v < 2 ^ 63
    → a < 2 ^ 63
    → lt_i64 50 (abs_i64 (u64 (v + 2 ^ 64 - a))) ≡ ltb 50 ((v - a) + (a - v))
unfolding abs_i64
apart v a hv ha = elim (Bool-cases (ltb v a)) [
  | inl p ↦
      let lt : v < a = ground (arith, p) in
      rw (negative_lem v a hv ha, p, flipped v a lt ha, over_lem 50 a v (omega arith) ha hv)
        (ground arith)
  | inr p ↦ rw (negative_lem v a hv ha, p, over_lem 50 v a (omega arith) hv ha) (ground arith)
]

action_for-IsAction :
    (v : SyncStrategy) (video audio : ℕ)
    → video < 2 ^ 63
    → audio < 2 ^ 63
    → IsAction v video audio (action_for v (u64 (video + 2 ^ 64 - audio)))
unfolding action_for
action_for-IsAction audio_master video audio hv ha =
    rw (over_lem 20 video audio (omega arith) hv ha, under_lem 100 video audio (omega arith) hv ha)
      (ground arith)
action_for-IsAction video_master video audio hv ha = refl
action_for-IsAction external_master video audio hv ha = rw (apart video audio hv ha) (ground arith)

-- For times below 2 ^ 63, the action for a frame: with the audio as master, it is dropped where the video
-- is more than 20 ms ahead, and repeated where it is more than 100 ms behind; with the video as master, it
-- is rendered; with an external master, it is dropped where the two are more than 50 ms apart and rendered
-- otherwise.
pub sync_video-IsAction :
    (s : AudioVideoSync) (video audio : ℕ)
    → video < 2 ^ 63
    → audio < 2 ^ 63
    → IsAction s.strategy video audio (sync_video s video audio).1
unfolding sync_video
sync_video-IsAction s video audio hv ha = action_for-IsAction s.strategy video audio hv ha

-- The calls of the synchronisation.
pub data Call : Type 0 where
  strategy_call : SyncStrategy → Call
  video_call : ℕ → ℕ → Call
  audio_call : ℕ → Call
  reset_call : Call

unfoldable pub apply : AudioVideoSync → Call → AudioVideoSync
apply s (strategy_call v) = set_strategy s v
apply s (video_call v a) = (sync_video s v a).0
apply s (audio_call a) = (sync_audio s a).0
apply s reset_call = reset s

unfoldable pub run : AudioVideoSync → List Call → AudioVideoSync
run s [] = s
run s (c ∷ cs) = run (apply s c) cs

apply_uncounted :
    (s : AudioVideoSync) (c : Call) → s.dropped_frames ≡ 0 → (apply s c).dropped_frames ≡ 0
unfolding apply set_strategy sync_video sync_audio reset
apply_uncounted s (strategy_call v) h = h
apply_uncounted s (video_call v a) h = h
apply_uncounted s (audio_call a) h = h
apply_uncounted s reset_call h = refl

run_uncounted :
    (s : AudioVideoSync) (cs : List Call) → s.dropped_frames ≡ 0 → (run s cs).dropped_frames ≡ 0
unfolding run
run_uncounted s [] h = h
run_uncounted s (c ∷ cs) h = run_uncounted (apply s c) cs (apply_uncounted s c h)

-- After any calls, whatever frames were dropped, the count of dropped frames is 0.
pub run-dropped_frames : (cs : List Call) → (run new cs).dropped_frames ≡ 0
unfolding new
run-dropped_frames cs = run_uncounted new cs refl
