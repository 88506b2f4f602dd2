-- ===== src/Stream/Playback/Tests.antt =====
-- The playback theorems at concrete inputs.
use qvod_player.Prelude.{ℕ, ◌≡◌, refl, true, List, [], ◌∷◌}
use qvod_player.Stream.Playback.Defs.{MediaStream, new, new_stats, is_paused}
use qvod_player.Stream.Playback.Coherent.{
  Call, playing_call, pausing, seeking_to, moving_to, speed, run, IsCoherent, run-IsCoherent,
}

abbrev calls : List (Call ℕ)
calls = playing_call ∷ speed 40 ∷ pausing ∷ seeking_to 700 ∷ moving_to 705 ∷ seeking_to 20 ∷ []

run-IsCoherent_example : IsCoherent (run (new (new_stats 0 9000)) calls)
run-IsCoherent_example = run-IsCoherent 0 9000 calls

abbrev fresh : MediaStream ℕ
fresh = new (new_stats 0 9000)

fresh_paused : is_paused fresh ≡ true
unfolding is_paused new
fresh_paused = refl
