-- ===== src/Stream/Playback/Coherent.antt =====
-- What the states of a stream say after any calls of its methods but `stats_mut`.
use qvod_player.Prelude.{
  ℕ, ◌≡◌, ◌≢◌, ◌⊎◌, inl, inr, refl, true, false, none, some, List, [], ◌∷◌, Bool-cases,
}
use qvod_player.Stream.Playback.Defs.{
  StreamState, buffering, playing, seeking, ended, error, MediaStream, new, new_stats, play, pause,
  resume, seek, end, update_position, update_speed, update_buffered, update_peers, update_progress,
  is_paused, state, is_seeking,
}

-- The calls of a stream. `stats_mut`, with which a caller can write any state, is no call here.
pub data Call (F : Type 0) : Type 0 where
  playing_call pausing resuming ending : Call F
  seeking_to moving_to peers : ℕ → Call F
  speed buffered : F → Call F
  progress : F → ℕ → Call F

unfoldable pub apply : {F : Type 0} → MediaStream F → Call F → MediaStream F
apply s playing_call = (play s).0
apply s pausing = pause s
apply s resuming = resume s
apply s ending = end s
apply s (seeking_to t) = seek s t
apply s (moving_to t) = update_position s t
apply s (peers n) = update_peers s n
apply s (speed v) = update_speed s v
apply s (buffered v) = update_buffered s v
apply s (progress v n) = update_progress s v n

unfoldable pub run : {F : Type 0} → MediaStream F → List (Call F) → MediaStream F
unfolding apply
run s [] = s
run s (c ∷ cs) = run (apply s c) cs

-- A paused stream is marked so, a seeking one is at its target, and two of the states do not occur.
pub record IsCoherent {F : Type 0} (s : MediaStream F) : Type 0 where
  pub paused_marked : state s ≡ StreamState.paused → is_paused s ≡ true
  pub at_target : state s ≡ seeking → s.seek_target ≡ some s.stats.position_ms
  pub not_buffering : state s ≢ buffering
  pub not_error : state s ≢ error

-- A stream that plays or has ended is coherent.
running-IsCoherent :
    {F : Type 0} (s : MediaStream F) → (state s ≡ playing) ⊎ (state s ≡ ended) → IsCoherent s
running-IsCoherent s (inl p) = record {
  paused_marked = λ e. cc (p, e);
  at_target = λ e. cc (p, e);
  not_buffering = λ e. cc (p, e);
  not_error = λ e. cc (p, e);
}
running-IsCoherent s (inr p) = record {
  paused_marked = λ e. cc (p, e);
  at_target = λ e. cc (p, e);
  not_buffering = λ e. cc (p, e);
  not_error = λ e. cc (p, e);
}

-- Nothing else of a stream matters.
same-IsCoherent :
    {F : Type 0} (s t : MediaStream F)
    → state t ≡ state s
    → is_paused t ≡ is_paused s
    → t.seek_target ≡ s.seek_target
    → t.stats.position_ms ≡ s.stats.position_ms
    → IsCoherent s
    → IsCoherent t
same-IsCoherent s t a b c d h = record {
  paused_marked = λ e. cc (b, h.paused_marked (cc (a, e)));
  at_target = λ e. cc (c, d, h.at_target (cc (a, e)));
  not_buffering = λ e. h.not_buffering (cc (a, e));
  not_error = λ e. h.not_error (cc (a, e));
}

-- A position that is reached in a stream that does not seek.
moved-IsCoherent :
    {F : Type 0} (s : MediaStream F) (t : ℕ)
    → is_seeking (state s) ≡ false
    → IsCoherent s
    → IsCoherent (update_position s t)
unfolding update_position is_paused
moved-IsCoherent s t p h = rw p (record {
  paused_marked = λ e. h.paused_marked e;
  at_target = λ e. cc (rw e at p);
  not_buffering = λ e. h.not_buffering e;
  not_error = λ e. h.not_error e;
})

apply-IsCoherent :
    {F : Type 0} (s : MediaStream F) (c : Call F) → IsCoherent s → IsCoherent (apply s c)
unfolding apply play pause resume end seek update_position update_peers update_speed update_buffered
    update_progress is_paused
apply-IsCoherent s playing_call h = running-IsCoherent (play s).0 (inl refl)
apply-IsCoherent s resuming h = running-IsCoherent (resume s) (inl refl)
apply-IsCoherent s ending h = running-IsCoherent (end s) (inr refl)
apply-IsCoherent s pausing h = record {
  paused_marked = λ e. refl;
  at_target = λ e. cc e;
  not_buffering = λ e. cc e;
  not_error = λ e. cc e;
}
apply-IsCoherent s (seeking_to t) h = record {
  paused_marked = λ e. cc e;
  at_target = λ e. refl;
  not_buffering = λ e. cc e;
  not_error = λ e. cc e;
}
apply-IsCoherent s (moving_to t) h = elim (Bool-cases (is_seeking (state s))) [
  | inl p ↦ running-IsCoherent (update_position s t) (inl (rw p refl))
  | inr p ↦ moved-IsCoherent s t p h
]
apply-IsCoherent s (peers n) h = same-IsCoherent s (update_peers s n) refl refl refl refl h
apply-IsCoherent s (speed v) h = same-IsCoherent s (update_speed s v) refl refl refl refl h
apply-IsCoherent s (buffered v) h = same-IsCoherent s (update_buffered s v) refl refl refl refl h
apply-IsCoherent s (progress v n) h =
    same-IsCoherent s (update_progress s v n) refl refl refl refl h

run_calls-IsCoherent :
    {F : Type 0} (s : MediaStream F) (cs : List (Call F)) → IsCoherent s → IsCoherent (run s cs)
unfolding run
run_calls-IsCoherent s [] h = h
run_calls-IsCoherent s (c ∷ cs) h = run_calls-IsCoherent (apply s c) cs (apply-IsCoherent s c h)

-- After any calls of the methods of a new stream but `stats_mut`, which hands out the statistics with the
-- state in them: a stream in the paused state is marked as paused, a seeking one stands at its target, and
-- the states for buffering and for an error do not occur.
pub run-IsCoherent :
    {F : Type 0} (zero_f : F) (duration : ℕ) (cs : List (Call F))
    → IsCoherent (run (new (new_stats zero_f duration)) cs)
unfolding new new_stats
run-IsCoherent zero_f duration cs =
    run_calls-IsCoherent (new (new_stats zero_f duration)) cs (record {
      paused_marked = λ e. cc e;
      at_target = λ e. cc e;
      not_buffering = λ e. cc e;
      not_error = λ e. cc e;
    })

-- A seek in a stream that is marked as paused leaves the mark, and the next position puts the stream
-- into the playing state all the same, with no target left.
pub seek-update_position_plays :
    {F : Type 0} (s : MediaStream F) (target reached : ℕ)
    → is_paused s ≡ true
    → let t = update_position (seek s target) reached in
      (is_paused t ≡ true)
      × (state t ≡ playing)
      × (t.seek_target ≡ none)
      × (t.stats.position_ms ≡ reached)
unfolding update_position seek is_paused
seek-update_position_plays s target reached h = (h, refl, refl, refl)
