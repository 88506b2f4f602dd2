-- ===== src/Core/Meta/Keyframes/Nearest.antt =====
-- Which frame `KeyFrameIndex::find_nearest_i_frame` finds.
use mathlib.Core.List.{Memᴰ}
use qvod_player.Prelude.{
  ℕ, ◌-◌, ◌≤◌, ◌<◌, ◌≡◌, ◌⊎◌, refl, sym, inl, inr, true, Option, none, some, [], ◌∷◌, leb, ltb,
  arith, Bool-cases, Option-cases, All,
}
use qvod_player.Core.Meta.Keyframes.{
  KeyFrameEntry, KeyFrameIndex, is_i, better, nearest_loop, find_nearest_i_frame,
}

-- An I frame that is not behind the time.
abbrev pub IsCandidate : ℕ → KeyFrameEntry → Type 0
IsCandidate t e = (is_i e.frame_type ≡ true) × (e.timestamp_ms ≤ t)

-- `x` is `best` or a candidate, and no candidate is behind it.
record IsBest (t : ℕ) (best : Option KeyFrameEntry) (es : KeyFrameIndex) (x : KeyFrameEntry)
    : Type 0 where
  found : (best ≡ some x) ⊎ (Memᴰ x es × IsCandidate t x)
  above_best : (b : KeyFrameEntry) → best ≡ some b → b.timestamp_ms ≤ x.timestamp_ms
  above_all : All (λ y. IsCandidate t y → y.timestamp_ms ≤ x.timestamp_ms) es

IsBest-taken :
    (t : ℕ) (best : Option KeyFrameEntry) (e : KeyFrameEntry) (es : KeyFrameIndex)
    (x : KeyFrameEntry)
    → IsCandidate t e
    → ((b : KeyFrameEntry) → best ≡ some b → b.timestamp_ms ≤ e.timestamp_ms)
    → IsBest t (some e) es x
    → IsBest t best (e ∷ es) x
IsBest-taken t best e es x c le l = record {
  found = elim l.found [
    | inl p ↦ let same : e ≡ x = cc p in inr (Memᴰ.head (sym same), rw (← same) c)
    | inr (m, cx) ↦ inr (Memᴰ.tail m, cx)
  ];
  above_best = λ b p. omega (arith, le b p, l.above_best e refl);
  above_all = ((λ _. l.above_best e refl), l.above_all);
}

IsBest-kept :
    (t : ℕ) (best : Option KeyFrameEntry) (e : KeyFrameEntry) (es : KeyFrameIndex)
    (x : KeyFrameEntry)
    → (IsCandidate t e → e.timestamp_ms ≤ x.timestamp_ms)
    → IsBest t best es x
    → IsBest t best (e ∷ es) x
IsBest-kept t best e es x le l = record {
  found = elim l.found [ inl p ↦ inl p | inr (m, cx) ↦ inr (Memᴰ.tail m, cx) ];
  above_best = l.above_best;
  above_all = (le, l.above_all);
}

-- What the loop keeps is no later than the time.
abbrev Fits : ℕ → Option KeyFrameEntry → Type 0
Fits t best = (b : KeyFrameEntry) → best ≡ some b → b.timestamp_ms ≤ t

Fits-some : (t : ℕ) (e : KeyFrameEntry) → e.timestamp_ms ≤ t → Fits t (some e)
Fits-some t e le b p = let same : e ≡ b = cc p in rw (← same) le

nearest_loop-IsBest :
    (t : ℕ) (best : Option KeyFrameEntry) (es : KeyFrameIndex) (x : KeyFrameEntry)
    → Fits t best
    → nearest_loop t best es ≡ some x
    → IsBest t best es x
unfolding nearest_loop better
nearest_loop-IsBest t best [] x f h = record {
  found = inl h;
  above_best = λ b p. let same : b ≡ x = cc (p, h) in rw same (omega arith);
  above_all = tt;
}
nearest_loop-IsBest t none (e ∷ es) x f h = elim (Bool-cases (is_i e.frame_type)) [
  | inr p ↦
      IsBest-kept t none e es x (λ d. cc (d.0, p)) (nearest_loop-IsBest t none es x f (rw p at h))
  | inl p ↦ elim (Bool-cases (leb e.timestamp_ms t)) [
    | inr q ↦
        IsBest-kept t none e es x (λ c. absurd (ground (arith, q, c)))
          (nearest_loop-IsBest t none es x f (rw (p, q) at h))
    | inl q ↦
        let le : e.timestamp_ms ≤ t = ground (arith, q) in
        IsBest-taken t none e es x (p, le) (λ b s. cc s)
          (nearest_loop-IsBest t (some e) es x (Fits-some t e le) (rw (p, q) at h))
  ]
]
nearest_loop-IsBest t (some c) (e ∷ es) x f h = elim (Bool-cases (is_i e.frame_type)) [
  | inr p ↦
      IsBest-kept t (some c) e es x (λ d. cc (d.0, p))
        (nearest_loop-IsBest t (some c) es x f (rw p at h))
  | inl p ↦ elim (Bool-cases (leb e.timestamp_ms t)) [
    | inr q ↦
        IsBest-kept t (some c) e es x (λ d. absurd (ground (arith, q, d)))
          (nearest_loop-IsBest t (some c) es x f (rw (p, q) at h))
    | inl q ↦
        let le : e.timestamp_ms ≤ t = ground (arith, q) in
        let fits = f c refl in
        elim (Bool-cases (ltb (t - e.timestamp_ms) (t - c.timestamp_ms))) [
          | inl r ↦
              let below : c.timestamp_ms ≤ e.timestamp_ms = ground (arith, r) in
              IsBest-taken t (some c) e es x (p, le)
                (λ b s. let same : c ≡ b = cc s in rw (← same) below)
                (nearest_loop-IsBest t (some e) es x (Fits-some t e le) (rw (p, q, r) at h))
          | inr r ↦
              let kept = nearest_loop-IsBest t (some c) es x f (rw (p, q, r) at h) in
              let least = kept.above_best c refl in
              IsBest-kept t (some c) e es x (λ _. ground (arith, r)) kept
        ]
  ]
]

nearest_loop-none :
    (t : ℕ) (best : Option KeyFrameEntry) (es : KeyFrameIndex)
    → nearest_loop t best es ≡ none
    → (best ≡ none) × All (λ y. is_i y.frame_type ≡ true → t < y.timestamp_ms) es
unfolding nearest_loop better
nearest_loop-none t best [] h = (h, tt)
nearest_loop-none t none (e ∷ es) h = elim (Bool-cases (is_i e.frame_type)) [
  | inr p ↦ (refl, ((λ d. cc (d, p)), (nearest_loop-none t none es (rw p at h)).1))
  | inl p ↦ elim (Bool-cases (leb e.timestamp_ms t)) [
    | inr q ↦ (refl, ((λ _. ground (arith, q)), (nearest_loop-none t none es (rw (p, q) at h)).1))
    | inl q ↦ cc (nearest_loop-none t (some e) es (rw (p, q) at h)).0
  ]
]
nearest_loop-none t (some c) (e ∷ es) h = elim (Bool-cases (is_i e.frame_type)) [
  | inr p ↦ cc (nearest_loop-none t (some c) es (rw p at h)).0
  | inl p ↦ elim (Bool-cases (leb e.timestamp_ms t)) [
    | inr q ↦ cc (nearest_loop-none t (some c) es (rw (p, q) at h)).0
    | inl q ↦ elim (Bool-cases (ltb (t - e.timestamp_ms) (t - c.timestamp_ms))) [
      | inl r ↦ cc (nearest_loop-none t (some e) es (rw (p, q, r) at h)).0
      | inr r ↦ cc (nearest_loop-none t (some c) es (rw (p, q, r) at h)).0
    ]
  ]
]

-- The answer for a time: the I frame with the latest time that is not behind it, or nothing where
-- every I frame is behind it.
abbrev pub IsNearest : ℕ → KeyFrameIndex → Option KeyFrameEntry → Type 0
IsNearest t es none = All (λ y. is_i y.frame_type ≡ true → t < y.timestamp_ms) es
IsNearest t es (some x) =
    Memᴰ x es × IsCandidate t x × All (λ y. IsCandidate t y → y.timestamp_ms ≤ x.timestamp_ms) es

-- The frame found for a time is an I frame of the index that is not behind the time, and no such
-- frame is behind it; no frame is found only where every I frame is behind the time.
pub find_nearest_i_frame-IsNearest :
    (es : KeyFrameIndex) (t : ℕ) → IsNearest t es (find_nearest_i_frame es t)
unfolding find_nearest_i_frame
find_nearest_i_frame-IsNearest es t = elim (Option-cases (nearest_loop t none es)) [
  | inl h ↦ rw h (nearest_loop-none t none es h).1
  | inr (x, h) ↦
      let l = nearest_loop-IsBest t none es x (λ b p. cc p) h in
      elim l.found [ inl p ↦ cc p | inr (m, c) ↦ rw h (m, c, l.above_all) ]
]
