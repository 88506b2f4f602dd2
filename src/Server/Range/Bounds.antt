-- ===== src/Server/Range/Bounds.antt =====
-- What every parsed range satisfies.
use qvod_player.Prelude.{
  ℕ, ◌-◌, ◌<◌, ◌≡◌, refl, inl, inr, min, false, some, List, [], ◌∷◌, ◌==◌, Bytes, arith, All,
  Bool-cases, Option-cases, parse_u64, ascii, strip_prefix, split,
}
use qvod_player.Server.Range.Defs.{
  RangeResult, RangeHeader, is_empty, range, split_once, trim, parse_suffix, parse_bounds,
  parse_range, parse_parts, parse,
}

-- A range of a file with this length, which ends in it.
abbrev pub IsInside : ℕ → RangeResult → Type 0
IsInside total r = (r.total_length ≡ total) × (r.end < total)

parse_suffix-IsInside :
    (s : Bytes) (total : ℕ) (r : RangeResult)
    → 0 < total
    → parse_suffix s total ≡ some r
    → IsInside total r
unfolding parse_suffix
parse_suffix-IsInside s total r pos h = elim (Option-cases (parse_u64 s)) [
  | inl e ↦ cc (rw (parse_suffix, e) at h)
  | inr (n, e) ↦ elim (Bool-cases (n == 0)) [
    | inl z ↦ cc (rw (parse_suffix, e, z) at h)
    | inr z ↦
        let same : range (total - n) (total - 1) total ≡ r = cc (rw (parse_suffix, e, z) at h) in
        rw (← same) (refl, omega arith)
  ]
]

parse_bounds-IsInside :
    (s t : Bytes) (total : ℕ) (r : RangeResult)
    → 0 < total
    → parse_bounds s t total ≡ some r
    → IsInside total r
unfolding parse_bounds
parse_bounds-IsInside s t total r pos h = elim (Option-cases (parse_u64 s)) [
  | inl e ↦ cc (rw (parse_bounds, e) at h)
  | inr (n, e) ↦ elim (Bool-cases (is_empty t)) [
    | inl z ↦
        let same : range n (total - 1) total ≡ r = cc (rw (parse_bounds, e, z) at h) in
        rw (← same) (refl, omega arith)
    | inr z ↦ elim (Option-cases (parse_u64 t)) [
      | inl f ↦ cc (rw (parse_bounds, e, z, f) at h)
      | inr (m, f) ↦
          let same : range n (min m (total - 1)) total ≡ r = cc (rw (parse_bounds, e, z, f) at h) in
          rw (← same) (refl, omega arith)
    ]
  ]
]

parse_range-IsInside :
    (s : Bytes) (total : ℕ) (r : RangeResult) → parse_range s total ≡ some r → IsInside total r
unfolding parse_range
parse_range-IsInside s total r h = elim (Bool-cases (total == 0)) [
  | inl z ↦ cc (rw (parse_range, z) at h)
  | inr z ↦
      let pos : 0 < total = ground (arith, z) in
      elim (Option-cases (split_once b'-' s)) [
        | inl e ↦ cc (rw (parse_range, z, e) at h)
        | inr ((a, b), e) ↦ elim (Bool-cases (is_empty a)) [
          | inl q ↦ parse_suffix-IsInside b total r pos (rw (parse_range, z, e, q) at h)
          | inr q ↦ parse_bounds-IsInside a b total r pos (rw (parse_range, z, e, q) at h)
        ]
      ]
]

parse_parts-IsInside :
    (parts : List Bytes) (total : ℕ) → All (IsInside total) (parse_parts parts total)
unfolding parse_parts
parse_parts-IsInside [] total = tt
parse_parts-IsInside (part ∷ parts) total =
    let rest = parse_parts-IsInside parts total in
    elim (Option-cases (parse_range (trim part) total)) [
      | inl e ↦ rw (parse_parts, e) rest
      | inr (r, e) ↦ rw (parse_parts, e) (parse_range-IsInside (trim part) total r e, rest)
    ]

-- A header that is accepted has at least one range, and each of its ranges carries the length of the file
-- and ends before it.
pub parse-IsInside :
    (header : Bytes) (total : ℕ) (h : RangeHeader)
    → parse header total ≡ some h
    → (is_empty h.ranges ≡ false) × All (IsInside total) h.ranges
unfolding parse
parse-IsInside header total h e = elim (Option-cases (strip_prefix (ascii "bytes=") header)) [
  | inl p ↦ cc (rw (p, parse) at e)
  | inr (specs, p) ↦
      let inside = parse_parts-IsInside (split b',' specs) total in
      elim (Bool-cases (is_empty (parse_parts (split b',' specs) total))) [
        | inl q ↦ cc (rw (p, parse, q) at e)
        | inr q ↦
            let same : record { ranges = parse_parts (split b',' specs) total } ≡ h =
              cc (rw (p, parse, q) at e) in
            rw (← same) (q, inside)
      ]
]
