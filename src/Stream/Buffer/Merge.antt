-- ===== src/Stream/Buffer/Merge.antt =====
-- `merge_range` on a list of separate ranges is the merge in one pass of this module.
use qvod_player.Prelude.{
  ℕ, ◌+◌, ◌≤◌, ◌<◌, ◌≡◌, refl, [], ◌∷◌, arith, ltb, if◌then◌else◌, min, max, Bool-cases, inl, inr,
  All,
}
use native.Mathlib.Decide.{dec_lt}
use qvod_player.Stream.Buffer.Ranges.{
  FilledRange, Ranges, insert, remove, remove_all, overlaps, scan, merge_range,
}

-- The ranges are not empty, lie behind `low`, and stand in order with a gap before each.
abbrev pub Separate : ℕ → Ranges → Type 0
Separate low [] = Unit
Separate low (r ∷ rs) = (low ≤ r.start) × (r.start < r.end) × Separate (r.end + 1) rs

-- The merge in one pass: ranges that end before the new one stay, those that touch it grow it, and
-- it is put down before the first that starts behind it.
unfoldable pub merge_pass : ℕ → ℕ → Ranges → Ranges
merge_pass s e [] = record { start = s; end = e } ∷ []
merge_pass s e (r ∷ rs) =
    if ltb r.end s
    then r ∷ merge_pass s e rs
    else if ltb e r.start
    then record { start = s; end = e } ∷ r ∷ rs
    else merge_pass (min s r.start) (max e r.end) rs

pub Separate-weaken : (a b : ℕ) (rs : Ranges) → a ≤ b → Separate b rs → Separate a rs
Separate-weaken a b [] h s = tt
Separate-weaken a b (r ∷ rs) h s = (omega arith, s.1, s.2)

-- With a separate list, nothing behind the new range is hit.
scan_behind :
    (s e low : ℕ) (rs : Ranges)
    → e < low
    → Separate low rs
    → scan s e rs ≡ record { to_remove = []; new_start = s; new_end = e }
unfolding scan
scan_behind s e low [] h sep = refl
scan_behind s e low (r ∷ rs) h sep =
    ground (arith, scan_behind s e (r.end + 1) rs (omega arith) sep.2)

new_start-le :
    (s e low : ℕ) (rs : Ranges) → low ≤ s → Separate low rs → low ≤ (scan s e rs).new_start
unfolding scan
new_start-le s e low [] h sep = h
new_start-le s e low (r ∷ rs) h sep =
    let rest = Separate-weaken low (r.end + 1) rs (omega arith) sep.2 in
    ground (
      arith,
      new_start-le s e low rs h rest,
      new_start-le (min s r.start) (max e r.end) low rs (omega arith) rest,
    )

abbrev From : ℕ → Ranges → Type 0
From low = All (λ r. low ≤ r.start)

From-weaken : (a b : ℕ) (rs : Ranges) → a ≤ b → From b rs → From a rs
From-weaken a b [] h f = tt
From-weaken a b (r ∷ rs) h f = (omega arith, From-weaken a b rs h f.1)

to_remove-From : (s e low : ℕ) (rs : Ranges) → Separate low rs → From low (scan s e rs).to_remove
unfolding scan
to_remove-From s e low [] sep = tt
to_remove-From s e low (r ∷ rs) sep =
    let rest = Separate-weaken low (r.end + 1) rs (omega arith) sep.2 in
    elim (Bool-cases (overlaps s e r)) [
      | inl hit ↦ rw hit (sep.0, to_remove-From (min s r.start) (max e r.end) low rs rest)
      | inr miss ↦ rw miss (to_remove-From s e low rs rest)
    ]

remove_all-cons :
    (r : FilledRange) (tr rs : Ranges)
    → From (r.start + 1) tr
    → remove_all tr (r ∷ rs) ≡ r ∷ remove_all tr rs
unfolding remove_all remove
remove_all-cons r [] rs f = refl
remove_all-cons r (t ∷ tr) rs f = ground (arith, remove_all-cons r tr (remove t rs) f.1)

-- The body of `merge_range` for a range that is not empty.
merged : ℕ → ℕ → Ranges → Ranges
merged s e rs =
    let found = scan s e rs in
    insert (record { start = found.new_start; end = found.new_end }) (remove_all found.to_remove rs)

scan_miss : (s e : ℕ) (r : FilledRange) (rs : Ranges) → r.end < s → scan s e (r ∷ rs) ≡ scan s e rs
unfolding scan
scan_miss s e r rs h = ground arith

insert-cons :
    (x r : FilledRange) (rs : Ranges) → r.start < x.start → insert x (r ∷ rs) ≡ r ∷ insert x rs
unfolding insert
insert-cons x r rs h = ground arith

merged_before :
    (s e : ℕ) (r : FilledRange) (rs : Ranges)
    → r.end < s
    → r.start < r.end
    → Separate (r.end + 1) rs
    → merged s e (r ∷ rs) ≡ r ∷ merged s e rs
unfolding merged
merged_before s e r rs h hr sep =
    let found = scan s e rs in
    let later =
      From-weaken (r.start + 1) (r.end + 1) found.to_remove (omega arith)
        (to_remove-From s e (r.end + 1) rs sep) in
    let behind = new_start-le s e (r.end + 1) rs (omega arith) sep in
    rw (scan_miss s e r rs h) (
      rw (remove_all-cons r found.to_remove rs later)
        (insert-cons _ r (remove_all found.to_remove rs) (omega arith)))

merged_behind :
    (s e low : ℕ) (r : FilledRange) (rs : Ranges)
    → s < e
    → e < r.start
    → Separate low (r ∷ rs)
    → merged s e (r ∷ rs) ≡ record { start = s; end = e } ∷ r ∷ rs
unfolding merged insert remove_all
merged_behind s e low r rs h he sep =
    rw (scan_behind s e r.start (r ∷ rs) he (omega arith, sep.1, sep.2)) (ground arith)

merged_hit :
    (s e : ℕ) (r : FilledRange) (rs : Ranges)
    → s ≤ r.end
    → r.start ≤ e
    → merged s e (r ∷ rs) ≡ merged (min s r.start) (max e r.end) rs
unfolding merged scan remove_all remove
merged_hit s e r rs h he = ground arith

merged-eq-merge_pass :
    (s e low : ℕ) (rs : Ranges) → s < e → Separate low rs → merged s e rs ≡ merge_pass s e rs
unfolding merge_pass
merged-eq-merge_pass s e low [] h sep = unfold merged insert remove_all scan in refl
merged-eq-merge_pass s e low (r ∷ rs) h sep = ground (
  arith,
  merged_before s e r rs,
  merged_behind s e low r rs h,
  merged_hit s e r rs,
  merged-eq-merge_pass s e (r.end + 1) rs h sep.2,
  merged-eq-merge_pass (min s r.start) (max e r.end) (r.end + 1) rs (omega arith) sep.2,
)

-- On separate ranges `merge_range` is the merge in one pass, and an empty range changes nothing.
pub merge_range-eq :
    (s e low : ℕ) (rs : Ranges)
    → Separate low rs
    → merge_range s e rs ≡ (if ltb s e then merge_pass s e rs else rs)
unfolding merge_range merged
merge_range-eq s e low rs sep = elim (dec_lt s e) [
  | yes h ↦ ground (arith, merged-eq-merge_pass s e low rs h sep)
  | no h ↦ ground (arith, h)
]
