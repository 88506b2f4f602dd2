-- ===== src/Stream/Buffer/Coverage.antt =====
-- Which offsets the filled ranges cover, and `merge_range` and `is_range_filled` told by that.
use qvod_player.Prelude.{
  ℕ, ◌+◌, ◌-◌, ◌≤◌, ◌<◌, ◌≡◌, ◌↔◌, refl, Bool, true, false, ◌&&◌, ◌||◌, [], ◌∷◌, arith, ltb, leb,
  min, max, ltb→lt, lt→ltb, Bool-cases, inl, inr,
}
use native.Mathlib.Decide.{dec_lt}
use qvod_player.Stream.Buffer.Ranges.{Ranges, merge_range, any_holds, filled_after, filled_before}
use qvod_player.Stream.Buffer.Merge.{Separate, Separate-weaken, merge_pass, merge_range-eq}

-- Some range holds the offset.
unfoldable pub covers : Ranges → ℕ → Bool
covers [] x = false
covers (r ∷ rs) x = (leb r.start x && ltb x r.end) || covers rs x

pub covers_below : (x low : ℕ) (rs : Ranges) → x < low → Separate low rs → covers rs x ≡ false
unfolding covers
covers_below x low [] h sep = refl
covers_below x low (r ∷ rs) h sep =
    ground (arith, covers_below x (r.end + 1) rs (omega arith) sep.2)

merge_pass-Separate :
    (s e low : ℕ) (rs : Ranges)
    → s < e
    → low ≤ s
    → Separate low rs
    → Separate low (merge_pass s e rs)
unfolding merge_pass
merge_pass-Separate s e low [] h hl sep = (hl, h, tt)
merge_pass-Separate s e low (r ∷ rs) h hl sep = elim (Bool-cases (ltb r.end s)) [
  | inl p ↦
      let keep = merge_pass-Separate s e (r.end + 1) rs h (omega (arith, ltb→lt r.end s p)) sep.2 in
      rw p (sep.0, sep.1, keep)
  | inr p ↦ rw p (elim (Bool-cases (ltb e r.start)) [
    | inl q ↦ rw q (hl, h, (omega (arith, ltb→lt e r.start q), sep.1, sep.2))
    | inr q ↦ rw q (
        merge_pass-Separate (min s r.start) (max e r.end) low rs (omega arith) (omega arith)
          (Separate-weaken low (r.end + 1) rs (omega arith) sep.2))
  ])
]

covers-merge_pass :
    (s e low x : ℕ) (rs : Ranges)
    → s < e
    → Separate low rs
    → covers (merge_pass s e rs) x ≡ ((leb s x && ltb x e) || covers rs x)
unfolding merge_pass covers
covers-merge_pass s e low x [] h sep = refl
covers-merge_pass s e low x (r ∷ rs) h sep = ground (
  arith,
  covers-merge_pass s e (r.end + 1) x rs h sep.2,
  covers-merge_pass (min s r.start) (max e r.end) (r.end + 1) x rs (omega arith) sep.2,
)

-- On separate ranges `merge_range` keeps the ranges separate, and covers exactly what was covered
-- before and the new range.
pub merge_range-covers :
    (s e low : ℕ) (rs : Ranges)
    → low ≤ s
    → Separate low rs
    → Separate low (merge_range s e rs)
      × ((x : ℕ) → covers (merge_range s e rs) x ≡ ((leb s x && ltb x e) || covers rs x))
merge_range-covers s e low rs hl sep = rw (merge_range-eq s e low rs sep) (elim (dec_lt s e) [
  | yes h ↦
      rw (lt→ltb s e h)
        (merge_pass-Separate s e low rs h hl sep, λ x. covers-merge_pass s e low x rs h sep)
  | no h ↦ let f : ltb s e ≡ false = ground (arith, h) in rw f (sep, λ x. ground (arith, h))
])

-- Of separate ranges, one holds all of a piece that is not empty exactly when every offset of the
-- piece is covered.
pub any_holds_iff :
    (o e low : ℕ) (rs : Ranges)
    → o < e
    → Separate low rs
    → (any_holds rs o e ≡ true) ↔ ((x : ℕ) → o ≤ x → x < e → covers rs x ≡ true)
unfolding any_holds covers
any_holds_iff o e low [] h sep = ((λ k. cc), λ k. k o (omega arith) h)
any_holds_iff o e low (r ∷ rs) h sep =
    let (to, from) = any_holds_iff o e (r.end + 1) rs h sep.2 in
    (
      λ k x hx hy. ground (arith, λ (p : any_holds rs o e ≡ true). to p x hx hy),
      λ k. elim (dec_lt o r.end) [
        | yes p ↦ ground (
          arith,
          p,
          k o (omega arith) h,
          k r.end (omega arith),
          covers_below o (r.end + 1) rs (omega arith) sep.2,
          covers_below r.end (r.end + 1) rs (omega arith) sep.2,
        )
        | no p ↦
            let later = from (λ x hx hy. ground (arith, p, k x hx hy)) in ground (arith, p, later)
      ],
    )

unfoldable pub total : Ranges → ℕ
total [] = 0
total (r ∷ rs) = (r.end - r.start) + total rs

filled_before_behind :
    (o low : ℕ) (rs : Ranges) → o ≤ low → Separate low rs → filled_before rs o ≡ 0
unfolding filled_before
filled_before_behind o low [] h sep = refl
filled_before_behind o low (r ∷ rs) h sep = ground arith

-- The filled bytes before an offset and those after it are all the filled bytes.
pub filled_before-add-filled_after :
    (o low : ℕ) (rs : Ranges) → Separate low rs → filled_before rs o + filled_after rs o ≡ total rs
unfolding filled_before filled_after total
filled_before-add-filled_after o low [] sep = refl
filled_before-add-filled_after o low (r ∷ rs) sep = ground (
  arith,
  filled_before-add-filled_after o (r.end + 1) rs sep.2,
  filled_before_behind o (r.end + 1) rs,
)
