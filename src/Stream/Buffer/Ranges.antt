-- ===== src/Stream/Buffer/Ranges.antt =====
-- crates/qvs-stream/src/buffer.rs: `FilledRange`, the `BTreeSet` of them as a list in the order of
-- `start`, and `merge_range`. Two ranges are equal for the set if they start at the same offset.
use qvod_player.Prelude.{
  ℕ, ◌+◌, ◌-◌, Bool, true, false, ◌&&◌, List, [], ◌∷◌, ◌==◌, ltb, leb, if◌then◌else◌, min, max,
}

pub record FilledRange : Type 0 where
  pub start : ℕ
  pub end : ℕ

abbrev pub Ranges : Type 0
Ranges = List FilledRange

-- `BTreeSet::insert`: an equal element that is there already stays.
unfoldable pub insert : FilledRange → Ranges → Ranges
insert r [] = r ∷ []
insert r (x ∷ xs) =
    if ltb r.start x.start
    then r ∷ x ∷ xs
    else if r.start == x.start
    then x ∷ xs
    else x ∷ insert r xs

-- `BTreeSet::remove`
unfoldable pub remove : FilledRange → Ranges → Ranges
remove r [] = []
remove r (x ∷ xs) = if r.start == x.start then xs else x ∷ remove r xs

unfoldable pub remove_all : Ranges → Ranges → Ranges
remove_all [] xs = xs
remove_all (r ∷ rs) xs = remove_all rs (remove r xs)

-- The closure of `filter`, with the two variables that it changes as it goes.
pub record Scan : Type 0 where
  pub to_remove : Ranges
  pub new_start : ℕ
  pub new_end : ℕ

unfoldable pub overlaps : ℕ → ℕ → FilledRange → Bool
overlaps new_start new_end r = leb r.start new_end && leb new_start r.end

unfoldable pub scan : ℕ → ℕ → Ranges → Scan
unfolding overlaps
scan s e [] = record { to_remove = []; new_start = s; new_end = e }
scan s e (r ∷ rs) =
    let hit = scan (min s r.start) (max e r.end) rs in
    let miss = scan s e rs in
    if overlaps s e r then record hit { to_remove = r ∷ hit.to_remove } else miss

unfoldable pub merge_range : ℕ → ℕ → Ranges → Ranges
merge_range s e rs =
    if leb e s
    then rs
    else let found = scan s e rs in
      insert (record { start = found.new_start; end = found.new_end })
        (remove_all found.to_remove rs)

-- The loop of `is_range_filled`, which ends at the first range that holds all of it.
unfoldable pub any_holds : Ranges → ℕ → ℕ → Bool
any_holds [] offset end = false
any_holds (r ∷ rs) offset end =
    if leb r.start offset && leb end r.end then true else any_holds rs offset end

unfoldable pub filled_after : Ranges → ℕ → ℕ
filled_after [] offset = 0
filled_after (r ∷ rs) offset =
    let rest = filled_after rs offset in
    if leb offset r.start
    then (r.end - r.start) + rest
    else if ltb offset r.end
    then (r.end - offset) + rest
    else rest

unfoldable pub filled_before : Ranges → ℕ → ℕ
filled_before [] offset = 0
filled_before (r ∷ rs) offset =
    let rest = filled_before rs offset in
    if leb r.end offset
    then (r.end - r.start) + rest
    else if ltb r.start offset
    then (offset - r.start) + rest
    else 0
