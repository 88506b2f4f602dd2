-- ===== src/Server/Range/Defs.antt =====
-- crates/qvs-local-server/src/range.rs: the records, `parse`, `parse_range` and `content_range`, and the
-- methods of `str` that they call.
use qvod_player.Prelude.{
  ℕ, ◌-◌, min, Bool, true, false, ◌&&◌, ◌||◌, Option, none, some, List, [], ◌∷◌, ◌++◌, leb, ◌==◌,
  if◌then◌else◌, Bytes, print, parse_u64, ascii, strip_prefix, split,
}

pub record RangeResult : Type 0 where
  pub start : ℕ
  pub end : ℕ
  pub total_length : ℕ

pub record RangeHeader : Type 0 where
  pub ranges : List RangeResult

-- `str::split_once`
unfoldable pub split_once : ℕ → Bytes → Option (Bytes × Bytes)
split_once sep [] = none
split_once sep (c ∷ s) =
    let rest = split_once sep s in
    if c == sep then some ([], s) else elim rest [ none ↦ none | some (a, b) ↦ some (c ∷ a, b) ]

-- `char::is_whitespace`, the Unicode property White_Space.
abbrev pub is_whitespace : ℕ → Bool
is_whitespace c =
    (leb 9 c && leb c 13)
    || (c == 32)
    || (c == 0x85)
    || (c == 0xA0)
    || (c == 0x1680)
    || (leb 0x2000 c && leb c 0x200A)
    || (c == 0x2028)
    || (c == 0x2029)
    || (c == 0x202F)
    || (c == 0x205F)
    || (c == 0x3000)

abbrev pub is_empty {ℓ} : {A : Type ℓ} → List A → Bool
is_empty [] = true
is_empty (x ∷ xs) = false

unfoldable pub trim_start : Bytes → Bytes
trim_start [] = []
trim_start (c ∷ s) = let rest = trim_start s in if is_whitespace c then rest else c ∷ s

unfoldable pub trim_end : Bytes → Bytes
trim_end [] = []
trim_end (c ∷ s) =
    let rest = trim_end s in if is_whitespace c && is_empty rest then [] else c ∷ rest

-- `str::trim`
unfoldable pub trim : Bytes → Bytes
unfolding trim_start trim_end
trim s = trim_end (trim_start s)

abbrev pub range : ℕ → ℕ → ℕ → RangeResult
range start end total = record { start = start; end = end; total_length = total }

-- The branches of `parse_range` behind the split.
unfoldable pub parse_suffix : Bytes → ℕ → Option RangeResult
parse_suffix end_str total = elim (parse_u64 end_str) [
  | none ↦ none
  | some suffix ↦ if suffix == 0 then none else some (range (total - suffix) (total - 1) total)
]

unfoldable pub parse_bounds : Bytes → Bytes → ℕ → Option RangeResult
parse_bounds start_str end_str total = elim (parse_u64 start_str) [
  | none ↦ none
  | some start ↦
      if is_empty end_str then some (range start (total - 1) total) else elim (parse_u64 end_str) [
        | none ↦ none
        | some end ↦ some (range start (min end (total - 1)) total)
      ]
]

unfoldable pub parse_range : Bytes → ℕ → Option RangeResult
unfolding parse_suffix parse_bounds split_once
parse_range spec total = if total == 0 then none else elim (split_once b'-' spec) [
  | none ↦ none
  | some (start_str, end_str) ↦
      if is_empty start_str
      then parse_suffix end_str total
      else parse_bounds start_str end_str total
]

-- `filter_map` over the parts.
unfoldable pub parse_parts : List Bytes → ℕ → List RangeResult
unfolding trim
parse_parts [] total = []
parse_parts (part ∷ parts) total =
    let rest = parse_parts parts total in
    elim (parse_range (trim part) total) [ none ↦ rest | some r ↦ r ∷ rest ]

unfoldable pub parse : Bytes → ℕ → Option RangeHeader
unfolding strip_prefix split
parse header total = elim (strip_prefix (ascii "bytes=") header) [
  | none ↦ none
  | some specs ↦
      let ranges = parse_parts (split b',' specs) total in
      if is_empty ranges then none else some (record { ranges = ranges })
]

unfoldable pub content_range : RangeHeader → Bytes
unfolding print
content_range h = elim h.ranges [
  | [] ↦ []
  | r ∷ _ ↦ ascii "bytes " ++ (print r.start ++ b'-' ∷ (print r.end ++ b'/' ∷ print r.total_length))
]
