-- ===== src/Server/Range/Tests.antt =====
-- The theorems on range headers at concrete inputs.
use qvod_player.Prelude.{◌-◌, ◌≡◌, min, false, some, [], ◌∷◌, ◌++◌, All, arith, ascii}
use qvod_player.Server.Range.Defs.{RangeHeader, range, is_empty, parse}
use qvod_player.Server.Range.Bounds.{IsInside, parse-IsInside}
use qvod_player.Server.Range.RoundTrip.{bounds_text, parse-bounds_text}

-- A start behind the end of the file.
parse-bounds_text_example :
    parse (ascii "bytes=" ++ bounds_text 20 30) 10
    ≡ some (record { ranges = range 20 (min 30 (10 - 1)) 10 ∷ [] })
parse-bounds_text_example = parse-bounds_text 20 30 10 (omega arith) (omega arith) (omega arith)

abbrev behind : RangeHeader
behind = record { ranges = record { start = 20; end = 9; total_length = 10 } ∷ [] }

parse-IsInside_example : (is_empty behind.ranges ≡ false) × All (IsInside 10) behind.ranges
parse-IsInside_example =
    parse-IsInside (ascii "bytes=" ++ bounds_text 20 30) 10 behind parse-bounds_text_example
