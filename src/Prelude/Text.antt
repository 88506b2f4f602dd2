-- ===== src/Prelude/Text.antt =====
-- The methods of `str` that the code calls, on bytes or code points.
use Prim.Native.Nat.{ℕ}
use Prim.Native.Char.{code}
use Prim.Native.String.{String}
use mathlib.Core.Path.{◌≡◌, refl}
use mathlib.Core.Bool.{true, false}
use mathlib.Core.Option.{Option, none, some, map}
use mathlib.Core.List.{List, [], ◌∷◌, ◌++◌}
use native.Mathlib.Omega.{arith}
use qvod_player.Prelude.Tests.{◌==◌, if◌then◌else◌}
use qvod_player.Prelude.Lists.{All}
use qvod_player.Prelude.Words.{Bytes}

-- The code points of an ASCII text.
abbrev pub ascii : String → Bytes
ascii String.[] = []
ascii (String.◌∷◌ c s) = code c ∷ ascii s

-- `str::strip_prefix`
unfoldable pub strip_prefix : Bytes → Bytes → Option Bytes
strip_prefix [] s = some s
strip_prefix (c ∷ p) [] = none
strip_prefix (c ∷ p) (d ∷ s) = if c == d then strip_prefix p s else none

-- `str::split`, which yields one part more than there are separators.
unfoldable pub split_front : ℕ → List Bytes → List Bytes
split_front c [] = (c ∷ []) ∷ []
split_front c (part ∷ parts) = (c ∷ part) ∷ parts

unfoldable pub split : ℕ → Bytes → List Bytes
unfolding split_front
split sep [] = [] ∷ []
split sep (c ∷ s) = let rest = split sep s in if c == sep then [] ∷ rest else split_front c rest

-- `str::strip_suffix` of one character
unfoldable pub strip_suffix : ℕ → Bytes → Option Bytes
strip_suffix c [] = none
strip_suffix c (x ∷ []) = if x == c then some [] else none
strip_suffix c (x ∷ y ∷ s) = map (λ t. x ∷ t) (strip_suffix c (y ∷ s))

-- The last part that `str::rsplit` yields first.
unfoldable pub last_part : List Bytes → Bytes
last_part [] = []
last_part (part ∷ []) = part
last_part (part ∷ next ∷ parts) = last_part (next ∷ parts)

pub strip_prefix-append : (p s : Bytes) → strip_prefix p (p ++ s) ≡ some s
unfolding strip_prefix
strip_prefix-append [] s = refl
strip_prefix-append (c ∷ p) s =
    let same : (c == c) ≡ true = ground arith in rw same (strip_prefix-append p s)

-- A part without the separator.
pub split_part : (sep : ℕ) (s : Bytes) → All (λ c. (c == sep) ≡ false) s → split sep s ≡ s ∷ []
unfolding split split_front
split_part sep [] h = refl
split_part sep (c ∷ s) (d, h) = rw (d, split_part sep s h) refl

pub split-append :
    (sep : ℕ) (s rest : Bytes)
    → All (λ c. (c == sep) ≡ false) s
    → split sep (s ++ sep ∷ rest) ≡ s ∷ split sep rest
unfolding split split_front
split-append sep [] rest h = let same : (sep == sep) ≡ true = ground arith in rw same refl
split-append sep (c ∷ s) rest (d, h) = rw (d, split-append sep s rest h) refl

strip_suffix-cons :
    (c x : ℕ) (s t : Bytes) → strip_suffix c s ≡ some t → strip_suffix c (x ∷ s) ≡ some (x ∷ t)
unfolding strip_suffix
strip_suffix-cons c x [] t h = cc
strip_suffix-cons c x (y ∷ s) t h = rw h refl

pub strip_suffix-append : (c : ℕ) (s : Bytes) → strip_suffix c (s ++ c ∷ []) ≡ some s
unfolding strip_suffix
strip_suffix-append c [] = let same : (c == c) ≡ true = ground arith in rw same refl
strip_suffix-append c (x ∷ s) = strip_suffix-cons c x (s ++ c ∷ []) s (strip_suffix-append c s)
