-- ===== src/Prelude/Utf8.antt =====
-- `std::str::from_utf8` as a test: the well-formed sequences of the Unicode standard.
use Prim.Native.Nat.{ℕ, zero, suc, ◌<◌}
use mathlib.Core.Path.{◌≡◌, refl}
use mathlib.Core.Bool.{Bool, true, false, ◌&&◌}
use mathlib.Core.Option.{Option, none, some}
use mathlib.Core.List.{[], ◌∷◌}
use native.Mathlib.Omega.{arith}
use qvod_player.Prelude.Tests.{ltb, leb, ◌==◌, if◌then◌else◌}
use qvod_player.Prelude.Lists.{All}
use qvod_player.Prelude.Words.{Bytes}

-- How many bytes follow a first byte, and the bounds of the next one.
unfoldable pub utf8_first : ℕ → Option (ℕ × ℕ × ℕ)
utf8_first c =
    if ltb c 0x80
    then some (0, 0, 0)
    else if ltb c 0xC2
    then none
    else if ltb c 0xE0
    then some (1, 0x80, 0xBF)
    else if c == 0xE0
    then some (2, 0xA0, 0xBF)
    else if c == 0xED
    then some (2, 0x80, 0x9F)
    else if ltb c 0xF0
    then some (2, 0x80, 0xBF)
    else if c == 0xF0
    then some (3, 0x90, 0xBF)
    else if ltb c 0xF4
    then some (3, 0x80, 0xBF)
    else if c == 0xF4
    then some (3, 0x80, 0x8F)
    else none

-- The test with the bytes that a sequence still needs, and the bounds of the next one.
unfoldable pub utf8_from : ℕ → ℕ → ℕ → Bytes → Bool
unfolding utf8_first
utf8_from zero lo hi [] = true
utf8_from (suc need) lo hi [] = false
utf8_from zero lo hi (c ∷ s) = elim (utf8_first c) [
  | none ↦ false
  | some (need, lo', hi') ↦ utf8_from need lo' hi' s
]
utf8_from (suc need) lo hi (c ∷ s) = leb lo c && leb c hi && utf8_from need 0x80 0xBF s

unfoldable pub is_utf8 : Bytes → Bool
unfolding utf8_from
is_utf8 s = utf8_from 0 0 0 s

utf8_first-ascii : (c : ℕ) → c < 0x80 → utf8_first c ≡ some (0, 0, 0)
unfolding utf8_first
utf8_first-ascii c lt = let low : ltb c 0x80 ≡ true = ground (arith, lt) in rw low refl

utf8_from-ascii : (lo hi : ℕ) (s : Bytes) → All (λ c. c < 0x80) s → utf8_from 0 lo hi s ≡ true
unfolding utf8_from
utf8_from-ascii lo hi [] h = refl
utf8_from-ascii lo hi (c ∷ s) (lt, rest) =
    rw (utf8_from, utf8_first-ascii c lt) (utf8_from-ascii 0 0 s rest)

-- ASCII is well-formed.
pub is_utf8-ascii : (s : Bytes) → All (λ c. c < 0x80) s → is_utf8 s ≡ true
unfolding is_utf8
is_utf8-ascii s h = utf8_from-ascii 0 0 s h
