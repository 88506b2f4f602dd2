-- ===== src/Format/Cache/Cleanup.antt =====
-- crates/qvs-format/src/cache.rs: what `cleanup` deletes.
use qvod_player.Prelude.{
  ◌*◌, ◌/◌, ℕ, zero, suc, ◌-◌, ◌^◌, ◌≤◌, ◌<◌, ◌≡◌, refl, ap, inl, inr, true, List, [], ◌∷◌, leb,
  map, take, drop, Bytes, arith, Bool-cases, total, sort_key, Ascending, sort_key-Ascending,
  sort_key-Perm, total-sort_key,
}
use mathlib.Core.Path.{subst}
use mathlib.Core.List.{Perm}
use qvod_player.Format.Cache.Defs.{CacheEntry, Entries, evict, threshold_of, cleanup}

abbrev pub size_of : Entries → ℕ
size_of es = total (λ (e : CacheEntry). e.file_size) es

-- The first entries go, as few of them as bring the sum of the sizes down to the threshold.
abbrev pub IsEviction : ℕ → Entries → Entries × List Bytes → Type 0
IsEviction threshold es out =
    (k : ℕ) × (out.0 ≡ drop k es)
    × (out.1 ≡ map (λ (e : CacheEntry). e.info_hash) (take k es))
    × (size_of (drop k es) ≤ threshold)
    × ((j : ℕ) → j < k → threshold < size_of (drop j es))

evict-small :
    (threshold size : ℕ) (es : Entries) → size ≤ threshold → evict threshold size es ≡ (es, [])
unfolding evict
evict-small threshold size [] h = refl
evict-small threshold size (e ∷ es) h =
    let small : leb size threshold ≡ true = ground (arith, h) in
    rw (small, evict-small threshold size es h) refl

evict-IsEviction :
    (threshold size : ℕ) (es : Entries)
    → size ≡ size_of es
    → IsEviction threshold es (evict threshold size es)
unfolding evict total
evict-IsEviction threshold size [] e = (0, refl, refl, omega arith, λ j lt. absurd (omega arith))
evict-IsEviction threshold size (x ∷ es) e = elim (Bool-cases (leb size threshold)) [
  | inl p ↦
      let small : size ≤ threshold = ground (arith, p) in
      rw (p, evict-small threshold size es small)
        (0, refl, refl, omega (arith, e, small), λ j lt. absurd (omega arith))
  | inr p ↦
      let large : threshold < size_of (x ∷ es) = ground (arith, p, e) in
      let (k, kept, gone, fits, needed) =
        evict-IsEviction threshold (size - x.file_size) es (omega (arith, e)) in
      rw p
        (suc k, kept, ap (λ hs. x.info_hash ∷ hs) gone, fits, earlier x es k threshold large needed)
]
  where
    earlier :
        (x : CacheEntry) (es : Entries) (k threshold : ℕ)
        → threshold < size_of (x ∷ es)
        → ((j : ℕ) → j < k → threshold < size_of (drop j es))
        → (j : ℕ) → j < suc k
        → threshold < size_of (drop j (x ∷ es))
    earlier x es k threshold large needed zero lt = large
    earlier x es k threshold large needed (suc j) lt = needed j (omega arith)

-- For a limit of which eighty times are below 2^64, and entries whose sizes add up to less than 2^64: a cleanup
-- sorts the entries by their last access and drops the oldest, as few of them as bring the sum of their
-- sizes down to four fifths of the limit (rounded down), also where the sum is below the limit itself.
pub cleanup-IsEviction :
    (max_size : ℕ) (es : Entries)
    → max_size * 80 < 2 ^ 64
    → size_of es < 2 ^ 64
    → (sorted : Entries) × Perm sorted es
      × Ascending (λ (e : CacheEntry). e.last_access) sorted
      × IsEviction (max_size * 80 / 100) sorted (cleanup max_size es)
unfolding cleanup
cleanup-IsEviction max_size es fits h =
    let key : CacheEntry → ℕ = λ e. e.last_access in
    let same = total-sort_key key (λ (e : CacheEntry). e.file_size) es in
    let limit : threshold_of max_size ≡ max_size * 80 / 100 = omega arith in
    (
      sort_key key es,
      sort_key-Perm key es,
      sort_key-Ascending key es,
      subst (λ t. IsEviction t (sort_key key es) (cleanup max_size es)) limit
          (evict-IsEviction (threshold_of max_size) _ (sort_key key es) (omega (arith, same))),
    )
