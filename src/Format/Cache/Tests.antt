-- ===== src/Format/Cache/Tests.antt =====
-- crates/qvs-format/src/cache.rs: the index on concrete entries.
use qvod_player.Prelude.{
  ◌*◌, ◌/◌, ℕ, ◌+◌, ◌≡◌, refl, arith, max, some, [], ◌∷◌, Bytes, u64, length, replicate, Ascending,
  total,
}
use mathlib.Core.List.{Perm}
use qvod_player.Core.Bitfield.Defs as Bitfield
use qvod_player.Format.Cache.Defs.{CacheEntry, Entries, new_entry, cleanup, write}
use qvod_player.Format.Cache.Cleanup.{IsEviction, cleanup-IsEviction}
use qvod_player.Format.Cache.Write.{lookup, lookup-write_again}

abbrev sample : ℕ → ℕ → ℕ → CacheEntry
sample id size time = record {
  info_hash = replicate 20 id;
  file_size = size;
  downloaded = size;
  bitfield = Bitfield.new 0;
  last_access = time;
  created_at = 0;
}

abbrev zeros : Bytes
zeros = replicate 20 0

abbrev ones : Bytes
ones = replicate 4 1

abbrev index : Entries
index = sample 1 60 9 ∷ sample 2 50 3 ∷ sample 3 30 5 ∷ []

cleanup-IsEviction_example :
    (sorted : Entries) × Perm sorted index
    × Ascending (λ (e : CacheEntry). e.last_access) sorted
    × IsEviction (100 * 80 / 100) sorted (cleanup 100 index)
cleanup-IsEviction_example =
    cleanup-IsEviction 100 index (omega arith) (unfold total in omega arith)

deleted : (cleanup 100 index).1 ≡ replicate 20 2 ∷ replicate 20 3 ∷ []
unfolding cleanup
deleted = refl

lookup-write_again_example :
    lookup
      (write (write [] (replicate 20 7) 0 ones 1) (replicate 20 7) 1000 ones 2)
      (replicate 20 7)
    ≡ some (record (new_entry (replicate 20 7) (u64 (0 + length ones)) 1) {
      downloaded = max (u64 (0 + length ones)) (u64 (1000 + length ones));
      last_access = 2;
    })
lookup-write_again_example =
    lookup-write_again [] (replicate 20 7) 0 1000 ones ones 1 2 (unfold lookup in refl)
