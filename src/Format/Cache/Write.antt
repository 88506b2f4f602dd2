-- ===== src/Format/Cache/Write.antt =====
-- crates/qvs-format/src/cache.rs: what a write records.
use qvod_player.Prelude.{
  ℕ, ◌+◌, max, ◌≡◌, refl, ap, ◌∙◌, sym, inl, inr, true, false, Option, none, some, [], ◌∷◌,
  if◌then◌else◌, length, Bytes, u64, Bool-cases,
}
use qvod_player.Core.NodeId.{same_id, same_id_iff}
use qvod_player.Format.Cache.Defs.{CacheEntry, Entries, new_entry, record_write, write}

-- The first entry of a hash.
unfoldable pub lookup : Entries → Bytes → Option CacheEntry
lookup [] h = none
lookup (e ∷ es) h = if same_id e.info_hash h then some e else lookup es h

abbrev pub updated : Bytes → ℕ → ℕ → Option CacheEntry → CacheEntry
updated h written_end now none = new_entry h written_end now
updated h written_end now (some e) = record e {
  downloaded = max e.downloaded written_end;
  last_access = now;
}

same_id_refl : (h : Bytes) → same_id h h ≡ true
same_id_refl h = (same_id_iff h h).1 refl

lookup-record_write_same :
    (h : Bytes) (written_end now : ℕ) (es : Entries)
    → lookup (record_write h written_end now es) h ≡ some (updated h written_end now (lookup es h))
unfolding lookup record_write new_entry
lookup-record_write_same h written_end now [] = rw (same_id_refl h) refl
lookup-record_write_same h written_end now (e ∷ es) = elim (Bool-cases (same_id e.info_hash h)) [
  | inl p ↦ rw (p, p) refl
  | inr p ↦ rw (p, p) (lookup-record_write_same h written_end now es)
]

lookup-record_write_other :
    (h j : Bytes) (written_end now : ℕ) (es : Entries)
    → same_id h j ≡ false
    → lookup (record_write h written_end now es) j ≡ lookup es j
unfolding lookup record_write new_entry
lookup-record_write_other h j written_end now [] d = rw d refl
lookup-record_write_other h j written_end now (e ∷ es) d =
    elim (Bool-cases (same_id e.info_hash h)) [
      | inl p ↦
          let same : e.info_hash ≡ h = (same_id_iff e.info_hash h).0 p in
          let other : same_id e.info_hash j ≡ false = ap (λ i. same_id i j) same ∙ d in
          rw (p, other) refl
      | inr p ↦ rw p (
          ap (λ o. if same_id e.info_hash j then some e else o)
            (lookup-record_write_other h j written_end now es d))
    ]

pub lookup-write :
    (es : Entries) (h : Bytes) (offset : ℕ) (bytes : Bytes) (now : ℕ) (j : Bytes)
    → lookup (write es h offset bytes now) j ≡ (
        if same_id h j
        then some (updated h (u64 (offset + length bytes)) now (lookup es h))
        else lookup es j)
unfolding write
lookup-write es h offset bytes now j = elim (Bool-cases (same_id h j)) [
  | inl p ↦
      let same : h ≡ j = (same_id_iff h j).0 p in
      rw p
        (ap (lookup _) (sym same) ∙ lookup-record_write_same h (u64 (offset + length bytes)) now es)
  | inr p ↦ rw p (lookup-record_write_other h j (u64 (offset + length bytes)) now es p)
]

-- The size of a file that has no entry and is written in two pieces is recorded as the end of the first piece, however far
-- the second one reaches; only the number of downloaded bytes grows.
pub lookup-write_again :
    (es : Entries) (h : Bytes) (offset more : ℕ) (bytes rest : Bytes) (now later : ℕ)
    → lookup es h ≡ none
    → lookup (write (write es h offset bytes now) h more rest later) h
      ≡ some (record (new_entry h (u64 (offset + length bytes)) now) {
        downloaded = max (u64 (offset + length bytes)) (u64 (more + length rest));
        last_access = later;
      })
unfolding new_entry
lookup-write_again es h offset more bytes rest now later e =
    let self = same_id_refl h in
    let first = lookup-write es h offset bytes now h in
    let second = lookup-write (write es h offset bytes now) h more rest later h in
    second ∙ rw (self, first, self, e) refl
