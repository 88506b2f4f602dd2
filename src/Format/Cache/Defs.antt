-- ===== src/Format/Cache/Defs.antt =====
-- crates/qvs-format/src/cache.rs: the index of the cache, and what is read from a file of metadata. The time of
-- a call is an argument; so is what the file system answers. A call holds the lock to its end.
use qvod_player.Prelude.{
  ℕ, ◌+◌, ◌-◌, ◌*◌, ◌/◌, max, Bool, Option, none, some, List, [], ◌∷◌, ltb, leb, if◌then◌else◌,
  length, Bytes, u32, u64, total, sort_key,
}
use qvod_player.Core.NodeId.{same_id}
use qvod_player.Core.Bitfield.Defs.{Bitfield}
use qvod_player.Core.Bitfield.Defs as Bitfield
use qvod_player.Core.Meta.{FileMeta}
use qvod_player.Core.Outcome.{Outcome, ok, err, panics, out_of_fuel}
use qvod_player.Format.QvsFile.Defs.{QvsFile}
use qvod_player.Format.QvsFile.Defs as QvsFile

pub record CacheEntry : Type 0 where
  pub info_hash : Bytes
  pub file_size : ℕ
  pub downloaded : ℕ
  pub bitfield : Bitfield
  pub last_access : ℕ
  pub created_at : ℕ

abbrev pub Entries : Type 0
Entries = List CacheEntry

-- `.ok()?`, which lets a panic through.
abbrev or_none : {A : Type 0} → Outcome QvsFile → (QvsFile → A) → Outcome (Option A)
or_none (ok f) g = ok (some (g f))
or_none (err e) g = ok none
or_none panics g = panics
or_none out_of_fuel g = out_of_fuel

-- `div_ceil`, where the division by 0 is not reached.
unfoldable pub pieces_of : QvsFile → ℕ
pieces_of f =
    if ltb 0 f.piece_length then u32 ((f.file_size + (f.piece_length - 1)) / f.piece_length) else 0

unfoldable pub entry_of : ℕ → QvsFile → CacheEntry
unfolding pieces_of
entry_of now f = record {
  info_hash = f.info_hash;
  file_size = f.file_size;
  downloaded = 0;
  bitfield = Bitfield.new (pieces_of f);
  last_access = now;
  created_at = now;
}

-- The file is there with its bytes, or it cannot be read.
unfoldable pub find_entry : Option Bytes → ℕ → Outcome (Option CacheEntry)
unfolding entry_of
find_entry none now = ok none
find_entry (some bytes) now = or_none (QvsFile.decode bytes) (entry_of now)

unfoldable pub meta_of : QvsFile → FileMeta
meta_of f = record {
  info_hash = f.info_hash;
  filename = f.filename;
  file_size = f.file_size;
  piece_length = f.piece_length;
  pieces = f.pieces;
  keyframe_index = none;
  duration_ms = 0;
  video_codec = none;
  audio_codec = none;
  width = 0;
  height = 0;
  bitrate = 0;
  from_cache = Bool.true;
}

unfoldable pub find : Option Bytes → Outcome (Option FileMeta)
unfolding meta_of
find none = ok none
find (some bytes) = or_none (QvsFile.decode bytes) meta_of

unfoldable pub new_entry : Bytes → ℕ → ℕ → CacheEntry
unfolding Bitfield.new
new_entry info_hash written_end now = record {
  info_hash = info_hash;
  file_size = written_end;
  downloaded = written_end;
  bitfield = Bitfield.new 0;
  last_access = now;
  created_at = now;
}

-- The entry that `find` answers is changed, or a new one pushed.
unfoldable pub record_write : Bytes → ℕ → ℕ → Entries → Entries
unfolding new_entry
record_write info_hash written_end now [] = new_entry info_hash written_end now ∷ []
record_write info_hash written_end now (e ∷ es) =
    if same_id e.info_hash info_hash
    then record e { downloaded = max e.downloaded written_end; last_access = now } ∷ es
    else e ∷ record_write info_hash written_end now es

-- What `write` does to the index once the file is written.
unfoldable pub write : Entries → Bytes → ℕ → Bytes → ℕ → Entries
unfolding record_write
write es info_hash offset bytes now = record_write info_hash (u64 (offset + length bytes)) now es

-- The `retain` of `cleanup`: what stays, and what is to be deleted.
unfoldable pub evict : ℕ → ℕ → Entries → Entries × List Bytes
evict threshold total_size [] = ([], [])
evict threshold total_size (e ∷ es) =
    let kept = evict threshold total_size es in
    let evicted = evict threshold (total_size - e.file_size) es in
    if leb total_size threshold then (e ∷ kept.0, kept.1) else (evicted.0, e.info_hash ∷ evicted.1)

abbrev pub threshold_of : ℕ → ℕ
threshold_of max_size = u64 (max_size * 80) / 100

-- The index after the call, and the hashes whose files it deletes.
unfoldable pub cleanup : ℕ → Entries → Entries × List Bytes
unfolding evict total sort_key
cleanup max_size es =
    let sorted = sort_key (λ (e : CacheEntry). e.last_access) es in
    evict (threshold_of max_size) (u64 (total (λ (e : CacheEntry). e.file_size) sorted)) sorted
