-- ===== src/Stream/Seek/Keyframe.antt =====
-- Where a seek to a time goes.
use mathlib.Core.List.{Memᴰ}
use qvod_player.Prelude.{
  ℕ, ◌<◌, ◌≡◌, ◌↔◌, arith, refl, inl, inr, true, some, [], ◌∷◌, All, Option-cases,
}
use qvod_player.Core.Error.{Message, QvodError, ok, err}
use qvod_player.Core.Meta.Keyframes.{KeyFrameEntry, KeyFrameIndex, is_i, find_nearest_i_frame}
use qvod_player.Core.Meta.Keyframes.Nearest.{IsNearest, find_nearest_i_frame-IsNearest}
use qvod_player.Stream.Seek.Defs.{SeekEngine, find_nearest_keyframe}

-- A seek answers the offset of an I frame of the index that is not behind the time, such that no other
-- is between them.
pub find_nearest_keyframe-offset :
    (s : SeekEngine) (t offset : ℕ)
    → find_nearest_keyframe s t ≡ ok offset
    → (index : KeyFrameIndex) × (entry : KeyFrameEntry) × (s.metadata.keyframe_index ≡ some index)
      × (entry.file_offset ≡ offset)
      × IsNearest t index (some entry)
unfolding find_nearest_keyframe
find_nearest_keyframe-offset s t offset h = elim (Option-cases s.metadata.keyframe_index) [
  | inl e ↦ cc (rw (e, find_nearest_keyframe) at h)
  | inr (index, e) ↦
      let near = find_nearest_i_frame-IsNearest index t in
      elim (Option-cases (find_nearest_i_frame index t)) [
        | inl g ↦ cc (rw (e, find_nearest_keyframe, g) at h)
        | inr (entry, g) ↦
            let same : entry.file_offset ≡ offset = cc (rw (e, find_nearest_keyframe, g) at h) in
            (index, entry, e, same, rw g at near)
      ]
]

contradicts :
    (t : ℕ) (index : KeyFrameIndex) (entry : KeyFrameEntry)
    → All (λ y. is_i y.frame_type ≡ true → t < y.timestamp_ms) index
    → IsNearest t index (some entry)
    → ⊥
contradicts t [] entry late (m, _, _) = elim m [ ]
contradicts t (e ∷ es) entry late (Memᴰ.head p, (i, le), _) =
    let lt = late.0 (rw p at i) in
    let same : entry.timestamp_ms ≡ e.timestamp_ms = cc p in omega arith
contradicts t (e ∷ es) entry late (Memᴰ.tail m, c, below) =
    contradicts t es entry late.1 (m, c, below.1)

-- A seek in a file with an index fails exactly where every I frame of it is behind the time.
pub find_nearest_keyframe-fails_iff :
    (s : SeekEngine) (t : ℕ) (index : KeyFrameIndex)
    → s.metadata.keyframe_index ≡ some index
    → (find_nearest_keyframe s t ≡ err (QvodError.protocol (Message.text "no keyframe found")))
      ↔ All (λ y. is_i y.frame_type ≡ true → t < y.timestamp_ms) index
unfolding find_nearest_keyframe
find_nearest_keyframe-fails_iff s t index h =
    let near = find_nearest_i_frame-IsNearest index t in
    elim (Option-cases (find_nearest_i_frame index t)) [
      | inl g ↦ ((λ _. rw g at near), λ _. rw (h, g) refl)
      | inr (entry, g) ↦ (
        (λ e. cc (rw (h, find_nearest_keyframe, g) at e)),
        λ late. absurd (contradicts t index entry late (rw g at near)),
      )
    ]
