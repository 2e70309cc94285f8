-- ===== src/Recording/Bounds.antt =====
-- The key frames of a recording file.
use collab_vm_server.Base.{◌≤◌, ◌≡◌, false, List, Option, none, some, length}
use collab_vm_server.Recording.{Controller, Effect}

-- The count of the header is the number of the next key frame, which the file has room for or which is
-- the first without room, and timers wait only while a file is open.
pub record WellFormed (s : Controller) : Type 0 where
  pub counted : s.file_header.keyframes_count ≡ s.next_keyframe_offset
  pub has_room : s.next_keyframe_offset ≤ length s.file_header.keyframes
  pub stop_timed : s.is_open ≡ false → s.stop_waiting ≡ false
  pub keyframe_timed : s.is_open ≡ false → s.keyframe_waiting ≡ false

abbrev Bounded : Controller → Type 0
Bounded s =
    (s.file_header.keyframes_count ≡ s.next_keyframe_offset)
    × (s.next_keyframe_offset ≤ length s.file_header.keyframes)

-- What holds of the state after a step, if the step is possible.
abbrev pub After : (Controller → Type 0) → Option (Controller × List Effect) → Type 0
After P none = Unit {0}
After P (some (s, es)) = P s
