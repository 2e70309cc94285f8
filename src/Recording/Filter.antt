-- ===== src/Recording/Filter.antt =====
-- RecordingController.hpp: which messages are written to the file. A message is its kind; what it says
-- does not matter here.
use collab_vm_server.Base.{
  ℕ, Bool, true, false, not, ◌||◌, List, [], ◌∷◌, ◌++◌, contains, ◌==◌, if◌then◌else◌,
}
use collab_vm_server.Recording.{Controller, is_recording}

-- The instructions of a Guacamole server.
pub data Instruction : Type 0 where
  sync mouse key : Instruction
  blob end audio : (stream : ℕ) → Instruction
  other_instruction : Instruction

pub data Recorded : Type 0 where
  guac_instr : Instruction → Recorded
  admin_user_list_add user_list_remove change_username vm_turn_info vote_result : Recorded
  other_message : Recorded

pub data ClientInstruction : Type 0 where
  client_mouse client_key other_client_instruction : ClientInstruction

abbrev pub erase_stream : ℕ → List ℕ → List ℕ
erase_stream stream [] = []
erase_stream stream (i ∷ is) =
    if stream == i then erase_stream stream is else i ∷ erase_stream stream is

abbrev with_ignored : Controller → List ℕ → Controller
with_ignored s streams = record s { ignored_streams = streams }

-- The end of an ignored stream forgets the stream. All instructions but the named ones are of the display.
unfoldable pub should_record_instruction : Controller → Instruction → Controller × Bool
should_record_instruction s sync =
    (s, s.settings.capture_display || s.settings.capture_input || s.settings.capture_audio)
should_record_instruction s (blob stream) = (s, not (contains stream s.ignored_streams))
should_record_instruction s (end stream) = (
  with_ignored s (erase_stream stream s.ignored_streams),
  not (contains stream s.ignored_streams),
)
should_record_instruction s (audio stream) = if s.settings.capture_audio then (s, true) else (
  with_ignored s
      (if contains stream s.ignored_streams then s.ignored_streams else stream ∷ s.ignored_streams),
  false,
)
should_record_instruction s mouse = (s, s.settings.capture_input)
should_record_instruction s key = (s, s.settings.capture_input)
should_record_instruction s other_instruction = (s, s.settings.capture_display)

unfoldable pub should_record_message : Controller → Recorded → Controller × Bool
unfolding should_record_instruction
should_record_message s (guac_instr i) = should_record_instruction s i
should_record_message s m = (s, true)

-- What is appended to the file: a message, behind a timestamp for some.
pub data Written : Type 0 where
  recording_timestamp : (now : ℕ) → Written
  recorded : Recorded → Written

unfoldable pub include_timestamp : (now : ℕ) → Recorded → List Written
include_timestamp now admin_user_list_add = recording_timestamp now ∷ []
include_timestamp now user_list_remove = recording_timestamp now ∷ []
include_timestamp now change_username = recording_timestamp now ∷ []
include_timestamp now vm_turn_info = recording_timestamp now ∷ []
include_timestamp now vote_result = recording_timestamp now ∷ []
include_timestamp now m = []

unfoldable pub write_message : Controller → (now : ℕ) → Recorded → Controller × List Written
unfolding should_record_message include_timestamp
write_message s now m =
    if not (is_recording s)
    then (s, [])
    else (let (s', wanted) = should_record_message s m in
        (s', if wanted then include_timestamp now m ++ recorded m ∷ [] else []))

-- Input of a client is written as the instruction of a server.
unfoldable pub write_input : Controller → (now : ℕ) → ClientInstruction → Controller × List Written
unfolding write_message
write_input s now i =
    if not (is_recording s) || not s.settings.capture_input then (s, []) else (elim i [
      | client_mouse ↦ write_message s now (guac_instr mouse)
      | client_key ↦ write_message s now (guac_instr key)
      | other_client_instruction ↦ (s, [])
    ])

-- The messages of a recording, in order.
unfoldable pub write_messages : Controller → List (ℕ × Recorded) → List Written
unfolding write_message
write_messages s [] = []
write_messages s ((now, m) ∷ ms) =
    (write_message s now m).1 ++ write_messages (write_message s now m).0 ms
