-- ===== src/Recording.antt =====
-- RecordingController.hpp: the recording of a VM into files. A timer has at most one wait; cancelling it
-- or setting it again ends the wait, and its handler runs later with an error code. `stop_aborted`
-- counts such handlers of the stop timer; those of the key frame timer do nothing. What the clocks, the
-- file system and the timers answer is in `World`; a write to the file may fail at any time. Times are milliseconds; durations are seconds.
pub mod Filter
pub mod Bounds
pub mod Restart
pub mod Tests
use collab_vm_server.Base.{
  ℕ, ◌+◌, ◌-◌, ◌*◌, ◌/◌, Bool, true, false, not, ◌&&◌, ◌||◌, List, [], ◌∷◌, ◌++◌, Option, none,
  some, length, set, replicate, ltb, ◌==◌, if◌then◌else◌,
}
use collab_vm_server.Base.Int.{ℤ, pos, negsuc}

-- `ServerSetting::Recordings`.
pub record Settings : Type 0 where
  pub file_duration : ℕ
  pub keyframe_interval : ℕ
  pub capture_display : Bool
  pub capture_input : Bool
  pub capture_audio : Bool

pub record Keyframe : Type 0 where
  pub file_offset : ℕ
  pub timestamp : ℕ

-- `RecordingFileHeader`.
pub record FileHeader : Type 0 where
  pub start_time : ℕ
  pub stop_time : ℕ
  pub keyframes : List Keyframe
  pub keyframes_count : ℕ

abbrev pub blank_keyframe : Keyframe
blank_keyframe = record { file_offset = 0; timestamp = 0 }

abbrev pub no_header : FileHeader
no_header = record { start_time = 0; stop_time = 0; keyframes = []; keyframes_count = 0 }

-- `file_duration_` in minutes.
pub record Controller : Type 0 where
  pub settings : Settings
  pub file_duration : ℕ
  pub keyframe_interval : ℕ
  -- Of the stream of the file: `is_open()` and `good()`.
  pub is_open : Bool
  pub is_good : Bool
  pub filename : List ℕ
  pub file_header : FileHeader
  pub next_keyframe_offset : ℕ
  pub ignored_streams : List ℕ
  pub stop_waiting : Bool
  pub stop_aborted : ℕ
  pub keyframe_waiting : Bool

abbrev pub no_settings : Settings
no_settings = record {
  file_duration = 0;
  keyframe_interval = 0;
  capture_display = false;
  capture_input = false;
  capture_audio = false;
}

abbrev pub is_recording : Controller → Bool
is_recording s = s.is_open && s.is_good

abbrev pub initial : Controller
initial = record {
  settings = no_settings;
  file_duration = 0;
  keyframe_interval = 0;
  is_open = false;
  is_good = true;
  filename = [];
  file_header = no_header;
  next_keyframe_offset = 0;
  ignored_streams = [];
  stop_waiting = false;
  stop_aborted = 0;
  keyframe_waiting = false;
}

-- `path` is the name that the recording of the VM gets at `date_time`.
pub record World : Type 0 where
  pub now : ℕ
  pub directories_created : Bool
  pub date_time : List ℕ
  pub path : List ℕ
  pub is_opened : Bool
  pub position : ℕ
  pub until_stop : ℤ

pub data Effect : Type 0 where
  file_opened : List ℕ → Effect
  header_written : FileHeader → Effect
  file_closed : Effect
  recording_started recording_stopped : (time : ℕ) → Effect
  keyframe_in_recording : Effect

abbrev cancel_stop_timer : Controller → Controller
cancel_stop_timer s = record s {
  stop_waiting = false;
  stop_aborted = (if s.stop_waiting then s.stop_aborted + 1 else s.stop_aborted);
}

-- The result is the time of the stop; `none` is `time_point::min()`.
unfoldable pub stop : Controller → World → Controller × List Effect × Option ℕ
stop s w =
    if not (is_recording s)
    then (s, [], none)
    else (let header = record s.file_header { stop_time = w.now } in
        (
          record (cancel_stop_timer s) {
            keyframe_waiting = false;
            file_header = header;
            is_open = false;
            filename = [];
          },
          header_written header ∷ file_closed ∷ recording_stopped w.now ∷ [],
          some w.now,
        ))

unfoldable pub start_keyframe_timer : Controller → Controller × List Effect
start_keyframe_timer s = (
  record s { ignored_streams = []; keyframe_waiting = not (s.keyframe_interval == 0) },
  keyframe_in_recording ∷ [],
)

-- How many key frames a file has room for: `file_duration_ / keyframe_interval_`.
abbrev pub keyframes_in : (minutes interval : ℕ) → ℕ
keyframes_in minutes interval = if interval == 0 then 0 else 60 * minutes / interval

abbrev or_now : Option ℕ → ℕ → ℕ
or_now none now = now
or_now (some time) now = time

abbrev pub new_header : Controller → ℕ → FileHeader
new_header s start_time = record {
  start_time = start_time;
  stop_time = 0;
  keyframes = replicate (keyframes_in s.file_duration s.keyframe_interval) blank_keyframe;
  keyframes_count = 0;
}

-- The part of `Start` behind the opened file; the stop timer waits anew.
unfoldable pub begin_file : Controller → (start_time : ℕ) → Controller × List Effect
unfolding start_keyframe_timer
begin_file s start_time =
    let header = new_header s start_time in
    let (s', es) = start_keyframe_timer (record (cancel_stop_timer s) {
      file_header = header;
      next_keyframe_offset = 0;
      stop_waiting = true;
    }) in
    (s', header_written header ∷ recording_started start_time ∷ es)

-- To open a stream that is open already fails.
unfoldable pub open_file : Controller → World → (start_time : ℕ) → Controller × List Effect
unfolding begin_file
open_file s w start_time =
    if not w.directories_created || length w.date_time == 0
    then (s, [])
    else (let opened = record s { filename = w.path; is_open = true; is_good = true } in
        let failed = record s { filename = w.path; is_good = false } in
        let (s', es) = begin_file opened start_time in
        if s.is_open || not w.is_opened then (failed, []) else (s', file_opened w.path ∷ es))

unfoldable pub start : Controller → World → Controller × List Effect
unfolding stop open_file
start s w =
    if s.file_duration == 0
    then (s, [])
    else (let (s', es, stopped) = stop s w in
        let (s'', es') = open_file s' w (or_now stopped w.now) in (s'', es ++ es'))

abbrev differ : Bool → Bool → Bool
differ true b = not b
differ false b = b

abbrev with_settings : Controller → Settings → Controller
with_settings s new = record s {
  settings = new;
  file_duration = new.file_duration;
  keyframe_interval = new.keyframe_interval;
}

abbrev without_result : Controller × List Effect × Option ℕ → Controller × List Effect
without_result (s, es, time) = (s, es)

-- Is a time less than a duration?
abbrev pub is_before : ℤ → ℕ → Bool
is_before (pos n) duration = ltb n duration
is_before (negsuc n) duration = true

-- `until_stop` is `expiry() - now` of the stop timer, rounded down to seconds; it is negative when the
-- timer is due.
unfoldable pub set_recording_settings : Controller → World → Settings → Controller × List Effect
unfolding start start_keyframe_timer
set_recording_settings s w new =
    let create_keyframe =
      not (s.keyframe_interval == new.keyframe_interval)
      || differ s.settings.capture_display new.capture_display
      || differ s.settings.capture_audio new.capture_audio in
    let s' = with_settings s new in
    if not (is_recording s)
    then (s', [])
    else (if is_before w.until_stop (60 * new.file_duration)
        then start s' w
        else if create_keyframe
        then start_keyframe_timer s'
        else (s', []))

-- The handler of the stop timer.
unfoldable pub stop_timer_handler : Controller → World → (failed : Bool) → Controller × List Effect
unfolding start stop
stop_timer_handler s w failed = if failed then without_result (stop s w) else start s w

-- The handler of the key frame timer.
unfoldable pub keyframe_timer_handler :
    Controller → World → (failed : Bool) → Controller × List Effect
unfolding start start_keyframe_timer
keyframe_timer_handler s w failed =
    let h = s.file_header in
    let keyframe : Keyframe = record { file_offset = w.position; timestamp = w.now } in
    let h' : FileHeader = record h {
      keyframes = set h.keyframes s.next_keyframe_offset keyframe;
      keyframes_count = h.keyframes_count + 1;
    } in
    let (s', es) =
      start_keyframe_timer
        (record s { file_header = h'; next_keyframe_offset = s.next_keyframe_offset + 1 }) in
    if failed
    then (s, [])
    else (if s.next_keyframe_offset == length h.keyframes
        then start s w
        else (s', header_written h' ∷ es))

-- What other code, the timers and the file do. A handler runs only after its wait.
pub data Event : Type 0 where
  started stopped : World → Event
  settings_set : World → Settings → Event
  stop_timer_fires stop_timer_aborts keyframe_timer_fires : World → Event
  -- A write to the file fails.
  write_fails : Event

unfoldable pub step : Controller → Event → Option (Controller × List Effect)
unfolding start stop set_recording_settings stop_timer_handler keyframe_timer_handler
step s (started w) = some (start s w)
step s (stopped w) = some (without_result (stop s w))
step s (settings_set w new) = some (set_recording_settings s w new)
step s (stop_timer_fires w) =
    if s.stop_waiting
    then some (stop_timer_handler (record s { stop_waiting = false }) w false)
    else none
step s (stop_timer_aborts w) =
    if s.stop_aborted == 0
    then none
    else some (stop_timer_handler (record s { stop_aborted = s.stop_aborted - 1 }) w true)
step s (keyframe_timer_fires w) =
    if s.keyframe_waiting
    then some (keyframe_timer_handler (record s { keyframe_waiting = false }) w false)
    else none
step s write_fails = some (record s { is_good = false }, [])

unfoldable pub run : Controller → List Event → Option Controller
unfolding step
run s [] = some s
run s (e ∷ es) = elim (step s e) [ none ↦ none | some (s', told) ↦ run s' es ]
