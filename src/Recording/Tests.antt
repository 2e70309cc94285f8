-- ===== src/Recording/Tests.antt =====
-- A recording that is started, and its theorems.
use collab_vm_server.Base.{◌≡◌, ◌≢◌, refl, true, false, List, [], ◌∷◌, Option, none, some, arith}
use collab_vm_server.Base.Int.{pos}
use collab_vm_server.Recording.{
  Controller, World, is_recording, Settings, Effect, Event, initial, started, settings_set,
  keyframe_timer_fires, stop_timer_aborts, set_recording_settings, step, run,
}
use collab_vm_server.Recording.Filter.{
  write_messages, guac_instr, audio, blob, end, vote_result, recorded, recording_timestamp,
}
use collab_vm_server.Recording.Restart.{BegunAnew, settings_end_recording}

abbrev world : World
world = record {
  now = 1000;
  directories_created = true;
  date_time = 100 ∷ [];
  path = 118 ∷ [];
  is_opened = true;
  position = 64;
  until_stop = pos 590;
}

-- Files of ten minutes with a key frame every five.
abbrev ten_minutes : Settings
ten_minutes = record {
  file_duration = 10;
  keyframe_interval = 300;
  capture_display = true;
  capture_input = false;
  capture_audio = false;
}

abbrev events : List Event
events =
    settings_set world ten_minutes
    ∷ started world
    ∷ keyframe_timer_fires world
    ∷ keyframe_timer_fires world
    ∷ []

abbrev state_after : Option Controller → Controller
state_after none = initial
state_after (some s) = s

abbrev running : Controller
running = state_after (run initial events)

two_keyframes : running.file_header.keyframes_count ≡ 2
unfolding run
two_keyframes = refl

running-recording : is_recording running ≡ true
unfolding run
running-recording = refl

running-waiting : running.stop_waiting ≡ true
unfolding run
running-waiting = refl

has_duration : ten_minutes.file_duration ≢ 0
has_duration h = omega arith

settings_end_recording_example :
    BegunAnew running (set_recording_settings running world ten_minutes).0 world
    × (r : Controller × List Effect) × (step
          (set_recording_settings running world ten_minutes).0
          (stop_timer_aborts world)
        ≡ some r)
    × (is_recording r.0 ≡ false)
settings_end_recording_example =
    settings_end_recording running world world ten_minutes running-recording running-waiting
      has_duration refl (refl, refl, refl)

-- The stream of sound is left out up to its end.
sound_ignored :
    write_messages running (
      (1, guac_instr (audio 4))
      ∷ (2, guac_instr (blob 4))
      ∷ (3, vote_result)
      ∷ (4, guac_instr (end 4))
      ∷ (5, guac_instr (blob 4))
      ∷ [])
    ≡ (recording_timestamp 3 ∷ recorded vote_result ∷ recorded (guac_instr (blob 4)) ∷ [])
unfolding run write_messages
sound_ignored = refl
