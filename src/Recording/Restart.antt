-- ===== src/Recording/Restart.antt =====
-- A recording that is begun anew while one runs.
use collab_vm_server.Base.{
  ℕ, ◌+◌, ◌-◌, ◌*◌, ◌≡◌, ◌≢◌, refl, sym, subst, length, ◌==◌, true, false, List, some, arith, ≢→==,
}
use collab_vm_server.Recording.{
  Controller, World, is_recording, is_before, Effect, Settings, stop_timer_aborts, step, start,
  stop, begin_file, open_file, start_keyframe_timer, set_recording_settings, stop_timer_handler,
  with_settings,
}

stop-recording : (s : Controller) (w : World) → is_recording (stop s w).0 ≡ false
unfolding stop
stop-recording s w = ground arith

-- The world lets a file be opened.
abbrev pub CanOpen : World → Type 0
CanOpen w =
    (w.directories_created ≡ true) × (w.is_opened ≡ true) × ((length w.date_time == 0) ≡ false)

-- A new file is recorded, and one handler of the stop timer more will have an error code.
abbrev pub BegunAnew : (s s' : Controller) → World → Type 0
BegunAnew s s' w =
    (is_recording s' ≡ true)
    × (s'.filename ≡ w.path)
    × (s'.file_header.start_time ≡ w.now)
    × (s'.stop_aborted ≡ s.stop_aborted + 1)

start-BegunAnew :
    (s : Controller) (w : World)
    → is_recording s ≡ true
    → s.stop_waiting ≡ true
    → s.file_duration ≢ 0
    → CanOpen w
    → BegunAnew s (start s w).0 w
unfolding start stop open_file begin_file start_keyframe_timer
start-BegunAnew s w r t d can = ground (arith, r, t, d, can)

set_recording_settings-start :
    (s : Controller) (w : World) (new : Settings)
    → is_recording s ≡ true
    → is_before w.until_stop (60 * new.file_duration) ≡ true
    → set_recording_settings s w new ≡ start (with_settings s new) w
unfolding set_recording_settings
set_recording_settings-start s w new r early = ground (arith, r, early)

stop_timer_aborts-stop :
    (s : Controller) (w : World) (n : ℕ)
    → s.stop_aborted ≡ n + 1
    → (r : Controller × List Effect) × (step s (stop_timer_aborts w) ≡ some r)
      × (is_recording r.0 ≡ false)
unfolding step stop_timer_handler
stop_timer_aborts-stop s w n h =
    let out = stop (record s { stop_aborted = s.stop_aborted - 1 }) w in
    (
      (out.0, out.1),
      rw (≢→== s.stop_aborted 0 (ground (arith, h))) refl,
      stop-recording (record s { stop_aborted = s.stop_aborted - 1 }) w,
    )

-- New settings that arrive while a file is recorded, and whose duration is longer than the time until its
-- stop timer, begin to record a new file if one can be opened; but the handler of the cancelled stop
-- timer, if it runs next, stops that recording, so that nothing is recorded any more.
pub settings_end_recording :
    (s : Controller) (w later : World) (new : Settings)
    → is_recording s ≡ true
    → s.stop_waiting ≡ true
    → new.file_duration ≢ 0
    → is_before w.until_stop (60 * new.file_duration) ≡ true
    → CanOpen w
    → BegunAnew s (set_recording_settings s w new).0 w
      × (r : Controller × List Effect) × (step
            (set_recording_settings s w new).0
            (stop_timer_aborts later)
          ≡ some r)
      × (is_recording r.0 ≡ false)
settings_end_recording s w later new r t d early can =
    let s' = with_settings s new in
    let e = set_recording_settings-start s w new r early in
    let anew = subst (λ o. BegunAnew s o.0 w) (sym e) (start-BegunAnew s' w r t d can) in
    let (out, ran, off) =
      stop_timer_aborts-stop (set_recording_settings s w new).0 later s.stop_aborted anew.3 in
    (anew, out, ran, off)

-- After a write to the file has failed, the stream stays open and nothing is recorded any more, however
-- often a recording is started.
pub failed_write_lasts :
    (s : Controller) (w : World)
    → s.is_open ≡ true
    → s.is_good ≡ false
    → ((start s w).0.is_open ≡ true) × ((start s w).0.is_good ≡ false)
unfolding start stop open_file begin_file start_keyframe_timer
failed_write_lasts s w o g = ground (arith, o, g)
