-- ===== src/Archive/Tests.antt =====
-- The table of three recording files of a VM.
use collab_vm_server.Base.{◌≡◌, refl, true, false, List, [], ◌∷◌, Option, none, some, ◌>>=◌}
use collab_vm_server.Archive.{Row, set_recording_start_stop_time, get_recording_file_path}

abbrev table : Option (List Row)
table = set_recording_start_stop_time [] 1 (97 ∷ []) 300 true >>= λ t.
    set_recording_start_stop_time t 1 (98 ∷ []) 100 true >>= λ u.
    set_recording_start_stop_time u 1 (98 ∷ []) 200 false >>= λ v.
    set_recording_start_stop_time v 2 (99 ∷ []) 100 true

abbrev rows_of : Option (List Row) → List Row
rows_of none = []
rows_of (some rows) = rows

first_file : get_recording_file_path (rows_of table) 1 0 1000 ≡ (98 ∷ [], 100, 200)
unfolding set_recording_start_stop_time get_recording_file_path
first_file = refl

-- A recording that began before the span is not found.
later_file : get_recording_file_path (rows_of table) 1 150 1000 ≡ (97 ∷ [], 300, 0)
unfolding set_recording_start_stop_time get_recording_file_path
later_file = refl
