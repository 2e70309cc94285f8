-- ===== src/Archive.antt =====
-- Database.cpp: the table of the recording files, and CollabVmServer.hpp: reading a file from its key
-- frames (`RecordingFileStream`). Times are milliseconds. `none` as a result is the exception of a
-- constraint. A row's missing time is NULL.
pub mod Earliest
pub mod Playback
pub mod Tests
use collab_vm_server.Base.{
  ℕ, zero, suc, ◌+◌, Bool, true, false, not, ◌&&◌, ◌||◌, List, [], ◌∷◌, ◌++◌, Option, none, some,
  get_elem?, length, ltb, leb, ◌==◌, if◌then◌else◌, same_text,
}
use collab_vm_server.Recording.{Keyframe, FileHeader}

pub record Row : Type 0 where
  pub vm_id : ℕ
  pub start_time : Option ℕ
  pub stop_time : Option ℕ
  pub file_path : List ℕ

abbrev has_path : List ℕ → List Row → Bool
has_path path [] = false
has_path path (r ∷ rs) = same_text r.file_path path || has_path path rs

abbrev starts_at : Option ℕ → ℕ → Bool
starts_at none time = false
starts_at (some t) time = t == time

-- Does a row with another path have the primary key, the VM and the start time?
abbrev has_other : List ℕ → ℕ → ℕ → List Row → Bool
has_other path vm_id time [] = false
has_other path vm_id time (r ∷ rs) =
    not (same_text r.file_path path) && r.vm_id == vm_id && starts_at r.start_time time
    || has_other path vm_id time rs

abbrev with_time : Bool → ℕ → Row → Row
with_time true time r = record r { start_time = some time }
with_time false time r = record r { stop_time = some time }

unfoldable pub set_row_time : List ℕ → Bool → ℕ → List Row → List Row
set_row_time path is_start time [] = []
set_row_time path is_start time (r ∷ rs) =
    (if same_text r.file_path path then with_time is_start time r else r)
    ∷ set_row_time path is_start time rs

abbrev blank_row : ℕ → List ℕ → Row
blank_row vm_id path = record {
  vm_id = vm_id;
  start_time = none;
  stop_time = none;
  file_path = path;
}

-- The row of the path is inserted or updated. The start of an updated row keeps the row's own VM, which
-- is that of the path.
unfoldable pub set_recording_start_stop_time :
    List Row → (vm_id : ℕ) → (path : List ℕ) → (time : ℕ) → (is_start : Bool) → Option (List Row)
unfolding set_row_time
set_recording_start_stop_time rows vm_id path time is_start =
    if is_start && has_other path vm_id time rows
    then none
    else (if has_path path rows
        then some (set_row_time path is_start time rows)
        else some (rows ++ with_time is_start time (blank_row vm_id path) ∷ []))

-- Is the row of the VM, and does its recording start in the span?
abbrev pub in_span : (vm_id start stop : ℕ) → Row → Bool
in_span vm_id start stop r =
    r.vm_id == vm_id && (elim r.start_time [ none ↦ false | some t ↦ leb start t && ltb t stop ])

abbrev pub start_of : Row → ℕ
start_of r = elim r.start_time [ none ↦ 0 | some t ↦ t ]

abbrev earlier : Row → Option Row → Row
earlier r none = r
earlier r (some q) = if leb (start_of r) (start_of q) then r else q

-- `ORDER BY StartTime ASC LIMIT 1` of the rows in the span.
unfoldable pub first_in_span : (vm_id start stop : ℕ) → List Row → Option Row
first_in_span vm_id start stop [] = none
first_in_span vm_id start stop (r ∷ rs) =
    let rest = first_in_span vm_id start stop rs in
    if in_span vm_id start stop r then some (earlier r rest) else rest

abbrev time_of : Option ℕ → ℕ
time_of none = 0
time_of (some t) = t

-- The path with the start and the stop, for which 0 is none; the empty path if there is no row.
unfoldable pub get_recording_file_path :
    List Row → (vm_id start_time stop_time : ℕ) → List ℕ × ℕ × ℕ
unfolding first_in_span
get_recording_file_path rows vm_id start_time stop_time =
    elim (first_in_span vm_id start_time stop_time rows) [
      | none ↦ ([], 0, 0)
      | some r ↦ (r.file_path, time_of r.start_time, time_of r.stop_time)
    ]
