-- ===== src/Archive/Playback.antt =====
-- CollabVmServer.hpp, `RecordingFileStream`: the place in a recording file. Iterators into the key frames
-- are their numbers; `lower_bound` over the reversed key frames is a search from the last one.
use collab_vm_server.Base.{
  ℕ, zero, suc, ◌+◌, ◌≡◌, refl, Bool, true, false, not, ◌||◌, List, [], ◌∷◌, Option, none, some,
  get_elem?, length, ltb, leb, if◌then◌else◌, arith,
}
use collab_vm_server.Recording.{Keyframe, FileHeader}

pub record Stream : Type 0 where
  pub file_header : FileHeader
  pub keyframes : List Keyframe
  pub keyframe_begin : ℕ
  pub current_timestamp : ℕ
  pub file_offset : ℕ

abbrev pub taken : ℕ → List Keyframe → List Keyframe
taken zero ks = []
taken (suc n) [] = []
taken (suc n) (k ∷ ks) = k ∷ taken n ks

-- The stream of a file whose header is read; `offset` is the place behind the header.
unfoldable pub open_stream : FileHeader → (offset : ℕ) → Stream
open_stream header offset = record {
  file_header = header;
  keyframes = taken header.keyframes_count header.keyframes;
  keyframe_begin = 0;
  current_timestamp = header.start_time;
  file_offset = offset;
}

-- `none` is an iterator behind the last key frame.
unfoldable pub seek_to_keyframe : Stream → ℕ → Option Stream
seek_to_keyframe s i = elim (get_elem? s.keyframes i) [
  | none ↦ none
  | some k ↦ some (record s {
    file_offset = k.file_offset;
    keyframe_begin = i;
    current_timestamp = k.timestamp;
  })
]

unfoldable pub get_next_file_timestamp : Stream → ℕ
get_next_file_timestamp s =
    if leb (s.file_header.start_time + 1) s.file_header.stop_time
    then s.file_header.stop_time
    else s.file_header.start_time + 1

unfoldable pub next_keyframe : Stream → Option (Stream × Bool)
unfolding seek_to_keyframe get_next_file_timestamp
next_keyframe s =
    if ltb (s.keyframe_begin + 1) (length s.keyframes)
    then (elim (seek_to_keyframe s (s.keyframe_begin + 1)) [
      | none ↦ none
      | some s' ↦ some (s', true)
    ])
    else some (record s { current_timestamp = get_next_file_timestamp s }, false)

-- The last key frame in front of a number that is not after the timestamp.
unfoldable pub find_back : List Keyframe → ℕ → (timestamp : ℕ) → Option (ℕ × Keyframe)
find_back ks zero timestamp = none
find_back ks (suc i) timestamp =
    let rest = find_back ks i timestamp in
    elim (get_elem? ks i) [
      | none ↦ rest
      | some k ↦ if leb k.timestamp timestamp then some (i, k) else rest
    ]

abbrev rewound : Stream → ℕ → Stream
rewound s timestamp = record s {
  keyframe_begin = (if ltb timestamp s.current_timestamp then 0 else s.keyframe_begin);
}

-- `base()` of the reverse iterator of a key frame is the key frame behind it.
unfoldable pub seek_to_timestamp : Stream → (timestamp : ℕ) → Option (Stream × Bool)
unfolding find_back seek_to_keyframe
seek_to_timestamp s timestamp =
    if ltb timestamp s.file_header.start_time || ltb s.file_header.stop_time timestamp
    then some (s, false)
    else (let s' = rewound s timestamp in
        elim (find_back s'.keyframes s'.keyframe_begin timestamp) [
          | none ↦ some (s', true)
          | some (i, k) ↦
              if ltb s'.current_timestamp k.timestamp || ltb timestamp s'.current_timestamp
              then (elim (seek_to_keyframe s' (i + 1)) [
                | none ↦ none
                | some s'' ↦ some (s'', true)
              ])
              else some (s', true)
        ])

find_back-first : (ks : List Keyframe) (i timestamp : ℕ) → i ≡ 0 → find_back ks i timestamp ≡ none
unfolding find_back
find_back-first ks zero timestamp h = refl
find_back-first ks (suc i) timestamp h = absurd (omega (arith, h))

rewound-first :
    (s : Stream) (timestamp : ℕ) → s.keyframe_begin ≡ 0 → (rewound s timestamp).keyframe_begin ≡ 0
rewound-first s timestamp h = ground (arith, h)

rewound-eq : (s : Stream) (timestamp : ℕ) → s.keyframe_begin ≡ 0 → rewound s timestamp ≡ s
rewound-eq s timestamp h = ground (arith, h)

-- A stream at the first key frame, as after it was opened, stays where it is when it seeks to any time: the
-- key frames behind the first are not searched.
pub seek_to_timestamp_stays :
    (s : Stream) (timestamp : ℕ)
    → s.keyframe_begin ≡ 0
    → (found : Bool) × (seek_to_timestamp s timestamp ≡ some (s, found))
unfolding seek_to_timestamp
seek_to_timestamp_stays s timestamp h = (
  not (ltb timestamp s.file_header.start_time || ltb s.file_header.stop_time timestamp),
  stays
      (find_back-first s.keyframes (rewound s timestamp).keyframe_begin timestamp
        (rewound-first s timestamp h))
      (rewound-eq s timestamp h),
)
  where
    stays :
        find_back s.keyframes (rewound s timestamp).keyframe_begin timestamp ≡ none
        → rewound s timestamp ≡ s
        → seek_to_timestamp s timestamp
          ≡ some (
            s,
            not (ltb timestamp s.file_header.start_time || ltb s.file_header.stop_time timestamp),
          )
    stays e same = ground (arith, e, same)
