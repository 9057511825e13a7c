-- ===== src/Announce.antt =====
-- src/platform/mybot_announce.c: the queue of sounds that speaks a pair code. Every function that the
-- lock guards is one step. A sound handle is a number; what `open` and `read` of the platform answer is
-- an argument, the n-th call getting the n-th answer.
pub mod Handles
pub mod Reads
mod Tests
use mybot.Common.{
  zero, ◌-◌, map, suc, length, leb, none, some, ◌∷◌, ltb, ◌||◌, Text, true, not, ◌==◌, ◌&&◌, get_or,
  ◌++◌, Option, ◌+◌, ℕ, false, Bool, List, if◌then◌else◌, [], is_digit, inc32, ◌>>=◌,
}

pub data Sound : Type 0 where
  prompt : Sound
  digit : ℕ → Sound

-- `handles` has the first `queue_len` entries of the array. `opened` and `closed` are the calls of the
-- platform, newest first.
pub record Announce : Type 0 where
  pub registered : Bool
  pub active : Bool
  pub handles : List (Option ℕ)
  pub queue_pos : ℕ
  pub generation : ℕ
  pub opened : List ℕ
  pub closed : List ℕ

abbrev pub max_queue : ℕ
max_queue = 17

abbrev pub unused : Announce
unused = record {
  registered = false;
  active = false;
  handles = [];
  queue_pos = 0;
  generation = 0;
  opened = [];
  closed = [];
}

-- `locked` and `started` are whether the mutex is created and the implementation initialises.
unfoldable pub announce_init : Bool → Bool → Bool → Announce → Bool × Announce
announce_init registered locked started a =
    if a.active
    then (true, a)
    else if not registered
    then (true, record a { registered = false })
    else if not locked || not started
    then (false, record a { registered = true })
    else (true, record a { registered = true; active = true })

-- The handles that are not null.
unfoldable pub live : List (Option ℕ) → List ℕ
live [] = []
live (none ∷ hs) = live hs
live (some h ∷ hs) = h ∷ live hs

unfoldable pub close_queued_sounds : Announce → Announce
close_queued_sounds a = record a {
  handles = [];
  queue_pos = 0;
  closed = live a.handles ++ a.closed;
}

unfoldable pub announce_deinit : Announce → Announce
announce_deinit a = if not a.active then a else record (close_queued_sounds a) { active = false }

-- The digits of the code, with `n` sounds listed already.
unfoldable pub digit_sounds : ℕ → Text → List Sound
digit_sounds n [] = []
digit_sounds n (c ∷ cs) =
    let skipped = digit_sounds n cs in
    let later = digit_sounds (n + 1) cs in
    if not (is_digit c) then skipped else if leb max_queue n then [] else digit (c - b'0') ∷ later

-- A digit whose sound does not open is left out.
unfoldable pub open_digits : (ℕ → Sound → Option ℕ) → ℕ → List Sound → List ℕ
open_digits open_sound i [] = []
open_digits open_sound i (s ∷ ss) =
    let later = open_digits open_sound (i + 1) ss in
    elim (open_sound i s) [ none ↦ later | some h ↦ h ∷ later ]

-- A null code has no digits.
abbrev pub code_text : Option Text → Text
code_text none = []
code_text (some t) = t

unfoldable pub publish : List ℕ → Announce → Announce
publish queue a = record (close_queued_sounds a) {
  handles = map some queue;
  queue_pos = 0;
  generation = inc32 a.generation;
  opened = queue ++ a.opened;
}

-- The call with the answer to opening the prompt.
unfoldable pub play_opened : (ℕ → Sound → Option ℕ) → Text → Announce → Option ℕ → Bool × Announce
play_opened open_sound code a none = (false, a)
play_opened open_sound code a (some h) =
    (true, publish (h ∷ open_digits open_sound 1 (digit_sounds 1 code)) a)

unfoldable pub play_pair_code : (ℕ → Sound → Option ℕ) → Option Text → Announce → Bool × Announce
play_pair_code open_sound code a =
    if not a.registered || not a.active
    then (false, a)
    else play_opened open_sound (code_text code) a (open_sound 0 prompt)

unfoldable pub announce_stop : Announce → Announce
announce_stop a =
    if not a.active then a else record (close_queued_sounds a) { generation = inc32 a.generation }

unfoldable pub is_active : Announce → Bool
is_active a = a.active && ltb a.queue_pos (length a.handles)

unfoldable pub get_generation : Announce → ℕ
get_generation a = if a.active then a.generation else 0

-- `ops->close` of the sound at `queue_pos`, which is set to null and passed.
unfoldable pub null_at : ℕ → List (Option ℕ) → List (Option ℕ)
null_at i [] = []
null_at zero (h ∷ hs) = none ∷ hs
null_at (suc i) (h ∷ hs) = h ∷ null_at i hs

unfoldable pub advance : Announce → Announce
advance a = record a {
  handles = null_at a.queue_pos a.handles;
  queue_pos = a.queue_pos + 1;
  closed = live (get_or a.handles a.queue_pos none ∷ []) ++ a.closed;
}

-- A 16-bit sample of one channel, low byte first.
abbrev pub Frame : Type 0
Frame = ℕ × ℕ

-- The rest of the loop, with `room` frames left in `dst`: the frames read, or `none` where a call delivers
-- more than there is room for. No frames are the end of a sound or an error. Every round takes room or
-- passes a sound.
unfoldable pub read_rounds :
    ℕ → (ℕ → List Frame) → ℕ → ℕ → Announce → Option (List Frame) × Announce
read_rounds zero deliver i room a = (some [], a)
read_rounds (suc fuel) deliver i room a =
    if room == 0 || leb (length a.handles) a.queue_pos
    then (some [], a)
    else if ltb room (length (deliver i))
    then (none, a)
    else if length (deliver i) == 0
    then read_rounds fuel deliver (i + 1) room (advance a)
    else (let (later, b) = read_rounds fuel deliver (i + 1) (room - length (deliver i)) a in
        (later >>= λ fs. some (deliver i ++ fs), b))

-- The frames in `dst` and the generation; `total` is 0 where a call delivers too many.
unfoldable pub read_pcm : (ℕ → List Frame) → ℕ → Announce → List Frame × ℕ × Announce
read_pcm deliver max_frames a =
    if max_frames == 0 || not a.registered || not a.active
    then ([], 0, a)
    else (let (got, b) = read_rounds (max_frames + length a.handles + 1) deliver 0 max_frames a in
        (elim got [ none ↦ [] | some fs ↦ fs ], a.generation, b))
