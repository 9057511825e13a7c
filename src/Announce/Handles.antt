-- ===== src/Announce/Handles.antt =====
-- Every sound that opens is closed once: what is opened is what is closed and what the queue holds.
use mybot.Announce.{
  code_text, publish, play_opened, Announce, Sound, live, close_queued_sounds, announce_deinit,
  play_pair_code, announce_stop, null_at, advance, read_rounds, read_pcm, Frame, unused,
  announce_init, open_digits, digit_sounds,
}
use mybot.Common.{
  ◌-◌, ltb, leb, zero, length, refl, ap, [], Text, none, if◌then◌else◌, ◌||◌, Option, ◌+◌, some,
  ◌∷◌, ◌==◌, suc, not, get_or, true, Bool, List, ℕ, ◌≡◌, if-keep, arith, map, ◌++◌,
}

-- How often a handle occurs.
unfoldable pub count : ℕ → List ℕ → ℕ
count h [] = 0
count h (x ∷ xs) = if h == x then count h xs + 1 else count h xs

abbrev pub Balanced : Announce → Type 0
Balanced a = (h : ℕ) → count h a.opened ≡ count h a.closed + count h (live a.handles)

pub count-append : (h : ℕ) (xs ys : List ℕ) → count h (xs ++ ys) ≡ count h xs + count h ys
unfolding count
count-append h [] ys = omega arith
count-append h (x ∷ xs) ys = ground (arith, count-append h xs ys)

live-map : (xs : List ℕ) → live (map some xs) ≡ xs
unfolding live
live-map [] = refl
live-map (x ∷ xs) = ap (λ t. x ∷ t) (live-map xs)

close-Balanced : (a : Announce) → Balanced a → Balanced (close_queued_sounds a)
unfolding close_queued_sounds live count
close-Balanced a v h = omega (arith, v h, count-append h (live a.handles) a.closed)

deinit-Balanced : (a : Announce) → Balanced a → Balanced (announce_deinit a)
unfolding announce_deinit
deinit-Balanced a v = if-keep Balanced (not a.active) (λ t. v) (λ t. close-Balanced a v)

stop-Balanced : (a : Announce) → Balanced a → Balanced (announce_stop a)
unfolding announce_stop
stop-Balanced a v = if-keep Balanced (not a.active) (λ t. v) (λ t. close-Balanced a v)

init-Balanced :
    (registered locked started : Bool) (a : Announce)
    → Balanced a
    → Balanced (announce_init registered locked started a).1
unfolding announce_init
init-Balanced registered locked started a v h = ground (arith, v h)

publish-Balanced : (queue : List ℕ) (a : Announce) → Balanced a → Balanced (publish queue a)
unfolding publish close_queued_sounds
publish-Balanced queue a v h =
    rw (live-map queue)
      (omega (arith, v h, count-append h (live a.handles) a.closed, count-append h queue a.opened))

opened-Balanced :
    (open_sound : ℕ → Sound → Option ℕ) (code : Text) (a : Announce) (o : Option ℕ)
    → Balanced a
    → Balanced (play_opened open_sound code a o).1
unfolding play_opened
opened-Balanced open_sound code a none v = v
opened-Balanced open_sound code a (some h) v =
    publish-Balanced (h ∷ open_digits open_sound 1 (digit_sounds 1 code)) a v

pub play-Balanced :
    (open_sound : ℕ → Sound → Option ℕ) (code : Option Text) (a : Announce)
    → Balanced a
    → Balanced (play_pair_code open_sound code a).1
unfolding play_pair_code
play-Balanced open_sound code a v =
    if-keep (λ (r : Bool × Announce). Balanced r.1) (not a.registered || not a.active) (λ t. v)
      (λ t. opened-Balanced open_sound (code_text code) a (open_sound 0 Sound.prompt) v)

null_at-live :
    (h : ℕ) (i : ℕ) (hs : List (Option ℕ))
    → count h (live (null_at i hs)) + count h (live (get_or hs i none ∷ [])) ≡ count h (live hs)
unfolding null_at live count
null_at-live h i [] = refl
null_at-live h zero (none ∷ hs) = omega arith
null_at-live h zero (some x ∷ hs) = ground arith
null_at-live h (suc i) (none ∷ hs) = null_at-live h i hs
null_at-live h (suc i) (some x ∷ hs) = ground (arith, null_at-live h i hs)

advance-Balanced : (a : Announce) → Balanced a → Balanced (advance a)
unfolding advance
advance-Balanced a v h = omega (
  arith,
  v h,
  null_at-live h a.queue_pos a.handles,
  count-append h (live (get_or a.handles a.queue_pos none ∷ [])) a.closed,
)

rounds-Balanced :
    (fuel : ℕ) (deliver : ℕ → List Frame) (i room : ℕ) (a : Announce)
    → Balanced a
    → Balanced (read_rounds fuel deliver i room a).1
unfolding read_rounds
rounds-Balanced zero deliver i room a v = v
rounds-Balanced (suc fuel) deliver i room a v =
    if-keep (λ (r : Option (List Frame) × Announce). Balanced r.1)
      (room == 0 || leb (length a.handles) a.queue_pos) (λ t. v)
      (λ t.
        if-keep (λ (r : Option (List Frame) × Announce). Balanced r.1)
          (ltb room (length (deliver i))) (λ t. v)
          (λ t.
            if-keep (λ (r : Option (List Frame) × Announce). Balanced r.1) (length (deliver i) == 0)
              (λ t. rounds-Balanced fuel deliver (i + 1) room (advance a) (advance-Balanced a v))
              (λ t. rounds-Balanced fuel deliver (i + 1) (room - length (deliver i)) a v)))

pub read-Balanced :
    (deliver : ℕ → List Frame) (max_frames : ℕ) (a : Announce)
    → Balanced a
    → Balanced (read_pcm deliver max_frames a).2
unfolding read_pcm
read-Balanced deliver max_frames a v =
    if-keep (λ (r : List Frame × ℕ × Announce). Balanced r.2)
      (max_frames == 0 || not a.registered || not a.active) (λ t. v)
      (λ t. rounds-Balanced (max_frames + length a.handles + 1) deliver 0 max_frames a v)

start_lem : Balanced unused
unfolding live count
start_lem h = refl

torn_down :
    (a : Announce)
    → Balanced a
    → a.active ≡ true
    → (h : ℕ) → count h (announce_deinit a).opened ≡ count h (announce_deinit a).closed
unfolding announce_deinit close_queued_sounds
torn_down a v e h = rw e (omega (arith, v h, count-append h (live a.handles) a.closed))

pub data Call : Type 0 where
  init : Bool → Bool → Bool → Call
  play : (ℕ → Sound → Option ℕ) → Option Text → Call
  stop deinit : Call
  read : (ℕ → List Frame) → ℕ → Call

unfoldable pub run : Announce → List Call → Announce
run a [] = a
run a (init registered locked started ∷ cs) = run (announce_init registered locked started a).1 cs
run a (play open_sound code ∷ cs) = run (play_pair_code open_sound code a).1 cs
run a (stop ∷ cs) = run (announce_stop a) cs
run a (deinit ∷ cs) = run (announce_deinit a) cs
run a (read deliver max_frames ∷ cs) = run (read_pcm deliver max_frames a).2 cs

run-Balanced : (a : Announce) (cs : List Call) → Balanced a → Balanced (run a cs)
unfolding run
run-Balanced a [] v = v
run-Balanced a (init r l s ∷ cs) v =
    run-Balanced (announce_init r l s a).1 cs (init-Balanced r l s a v)
run-Balanced a (play o c ∷ cs) v = run-Balanced (play_pair_code o c a).1 cs (play-Balanced o c a v)
run-Balanced a (stop ∷ cs) v = run-Balanced (announce_stop a) cs (stop-Balanced a v)
run-Balanced a (deinit ∷ cs) v = run-Balanced (announce_deinit a) cs (deinit-Balanced a v)
run-Balanced a (read d m ∷ cs) v = run-Balanced (read_pcm d m a).2 cs (read-Balanced d m a v)

-- After any calls from the start, a handle has been opened as often as it has been closed and stands in
-- the queue.
pub handles_balanced :
    (cs : List Call) (h : ℕ)
    → count h (run unused cs).opened
      ≡ count h (run unused cs).closed + count h (live (run unused cs).handles)
handles_balanced cs h = run-Balanced unused cs start_lem h

-- After any calls from the start that leave an active queue, its tearing down closes each handle as often as
-- it was opened.
pub announce_deinit-closed :
    (cs : List Call) (h : ℕ)
    → (run unused cs).active ≡ true
    → count h (announce_deinit (run unused cs)).opened
      ≡ count h (announce_deinit (run unused cs)).closed
announce_deinit-closed cs h e = torn_down (run unused cs) (run-Balanced unused cs start_lem) e h
