-- ===== src/Announce/Tests.antt =====
-- A pair code that is played, and read to its end.
use mybot.Announce.{
  null_at, prompt, digit_sounds, open_digits, advance, close_queued_sounds, publish, digit,
  read_rounds, live, play_opened, play_pair_code, announce_init, Frame, unused, announce_deinit,
  read_pcm, Sound,
}
use mybot.Common.{
  zero, codes, suc, ◌*◌, refl, none, [], ◌==◌, if◌then◌else◌, ◌∷◌, true, ◌+◌, some, ◌≡◌, Option,
  List, ℕ,
}
use mybot.Announce.Handles.{
  read, handles_balanced, play, announce_deinit-closed, init, Call, run, count,
}

abbrev opens : ℕ → Sound → Option ℕ
opens i prompt = some 100
opens i (digit d) = if d == 7 then none else some (d + 10 * i)

abbrev delivers : ℕ → List Frame
delivers zero = (1, 0) ∷ (2, 0) ∷ []
delivers (suc zero) = []
delivers (suc (suc zero)) = (3, 0) ∷ []
delivers (suc (suc (suc i))) = []

abbrev code_calls : List Call
code_calls = init true true true ∷ play opens (some (codes "1-72")) ∷ read delivers 3 ∷ []

handles_balanced_example :
    count 100 (run unused code_calls).opened
    ≡ count 100 (run unused code_calls).closed + count 100 (live (run unused code_calls).handles)
handles_balanced_example = handles_balanced code_calls 100

active : (run unused code_calls).active ≡ true
unfolding run announce_init play_pair_code play_opened read_pcm read_rounds publish
    close_queued_sounds advance open_digits digit_sounds null_at
active = refl

announce_deinit-closed_example :
    count 11 (announce_deinit (run unused code_calls)).opened
    ≡ count 11 (announce_deinit (run unused code_calls)).closed
announce_deinit-closed_example = announce_deinit-closed code_calls 11 active

-- The prompt is closed, the 7 is left out, and the sounds of 1 and 2 follow.
queue_test : live (run unused code_calls).handles ≡ 11 ∷ 32 ∷ []
unfolding run announce_init play_pair_code play_opened read_pcm read_rounds publish
    close_queued_sounds advance live open_digits digit_sounds null_at
queue_test = refl
