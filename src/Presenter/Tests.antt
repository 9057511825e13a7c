-- ===== src/Presenter/Tests.antt =====
-- Calls of the presenter at concrete inputs.
use mybot.Common.{codes, some, [], ◌∷◌, true, false, refl, List}
use mybot.Presenter.{no_indicators, Presenter, in_conversation, listening, speaking}
use mybot.Presenter.Shown.{
  run-Consistent, run, Call, Consistent, exclusive, init, screen, vp, server, code,
}

abbrev dark : Presenter
dark = record { lcd_active = false; active = false; indicators = no_indicators; shown = [] }

dark-Consistent : Consistent dark
unfolding exclusive
dark-Consistent = record { one = refl; all = tt }

abbrev shows : List Call
shows =
    init true true
    ∷ code (some (codes "4711"))
    ∷ vp true
    ∷ server listening true
    ∷ server speaking true
    ∷ screen in_conversation
    ∷ []

run-Consistent_example : Consistent (run shows dark)
run-Consistent_example = run-Consistent shows dark dark-Consistent
