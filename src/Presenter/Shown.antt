-- ===== src/Presenter/Shown.antt =====
-- What the screen shows is consistent.
use mybot.Presenter.{
  starting, wifi_provisioning, wifi_disconnected, starting_services, failed, stopping,
  pair_code_capacity, app_state_matches_device_state, is_pair_code, Indicator, get_view,
  no_indicators, clear_server_indicators, is_conversation, presenter_init, set_vp_registered,
  Content, Screen, render_state, render_content, presenter_deinit, show_pair_code, show_screen,
  Indicators, Presenter, lcd_show_pair_code, update_server_indicator, in_conversation, pair_code,
  pairing, ready, vp_registered, listening, thinking, speaking, other,
}
use mybot.Common.{
  length, ◌==◌, ltb, arith, refl, leb, ◌&&◌, All, [], if-keep, ℕ, Option, ◌∷◌, ◌||◌, not, ◌≡◌,
  is_empty, List, Text, Bool, true, false, none, some,
}

-- At most one indicator of the server's state.
unfoldable pub exclusive : Indicators → Bool
exclusive is =
    not (is.has_listening && is.has_thinking)
    && not (is.has_listening && is.has_speaking)
    && not (is.has_thinking && is.has_speaking)

abbrev pub any_indicator : Indicators → Bool
any_indicator is = is.has_vp_registered || is.has_listening || is.has_thinking || is.has_speaking

-- Indicators only in a conversation, at most one of the server's state, and on the screen of the pair code
-- a code that fits.
unfoldable pub consistent : Content → Bool
consistent c =
    (is_conversation c.screen || not (any_indicator c.indicators))
    && exclusive c.indicators
    && (not (is_pair_code c.screen)
        || not (is_empty c.code) && ltb (length c.code) pair_code_capacity)

pub record Consistent (p : Presenter) : Type 0 where
  pub one : exclusive p.indicators ≡ true
  pub all : All (λ c. consistent c ≡ true) p.shown

pub data Call : Type 0 where
  init : Bool → Bool → Call
  deinit : Call
  screen : Screen → Call
  code : Option Text → Call
  vp : Bool → Call
  server : Indicator → Bool → Call
  clear : Call
  state : ℕ → Call

unfoldable pub call : Call → Presenter → Presenter
call (init registered started) p = (presenter_init registered started p).1
call deinit p = presenter_deinit p
call (screen s) p = show_screen s p
call (code c) p = show_pair_code c p
call (vp on) p = set_vp_registered on p
call (server i on) p = update_server_indicator i on p
call clear p = clear_server_indicators p
call (state word) p = render_state word p

unfoldable pub run : List Call → Presenter → Presenter
run [] p = p
run (c ∷ cs) p = run cs (call c p)

cleared : {p : Presenter} → Consistent p → Consistent (record p { indicators = no_indicators })
unfolding exclusive
cleared v = record { one = refl; all = v.all }

render-Consistent :
    (c : Content) {p : Presenter}
    → consistent c ≡ true
    → Consistent p
    → Consistent (render_content c p)
unfolding render_content
render-Consistent c {p} h v =
    if-keep Consistent (is_pair_code c.screen && is_empty c.code || not p.lcd_active) (λ t. v)
      (λ t. record { one = v.one; all = (h, v.all) })

conversation_content :
    (is : Indicators)
    → exclusive is ≡ true
    → consistent (record { screen = in_conversation; code = []; indicators = is }) ≡ true
unfolding consistent exclusive
conversation_content is h = ground arith

show_in_conversation : {p : Presenter} → Consistent p → Consistent (show_screen in_conversation p)
unfolding show_screen
show_in_conversation {p} v =
    if-keep Consistent (not p.active) (λ t. v)
      (λ t.
        render-Consistent
          (record { screen = in_conversation; code = []; indicators = p.indicators })
          (conversation_content p.indicators v.one) v)

other_content :
    (s : Screen)
    → is_conversation s ≡ false
    → is_pair_code s ≡ false
    → consistent (record { screen = s; code = []; indicators = no_indicators }) ≡ true
unfolding consistent exclusive
other_content s e f = ground arith

show_other :
    (s : Screen) {p : Presenter}
    → is_conversation s ≡ false
    → is_pair_code s ≡ false
    → Consistent p
    → Consistent (show_screen s p)
unfolding show_screen
show_other s {p} e f v = rw e (
    if-keep Consistent (not p.active) (λ t. cleared v)
      (λ t.
        render-Consistent (record { screen = s; code = []; indicators = no_indicators })
          (other_content s e f) (cleared v)))

-- The screen of the pair code is not rendered without a code.
show_pair_screen : {p : Presenter} → Consistent p → Consistent (show_screen pair_code p)
unfolding show_screen render_content
show_pair_screen {p} v = if-keep Consistent (not p.active) (λ t. cleared v) (λ t. cleared v)

show_screen-Consistent : (s : Screen) {p : Presenter} → Consistent p → Consistent (show_screen s p)
show_screen-Consistent in_conversation v = show_in_conversation v
show_screen-Consistent pair_code v = show_pair_screen v
show_screen-Consistent starting v = show_other starting refl refl v
show_screen-Consistent wifi_provisioning v = show_other wifi_provisioning refl refl v
show_screen-Consistent wifi_disconnected v = show_other wifi_disconnected refl refl v
show_screen-Consistent starting_services v = show_other starting_services refl refl v
show_screen-Consistent pairing v = show_other pairing refl refl v
show_screen-Consistent ready v = show_other ready refl refl v
show_screen-Consistent failed v = show_other failed refl refl v
show_screen-Consistent stopping v = show_other stopping refl refl v

pair_content :
    (c : Text)
    → (is_empty c || leb pair_code_capacity (length c)) ≡ false
    → consistent (record { screen = pair_code; code = c; indicators = no_indicators }) ≡ true
unfolding consistent exclusive
pair_content c e = ground arith

lcd_show_pair_code-Consistent :
    (given : Option Text) {p : Presenter} → Consistent p → Consistent (lcd_show_pair_code given p)
unfolding lcd_show_pair_code
lcd_show_pair_code-Consistent none v = v
lcd_show_pair_code-Consistent (some c) {p} v =
    if-keep Consistent (is_empty c || leb pair_code_capacity (length c)) (λ t. v)
      (λ t.
        render-Consistent (record { screen = pair_code; code = c; indicators = no_indicators })
          (pair_content c t) v)

show_pair_code-Consistent :
    (given : Option Text) {p : Presenter} → Consistent p → Consistent (show_pair_code given p)
unfolding show_pair_code
show_pair_code-Consistent given {p} v =
    if-keep Consistent p.active (λ t. lcd_show_pair_code-Consistent given (cleared v))
      (λ t. cleared v)

update-Consistent :
    (i : Indicator) (on : Bool) {p : Presenter}
    → Consistent p
    → Consistent (update_server_indicator i on p)
unfolding update_server_indicator clear_server_indicators exclusive
update-Consistent vp_registered on v = v
update-Consistent other on v = v
update-Consistent listening true v = record { one = refl; all = v.all }
update-Consistent thinking true v = record { one = refl; all = v.all }
update-Consistent speaking true v = record { one = refl; all = v.all }
update-Consistent listening false v = record { one = ground (arith, v.one); all = v.all }
update-Consistent thinking false v = record { one = ground (arith, v.one); all = v.all }
update-Consistent speaking false v = record { one = ground (arith, v.one); all = v.all }

render_state-Consistent :
    (word : ℕ) {p : Presenter} → Consistent p → Consistent (render_state word p)
unfolding render_state
render_state-Consistent word {p} v =
    let view = get_view word in
    if-keep Consistent (not (app_state_matches_device_state view.device_state view.app_state))
      (λ t. v)
      (λ t.
        if-keep Consistent (leb view.device_state 1)
          (λ u. show_screen-Consistent pairing (cleared v))
          (λ u.
            if-keep Consistent (view.device_state == 2) (λ w. cleared v)
              (λ w.
                if-keep Consistent (view.device_state == 3)
                  (λ x. show_screen-Consistent ready (cleared v))
                  (λ x. show_screen-Consistent in_conversation v))))

init-Consistent :
    (registered started : Bool) {p : Presenter}
    → Consistent p
    → Consistent (presenter_init registered started p).1
unfolding presenter_init exclusive
init-Consistent registered started {p} v =
    if-keep (λ (r : Bool × Presenter). Consistent r.1) (not registered) (λ t. cleared v)
      (λ t.
        if-keep (λ (r : Bool × Presenter). Consistent r.1) (p.lcd_active || not started)
          (λ u. cleared v) (λ u. record { one = refl; all = v.all }))

deinit-Consistent : {p : Presenter} → Consistent p → Consistent (presenter_deinit p)
unfolding presenter_deinit exclusive
deinit-Consistent {p} v =
    if-keep Consistent p.active (λ t. record { one = refl; all = v.all }) (λ t. cleared v)

call-Consistent : (c : Call) {p : Presenter} → Consistent p → Consistent (call c p)
unfolding call set_vp_registered clear_server_indicators exclusive
call-Consistent (init registered started) v = init-Consistent registered started v
call-Consistent deinit v = deinit-Consistent v
call-Consistent (screen s) v = show_screen-Consistent s v
call-Consistent (code c) v = show_pair_code-Consistent c v
call-Consistent (vp on) v = record { one = v.one; all = v.all }
call-Consistent (server i on) v = update-Consistent i on v
call-Consistent clear v = record { one = refl; all = v.all }
call-Consistent (state word) v = render_state-Consistent word v

-- From a presenter in which this holds, after any calls at most one indicator of the server's state is set, and what was rendered carries
-- indicators only in a conversation, at most one of the server's state, and a pair code that fits.
pub run-Consistent : (cs : List Call) (p : Presenter) → Consistent p → Consistent (run cs p)
unfolding run
run-Consistent [] p v = v
run-Consistent (c ∷ cs) p v = run-Consistent cs (call c p) (call-Consistent c v)
