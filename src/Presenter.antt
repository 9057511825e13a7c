-- ===== src/Presenter.antt =====
-- src/core/mybot_presenter.c over src/platform/mybot_lcd.c: what the screen shows. The bits of an
-- indicator mask are Booleans. The results of rendering are only logged, and left out.
pub mod Shown
mod Tests
use mybot.StateModel.{AppState, get_view}
use mybot.Common.{
  length, ◌∷◌, ◌==◌, ◌||◌, [], leb, ◌&&◌, List, not, is_empty, ℕ, if◌then◌else◌, Option, Text, Bool,
  none, some, true, false,
}

pub data Indicator : Type 0 where
  vp_registered listening thinking speaking other : Indicator

-- `MYBOT_LCD_INDICATOR_*`
pub record Indicators : Type 0 where
  pub has_vp_registered : Bool
  pub has_listening : Bool
  pub has_thinking : Bool
  pub has_speaking : Bool

abbrev pub no_indicators : Indicators
no_indicators = record {
  has_vp_registered = false;
  has_listening = false;
  has_thinking = false;
  has_speaking = false;
}

pub data Screen : Type 0 where
  starting wifi_provisioning wifi_disconnected starting_services pairing pair_code ready
        in_conversation failed stopping :
      Screen

abbrev pub is_conversation : Screen → Bool
is_conversation in_conversation = true
is_conversation starting = false
is_conversation wifi_provisioning = false
is_conversation wifi_disconnected = false
is_conversation starting_services = false
is_conversation pairing = false
is_conversation pair_code = false
is_conversation ready = false
is_conversation failed = false
is_conversation stopping = false

abbrev pub is_pair_code : Screen → Bool
is_pair_code pair_code = true
is_pair_code starting = false
is_pair_code wifi_provisioning = false
is_pair_code wifi_disconnected = false
is_pair_code starting_services = false
is_pair_code pairing = false
is_pair_code in_conversation = false
is_pair_code ready = false
is_pair_code failed = false
is_pair_code stopping = false

pub record Content : Type 0 where
  pub screen : Screen
  pub code : Text
  pub indicators : Indicators

-- MYBOT_LCD_PAIR_CODE_CAPACITY
abbrev pub pair_code_capacity : ℕ
pair_code_capacity = 16

-- `mybot_presenter_t` with its `mybot_lcd_t`; `shown` is what was rendered, newest first.
pub record Presenter : Type 0 where
  pub lcd_active : Bool
  pub active : Bool
  pub indicators : Indicators
  pub shown : List Content

-- `registered` is whether the platform has a screen, `started` whether it initialises.
unfoldable pub presenter_init : Bool → Bool → Presenter → Bool × Presenter
presenter_init registered started p =
    let q = record p { indicators = no_indicators } in
    if not registered
    then (true, q)
    else if p.lcd_active || not started
    then (false, q)
    else (true, record q { lcd_active = true; active = true })

unfoldable pub presenter_deinit : Presenter → Presenter
presenter_deinit p =
    if p.active
    then record p { lcd_active = false; active = false; indicators = no_indicators }
    else record p { indicators = no_indicators }

unfoldable pub render_content : Content → Presenter → Presenter
render_content content p =
    if is_pair_code content.screen && is_empty content.code || not p.lcd_active
    then p
    else record p { shown = content ∷ p.shown }

unfoldable pub show_screen : Screen → Presenter → Presenter
show_screen screen p =
    let q = if is_conversation screen then p else record p { indicators = no_indicators } in
    if not q.active
    then q
    else render_content
        (record {
          screen = screen;
          code = [];
          indicators = if is_conversation screen then q.indicators else no_indicators;
        })
        q

-- `mybot_lcd_show_pair_code`
unfoldable pub lcd_show_pair_code : Option Text → Presenter → Presenter
lcd_show_pair_code none p = p
lcd_show_pair_code (some code) p =
    if is_empty code || leb pair_code_capacity (length code)
    then p
    else render_content (record { screen = pair_code; code = code; indicators = no_indicators }) p

unfoldable pub show_pair_code : Option Text → Presenter → Presenter
show_pair_code code p =
    let q = record p { indicators = no_indicators } in
    if q.active then lcd_show_pair_code code q else q

unfoldable pub set_vp_registered : Bool → Presenter → Presenter
set_vp_registered registered p = record p {
  indicators = record p.indicators { has_vp_registered = registered };
}

unfoldable pub clear_server_indicators : Presenter → Presenter
clear_server_indicators p = record p {
  indicators = record p.indicators {
    has_listening = false;
    has_thinking = false;
    has_speaking = false;
  };
}

-- `indicators | indicator` and `indicators & ~indicator`, for an indicator of the server's state.
abbrev pub set_indicator : Indicator → Bool → Indicators → Indicators
set_indicator vp_registered on is = record is { has_vp_registered = on }
set_indicator listening on is = record is { has_listening = on }
set_indicator thinking on is = record is { has_thinking = on }
set_indicator speaking on is = record is { has_speaking = on }
set_indicator other on is = is

abbrev pub is_server_state : Indicator → Bool
is_server_state listening = true
is_server_state thinking = true
is_server_state speaking = true
is_server_state vp_registered = false
is_server_state other = false

unfoldable pub update_server_indicator : Indicator → Bool → Presenter → Presenter
update_server_indicator indicator on p =
    if not (is_server_state indicator)
    then p
    else if on
    then (let q = clear_server_indicators p in
        record q { indicators = set_indicator indicator true q.indicators })
    else record p { indicators = set_indicator indicator false p.indicators }

-- The device state is its code.
unfoldable pub app_state_matches_device_state : ℕ → AppState → Bool
app_state_matches_device_state d AppState.pairing = leb d 2
app_state_matches_device_state d AppState.ready = d == 3
app_state_matches_device_state d AppState.in_conversation = d == 4
app_state_matches_device_state d AppState.stopped = false
app_state_matches_device_state d AppState.wifi_provisioning = false
app_state_matches_device_state d AppState.starting_services = false
app_state_matches_device_state d AppState.wifi_disconnected = false
app_state_matches_device_state d AppState.failed = false
app_state_matches_device_state d AppState.stopping = false

-- The word of the state model.
unfoldable pub render_state : ℕ → Presenter → Presenter
render_state word p =
    let view = get_view word in
    if not (app_state_matches_device_state view.device_state view.app_state)
    then p
    else if leb view.device_state 1
    then show_screen pairing (record p { indicators = no_indicators })
    else if view.device_state == 2
    then record p { indicators = no_indicators }
    else if view.device_state == 3
    then show_screen ready (record p { indicators = no_indicators })
    else show_screen in_conversation p
