-- ===== src/Rtm/Queueing.antt =====
-- A command reaches the queue only from a well-formed message.
use mybot.DeviceCommand.Accept.{command_parse-IsCommand, guarded, IsCommand}
use mybot.Rtm.{Runtime, Event}
use mybot.Rtm.Envelope.{Envelope, envelope_lem}
use mybot.Common.{
  ltb, ◌==◌, Bool-cases, if◌then◌else◌, ◌≤◌, length, sym, ap, ◌∙◌, ◌<◌, subst, codes, not, >>=_some,
  Option-cases, ◌||◌, refl, arith, is_empty, ◌≡◌, ℕ, Bool, Option, Text, none, some, true, false,
  inl, inr,
}
use mybot.DeviceCommand.{
  DeviceCommand, is_string, Members, command_parse, Json, null, boolean, number, string, array,
  object,
}
use mybot.Rtm.Messages.{
  dispatch, json_get_exact_object_item, contains_zero, message_max_bytes,
  process_application_rtm_data, envelope_slots, read_envelope, rtm_json_contains_nul,
  rtm_data_get_lcd_indicator, channel_text, queue_lcd_indicator, find_indicator,
  queue_device_command, envelope_content, parse_message_user_content, Queued, nothing,
  device_command, lcd_indicator,
}

-- `e` stands for a command that `parse_json` reads from the content of the message `bytes`.
pub record FromContent (parse_json : Text → Option Json) (bytes : Text) (channel : Option Text)
    (sender : Text) (r : Runtime) (e : Event) : Type 0 where
  pub outer : Members
  pub read : parse_json bytes ≡ some (object outer)
  pub plain_bytes : rtm_json_contains_nul bytes ≡ false
  pub content : Text
  pub envelope : Envelope outer content
  pub plain : (is_empty content || rtm_json_contains_nul content) ≡ false
  pub members : Members
  pub parsed : parse_json content ≡ some (object members)
  pub is_command : IsCommand members e.command
  pub same_sender : e.sender ≡ sender
  pub same_channel : e.channel ≡ channel_text channel
  pub current : e.generation ≡ r.conversation_generation

abbrev event_of : Queued → Event → Event
event_of nothing d = d
event_of (device_command e) d = e
event_of (lcd_indicator i) d = d

queued_command :
    (channel : Option Text) (sender : Text) (root : Json) (g : ℕ) (e : Event)
    → queue_device_command true channel sender root g ≡ device_command e
    → (command_parse (some root) ≡ some e.command)
      × (e.sender ≡ sender)
      × (e.channel ≡ channel_text channel)
      × (e.generation ≡ g)
unfolding queue_device_command
queued_command channel sender root g e h = parsed (command_parse (some root)) refl
  where
    parsed :
        (o : Option DeviceCommand)
        → command_parse (some root) ≡ o
        → (command_parse (some root) ≡ some e.command)
          × (e.sender ≡ sender)
          × (e.channel ≡ channel_text channel)
          × (e.generation ≡ g)
    parsed none p = absurd (ground (arith, p, h))
    parsed (some command) p =
        let built : Event = record {
          generation = g;
          sender = sender;
          channel = channel_text channel;
          command = command;
        } in
        let same : device_command built ≡ device_command e = ground (arith, p, h) in
        let eq : built ≡ e = ap (λ q. event_of q e) same in
        (
          p ∙ ap (λ x. some x.command) eq,
          sym (ap (λ x. x.sender) eq),
          sym (ap (λ x. x.channel) eq),
          sym (ap (λ x. x.generation) eq),
        )

allocated_lem :
    (allocated : Bool) (channel : Option Text) (sender : Text) (root : Json) (g : ℕ) (e : Event)
    → queue_device_command allocated channel sender root g ≡ device_command e
    → allocated ≡ true
unfolding queue_device_command
allocated_lem true channel sender root g e h = refl
allocated_lem false channel sender root g e h = absurd (ground (arith, h))

user_content :
    (parse_json : Text → Option Json) (root : Option Json) (content_root : Json)
    → parse_message_user_content parse_json root ≡ some content_root
    → (outer : Members) × (content : Text) × (root ≡ some (object outer))
      × Envelope outer content
      × (parse_json content ≡ some content_root)
      × ((is_empty content || rtm_json_contains_nul content) ≡ false)
unfolding parse_message_user_content
user_content parse_json (some (object outer)) content_root h =
    let (slots, s, rest) = >>=_some (read_envelope outer envelope_slots) h in
    let (content, c, parsed) = >>=_some (envelope_content slots) rest in
    let (envelope, plain) = envelope_lem outer slots content s c in
    (outer, content, refl, envelope, parsed, plain)
user_content parse_json none content_root h = absurd (ground (arith, h))
user_content parse_json (some null) content_root h = absurd (ground (arith, h))
user_content parse_json (some (boolean b)) content_root h = absurd (ground (arith, h))
user_content parse_json (some (number n)) content_root h = absurd (ground (arith, h))
user_content parse_json (some (string t)) content_root h = absurd (ground (arith, h))
user_content parse_json (some (array ms)) content_root h = absurd (ground (arith, h))

no_command :
    (channel : Option Text) (sender : Text) (root : Option Json) (e : Event)
    → find_indicator channel sender root ≡ device_command e
    → ⊥
unfolding find_indicator queue_lcd_indicator
no_command none sender root e h = ground (arith, h)
no_command (some channel) sender root e h = elim (Option-cases (rtm_data_get_lcd_indicator root)) [
  | inl p ↦ ground (arith, h, p)
  | inr (found, p) ↦ ground (arith, h, p)
]

-- The message's own JSON, of which `root` is the parse unless the text has an escaped NUL.
root_lem :
    (parse_json : Text → Option Json) (bytes : Text) (outer : Members)
    → (if rtm_json_contains_nul bytes then none else parse_json bytes) ≡ some (object outer)
    → (rtm_json_contains_nul bytes ≡ false) × (parse_json bytes ≡ some (object outer))
root_lem parse_json bytes outer h = guarded (rtm_json_contains_nul bytes) h

dispatched :
    (parse_json : Text → Option Json) (allocated : Bool) (channel : Option Text) (sender : Text)
    (root : Option Json) (r : Runtime) (e : Event)
    → dispatch parse_json allocated channel sender root r ≡ device_command e
    → (content_root : Json) × (parse_message_user_content parse_json root ≡ some content_root)
      × (queue_device_command allocated channel sender content_root r.conversation_generation
          ≡ device_command e)
unfolding dispatch
dispatched parse_json allocated channel sender root r e h =
    elim (Bool-cases
      (is_string (json_get_exact_object_item root (codes "object")) (codes "message.user"))) [
        | inl t ↦ envelope (parse_message_user_content parse_json root) refl t
        | inr t ↦ absurd (no_command channel sender root e (ground (arith, t, h)))
      ]
  where
    envelope :
        (o : Option Json)
        → parse_message_user_content parse_json root ≡ o
        → is_string (json_get_exact_object_item root (codes "object")) (codes "message.user") ≡ true
        → (content_root : Json) × (parse_message_user_content parse_json root ≡ some content_root)
          × (queue_device_command allocated channel sender content_root r.conversation_generation
              ≡ device_command e)
    envelope none p t = absurd (ground (arith, p, t, h))
    envelope (some content_root) p t = (content_root, p, ground (arith, p, t, h))

dispatch_lem :
    (parse_json : Text → Option Json) (allocated : Bool) (channel : Option Text)
    (sender bytes : Text) (r : Runtime) (e : Event)
    → dispatch parse_json allocated channel sender
        (if rtm_json_contains_nul bytes then none else parse_json bytes)
        r
      ≡ device_command e
    → FromContent parse_json bytes channel sender r e
dispatch_lem parse_json allocated channel sender bytes r e h =
    let root = if rtm_json_contains_nul bytes then none else parse_json bytes in
    let (content_root, p, queued) = dispatched parse_json allocated channel sender root r e h in
    let (outer, content, is_outer, envelope, parsed, plain) =
      user_content parse_json root content_root p in
    let (plain_bytes, read) = root_lem parse_json bytes outer is_outer in
    let at =
      allocated_lem allocated channel sender content_root r.conversation_generation e queued in
    let (accepted, from, on, current) =
      queued_command channel sender content_root r.conversation_generation e (
        subst
          (λ a.
            queue_device_command a channel sender content_root r.conversation_generation
            ≡ device_command e)
          at queued) in
    let (members, node, good) = command_parse-IsCommand (some content_root) e.command accepted in
    record {
      outer = outer;
      read = read;
      plain_bytes = plain_bytes;
      content = content;
      envelope = envelope;
      plain = plain;
      members = members;
      parsed = parsed ∙ node;
      is_command = good;
      same_sender = from;
      same_channel = on;
      current = current;
    }

passed_guard :
    (test : Bool) (q : Queued) (e : Event)
    → (if test then nothing else q) ≡ device_command e
    → (test ≡ false) × (q ≡ device_command e)
passed_guard true q e h = absurd (ground (arith, h))
passed_guard false q e h = (refl, h)

-- A command is queued only by a message of 1 to 1024 bytes, without a zero, that passes the test for an
-- escaped NUL and parses to an object, in which object is message.user, data_type is message and content is
-- a text, each of them once. That text is not empty, passes the test too and parses to an object that is the
-- command; the event has the sender and the channel of the message and the generation of the conversation.
pub queued-FromContent :
    (parse_json : Text → Option Json) (copied allocated : Bool) (channel : Option Text)
    (sender bytes : Text) (r : Runtime) (e : Event)
    → process_application_rtm_data parse_json copied allocated channel sender bytes r
      ≡ device_command e
    → FromContent parse_json bytes channel sender r e
      × (0 < length bytes)
      × (length bytes ≤ message_max_bytes)
      × (contains_zero bytes ≡ false)
unfolding process_application_rtm_data
queued-FromContent parse_json copied allocated channel sender bytes r e h =
    let root = if rtm_json_contains_nul bytes then none else parse_json bytes in
    let (t, q) =
      passed_guard
        (length bytes == 0
          || ltb message_max_bytes (length bytes)
          || contains_zero bytes
          || not copied)
        (dispatch parse_json allocated channel sender root r) e h in
    (
      dispatch_lem parse_json allocated channel sender bytes r e q,
      ground (arith, t),
      ground (arith, t),
      ground (arith, t),
    )
