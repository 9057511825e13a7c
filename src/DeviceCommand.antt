-- ===== src/DeviceCommand.antt =====
-- src/core/mybot_device_command.c: the volume commands that a session may carry.
-- The nodes of the JSON library are as its header declares them; a string node has its text, a number
-- node the integer that its double equals, or `none`, and a node that is a null pointer is `none`.
pub mod Fields
pub mod Accept
pub mod Tests
use mybot.Common.{
  ◌==◌, ◌||◌, not, ◌&&◌, length, [], zero, ◌∷◌, suc, leb, codes, text_eq, ◌>>=◌, map, if◌then◌else◌,
  ℤ, Option, Text, List, Bool, ℕ, none, some, true, false, pos, negsuc,
}

mutual
  pub data Json : Type 0 where
    null : Json
    boolean : Bool → Json
    number : Option ℤ → Json
    string : Text → Json
    array : Members → Json
    object : Members → Json

  pub data Members : Type 0 where
    end : Members
    member : Option Text → Json → Members → Members

-- A name that is looked for, with the node that has been found.
abbrev pub Slot : Type 0
Slot = Text × Option Json

abbrev pub id_capacity : ℕ
id_capacity = 128

-- One round of the loop: the name must be known and not yet seen.
unfoldable pub place : Text → Json → List Slot → Option (List Slot)
place key value [] = none
place key value ((name, found) ∷ slots) =
    let later = place key value slots in
    if text_eq key name
    then elim found [ none ↦ some ((name, some value) ∷ slots) | some old ↦ none ]
    else (later >>= λ rest. some ((name, found) ∷ rest))

unfoldable pub read_members : Members → List Slot → Option (List Slot)
read_members end slots = some slots
read_members (member none value rest) slots = none
read_members (member (some key) value rest) slots =
    place key value slots >>= λ next. read_members rest next

-- Whether the first `required` names have been seen.
unfoldable pub all_seen : ℕ → List Slot → Bool
all_seen zero slots = true
all_seen (suc required) [] = false
all_seen (suc required) ((name, none) ∷ slots) = false
all_seen (suc required) ((name, some value) ∷ slots) = all_seen required slots

unfoldable pub read_fields : List Text → ℕ → Option Json → Option (List Slot)
read_fields names required (some (object members)) =
    read_members members (map (λ name. (name, none)) names) >>= λ slots.
    if all_seen required slots then some slots else none
read_fields names required none = none
read_fields names required (some null) = none
read_fields names required (some (boolean b)) = none
read_fields names required (some (number n)) = none
read_fields names required (some (string t)) = none
read_fields names required (some (array members)) = none

-- `fields[i]`
unfoldable pub field_at : ℕ → List Slot → Option Json
field_at i [] = none
field_at zero ((name, found) ∷ slots) = found
field_at (suc i) (slot ∷ slots) = field_at i slots

-- `mybot_json_get_string`
abbrev pub get_string : Option Json → Option Text
get_string (some (string t)) = some t
get_string none = none
get_string (some null) = none
get_string (some (boolean b)) = none
get_string (some (number n)) = none
get_string (some (array members)) = none
get_string (some (object members)) = none

unfoldable pub is_string : Option Json → Text → Bool
is_string value expected = elim (get_string value) [ none ↦ false | some t ↦ text_eq t expected ]

unfoldable pub read_id : Option Json → Option Text
read_id value = elim (get_string value) [
  | none ↦ none
  | some t ↦ if length t == 0 || leb id_capacity (length t) then none else some t
]

abbrev pub int_leb : ℤ → ℤ → Bool
int_leb (pos m) (pos n) = leb m n
int_leb (pos m) (negsuc n) = false
int_leb (negsuc m) (pos n) = true
int_leb (negsuc m) (negsuc n) = leb n m

unfoldable pub read_integer : Option Json → ℤ → ℤ → Option ℤ
read_integer (some (number (some n))) minimum maximum =
    if int_leb minimum n && int_leb n maximum then some n else none
read_integer (some (number none)) minimum maximum = none
read_integer none minimum maximum = none
read_integer (some null) minimum maximum = none
read_integer (some (boolean b)) minimum maximum = none
read_integer (some (string t)) minimum maximum = none
read_integer (some (array members)) minimum maximum = none
read_integer (some (object members)) minimum maximum = none

pub data CommandType : Type 0 where
  set_volume adjust_volume : CommandType

pub record DeviceCommand : Type 0 where
  pub type_of : CommandType
  pub message_id : Text
  pub command_id : Text
  pub conversation_id : Text
  pub value : ℤ

abbrev pub root_names : List Text
root_names =
    codes "type"
    ∷ codes "schema"
    ∷ codes "version"
    ∷ codes "message_id"
    ∷ codes "command_id"
    ∷ codes "conversation_id"
    ∷ codes "command"
    ∷ codes "issued_at"
    ∷ codes "expires_at"
    ∷ []

abbrev pub command_names : List Text
command_names = codes "type" ∷ codes "name" ∷ codes "params" ∷ []

-- The parameter's name and its minimum.
abbrev pub parameter_of : CommandType → Text × ℤ
parameter_of set_volume = (codes "level", pos 0)
parameter_of adjust_volume = (codes "delta", negsuc 99)

unfoldable pub read_type : Option Json → Option CommandType
read_type value =
    if is_string value (codes "audio.set_volume")
    then some set_volume
    else if is_string value (codes "audio.adjust_volume")
    then some adjust_volume
    else none

unfoldable pub read_parameter : CommandType → Option Json → Option ℤ
read_parameter t params =
    let (name, minimum) = parameter_of t in
    read_fields (name ∷ []) 1 params >>= λ slots. read_integer (field_at 0 slots) minimum (pos 100)

unfoldable pub read_action : Option Json → Option (CommandType × ℤ)
read_action action = read_fields command_names 3 action >>= λ slots.
    if not (is_string (field_at 0 slots) (codes "action"))
    then none
    else (read_type (field_at 1 slots) >>= λ t.
        read_parameter t (field_at 2 slots) >>= λ value. some (t, value))

unfoldable pub command_parse : Option Json → Option DeviceCommand
command_parse root = read_fields root_names 7 root >>= λ slots.
    if not (is_string (field_at 0 slots) (codes "device_command"))
      || not (is_string (field_at 1 slots) (codes "botstation.device-command"))
    then none
    else (read_integer (field_at 2 slots) (pos 1) (pos 1) >>= λ version.
        read_id (field_at 3 slots) >>= λ message. read_id (field_at 4 slots) >>= λ command.
        read_id (field_at 5 slots) >>= λ conversation. read_action (field_at 6 slots) >>= λ action.
        some (record {
          type_of = action.0;
          message_id = message;
          command_id = command;
          conversation_id = conversation;
          value = action.1;
        }))
