-- ===== src/DeviceCommand/Accept.antt =====
-- An accepted command is what its JSON says.
use mybot.DeviceCommand.Fields.{
  distinct_lem, Distinct, read_fields-Holds, Holds, values, found_values, only_known,
}
use mybot.DeviceCommand.{
  command_parse, read_action, field_at, read_fields, int_leb, root_names, parameter_of, id_capacity,
  Slot, command_names, Json, DeviceCommand, Members, read_id, read_integer, CommandType,
  read_parameter, read_type, is_string, null, boolean, number, string, array, object, set_volume,
  adjust_volume,
}
use mybot.Common.{
  text_eq, not, Bool, refl, leb, sym, inr, ◌||◌, inl, ◌==◌, subst, ◌&&◌, eq_of_text_eq,
  if◌then◌else◌, Bool-cases, ap, >>=_some, arith, ◌∙◌, [], ◌∷◌, ◌≡◌, length, Option, ℤ, codes, ◌<◌,
  Text, List, none, some, true, false, pos, negsuc,
}

abbrev pub type_name : CommandType → Text
type_name set_volume = codes "audio.set_volume"
type_name adjust_volume = codes "audio.adjust_volume"

abbrev pub IsId : Text → Type 0
IsId t = (0 < length t) × (length t < id_capacity)

-- `params` has the one parameter, in its range.
pub record IsParameter (t : CommandType) (params : Members) (value : ℤ) : Type 0 where
  pub only : only_known ((parameter_of t).0 ∷ []) params ≡ true
  pub given : values (parameter_of t).0 params ≡ number (some value) ∷ []
  pub in_range : (int_leb (parameter_of t).1 value && int_leb value (pos 100)) ≡ true

pub record IsAction (action : Members) (t : CommandType) (value : ℤ) : Type 0 where
  pub only : only_known command_names action ≡ true
  pub kind : values (codes "type") action ≡ string (codes "action") ∷ []
  pub name : values (codes "name") action ≡ string (type_name t) ∷ []
  pub params : Members
  pub has_params : values (codes "params") action ≡ object params ∷ []
  pub parameter : IsParameter t params value

-- `root` has each required field once, with the value that `c` has, and no unknown field.
pub record IsCommand (root : Members) (c : DeviceCommand) : Type 0 where
  pub only : only_known root_names root ≡ true
  pub kind : values (codes "type") root ≡ string (codes "device_command") ∷ []
  pub schema : values (codes "schema") root ≡ string (codes "botstation.device-command") ∷ []
  pub version : values (codes "version") root ≡ number (some (pos 1)) ∷ []
  pub message : values (codes "message_id") root ≡ string c.message_id ∷ []
  pub command : values (codes "command_id") root ≡ string c.command_id ∷ []
  pub conversation : values (codes "conversation_id") root ≡ string c.conversation_id ∷ []
  pub ids : IsId c.message_id × IsId c.command_id × IsId c.conversation_id
  pub action : Members
  pub has_action : values (codes "command") root ≡ object action ∷ []
  pub does : IsAction action c.type_of c.value

pub is_string_lem :
    (o : Option Json) (t : Text) → is_string o t ≡ true → found_values o ≡ string t ∷ []
unfolding is_string
is_string_lem none t e = absurd (ground (arith, e))
is_string_lem (some (string s)) t e = ap (λ u. string u ∷ []) (eq_of_text_eq s t e)
is_string_lem (some null) t e = absurd (ground (arith, e))
is_string_lem (some (boolean b)) t e = absurd (ground (arith, e))
is_string_lem (some (number n)) t e = absurd (ground (arith, e))
is_string_lem (some (array ms)) t e = absurd (ground (arith, e))
is_string_lem (some (object ms)) t e = absurd (ground (arith, e))

read_id_lem :
    (o : Option Json) (t : Text) → read_id o ≡ some t → (found_values o ≡ string t ∷ []) × IsId t
unfolding read_id
read_id_lem none t e = absurd (ground (arith, e))
read_id_lem (some (string s)) t e =
    let (same, low, high) = fits s t e in
    (ap (λ u. string u ∷ []) same, subst IsId same (low, high))
  where
    fits :
        (s t : Text)
        → (if length s == 0 || leb id_capacity (length s) then none else some s) ≡ some t
        → (s ≡ t) × (0 < length s) × (length s < id_capacity)
    fits s t e = ground (arith, e)
read_id_lem (some null) t e = absurd (ground (arith, e))
read_id_lem (some (boolean b)) t e = absurd (ground (arith, e))
read_id_lem (some (number n)) t e = absurd (ground (arith, e))
read_id_lem (some (array ms)) t e = absurd (ground (arith, e))
read_id_lem (some (object ms)) t e = absurd (ground (arith, e))

read_integer_lem :
    (o : Option Json) (low high v : ℤ)
    → read_integer o low high ≡ some v
    → (found_values o ≡ number (some v) ∷ []) × ((int_leb low v && int_leb v high) ≡ true)
unfolding read_integer
read_integer_lem (some (number (some n))) low high v e =
    let (same, h) = bounded n e in
    (
      ap (λ u. number (some u) ∷ []) same,
      subst (λ u. (int_leb low u && int_leb u high) ≡ true) same h,
    )
  where
    bounded :
        (n : ℤ)
        → (if int_leb low n && int_leb n high then some n else none) ≡ some v
        → (n ≡ v) × ((int_leb low n && int_leb n high) ≡ true)
    bounded n e = ground (arith, e)
read_integer_lem (some (number none)) low high v e = absurd (ground (arith, e))
read_integer_lem none low high v e = absurd (ground (arith, e))
read_integer_lem (some null) low high v e = absurd (ground (arith, e))
read_integer_lem (some (boolean b)) low high v e = absurd (ground (arith, e))
read_integer_lem (some (string t)) low high v e = absurd (ground (arith, e))
read_integer_lem (some (array ms)) low high v e = absurd (ground (arith, e))
read_integer_lem (some (object ms)) low high v e = absurd (ground (arith, e))

-- A node that holds fields is an object.
object_of :
    {names : List Text} {o : Option Json} {slots : List Slot} (h : Holds names o slots)
    → found_values o ≡ object h.members ∷ []
object_of h = ap found_values h.node

read_type_lem :
    (o : Option Json) (t : CommandType)
    → read_type o ≡ some t
    → found_values o ≡ string (type_name t) ∷ []
unfolding read_type
read_type_lem o t e = elim (Bool-cases (is_string o (codes "audio.set_volume"))) [
  | inl h ↦
      let same : set_volume ≡ t = ground (arith, h, e) in
      is_string_lem o (codes "audio.set_volume") h ∙ ap (λ u. string (type_name u) ∷ []) same
  | inr h ↦
      let other : (is_string o (codes "audio.adjust_volume") ≡ true) × (adjust_volume ≡ t) =
        ground (arith, h, e) in
      is_string_lem o (codes "audio.adjust_volume") other.0
      ∙ ap (λ u. string (type_name u) ∷ []) other.1
]

read_parameter_lem :
    (t : CommandType) (o : Option Json) (v : ℤ)
    → read_parameter t o ≡ some v
    → (params : Members) × (found_values o ≡ object params ∷ []) × IsParameter t params v
unfolding read_parameter
read_parameter_lem t o v e =
    let name = (parameter_of t).0 in
    let (slots, p, q) = >>=_some (read_fields (name ∷ []) 1 o) e in
    let h = read_fields-Holds (name ∷ []) 1 o slots (tt, tt) p in
    let (found, bounds) = read_integer_lem (field_at 0 slots) (parameter_of t).1 (pos 100) v q in
    (
      h.members,
      object_of h,
      record { only = h.known; given = sym (h.at 0 name refl) ∙ found; in_range = bounds },
    )

command_names-Distinct : Distinct command_names
unfolding text_eq
command_names-Distinct = distinct_lem command_names refl

root_names-Distinct : Distinct root_names
unfolding text_eq
root_names-Distinct = distinct_lem root_names refl

first_version : (v : ℤ) → (int_leb (pos 1) v && int_leb v (pos 1)) ≡ true → v ≡ pos 1
first_version (pos n) h = ground (arith, h)
first_version (negsuc n) h = absurd (ground (arith, h))

pub some_injective : {A : Type 0} {a b : A} → some a ≡ some b → a ≡ b
some_injective {a} e = ap (λ o. elim o [ none ↦ a | some x ↦ x ]) e

-- A guard that returns nothing.
pub guarded :
    {A : Type 0} {o : Option A} {a : A} (test : Bool)
    → (if test then none else o) ≡ some a
    → (test ≡ false) × (o ≡ some a)
guarded true e = absurd (ground (arith, e))
guarded false e = (refl, e)

read_action_lem :
    (o : Option Json) (t : CommandType) (v : ℤ)
    → read_action o ≡ some (t, v)
    → (action : Members) × (found_values o ≡ object action ∷ []) × IsAction action t v
unfolding read_action
read_action_lem o t v e =
    let (slots, p, q) = >>=_some (read_fields command_names 3 o) e in
    let h = read_fields-Holds command_names 3 o slots command_names-Distinct p in
    let (kind, rest) = guarded (not (is_string (field_at 0 slots) (codes "action"))) q in
    let (u, type_read, after) = >>=_some (read_type (field_at 1 slots)) rest in
    let (w, value_read, same) = >>=_some (read_parameter u (field_at 2 slots)) after in
    let eq : (u ≡ t) × (w ≡ v) = ground (arith, same) in
    let (params, is_object, good) = read_parameter_lem t (field_at 2 slots) v (
      subst (λ x. read_parameter x (field_at 2 slots) ≡ some v) eq.0 (value_read ∙ ap some eq.1)) in
    (
      h.members,
      object_of h,
      record {
        only = h.known;
        kind =
            sym (h.at 0 (codes "type") refl)
            ∙ is_string_lem (field_at 0 slots) (codes "action") (ground (arith, kind));
        name =
            sym (h.at 1 (codes "name") refl)
            ∙ read_type_lem (field_at 1 slots) t (type_read ∙ ap some eq.0);
        params = params;
        has_params = sym (h.at 2 (codes "params") refl) ∙ is_object;
        parameter = good;
      },
    )

-- A command that is accepted comes from an object without unknown fields, in which each required field
-- stands once: type, schema and version are those of the protocol, the three identifiers of 1 to 127 bytes
-- and the value are the command's, and the value is in the range of the action.
pub command_parse-IsCommand :
    (root : Option Json) (c : DeviceCommand)
    → command_parse root ≡ some c
    → (members : Members) × (root ≡ some (object members)) × IsCommand members c
unfolding command_parse
command_parse-IsCommand root c e =
    let (slots, p, q) = >>=_some (read_fields root_names 7 root) e in
    let h = read_fields-Holds root_names 7 root slots root_names-Distinct p in
    let (heads, rest) =
      guarded
        (not (is_string (field_at 0 slots) (codes "device_command"))
          || not (is_string (field_at 1 slots) (codes "botstation.device-command")))
        q in
    let (version, version_read, rest1) =
      >>=_some (read_integer (field_at 2 slots) (pos 1) (pos 1)) rest in
    let (m, m_read, rest2) = >>=_some (read_id (field_at 3 slots)) rest1 in
    let (k, k_read, rest3) = >>=_some (read_id (field_at 4 slots)) rest2 in
    let (n, n_read, rest4) = >>=_some (read_id (field_at 5 slots)) rest3 in
    let (a, a_read, same) = >>=_some (read_action (field_at 6 slots)) rest4 in
    let (action, is_object, does) = read_action_lem (field_at 6 slots) a.0 a.1 a_read in
    let (one, bounds) = read_integer_lem (field_at 2 slots) (pos 1) (pos 1) version version_read in
    let (message, message_ok) = read_id_lem (field_at 3 slots) m m_read in
    let (command, command_ok) = read_id_lem (field_at 4 slots) k k_read in
    let (conversation, conversation_ok) = read_id_lem (field_at 5 slots) n n_read in
    let built : IsCommand h.members (record {
      type_of = a.0;
      message_id = m;
      command_id = k;
      conversation_id = n;
      value = a.1;
    }) =
      record {
        only = h.known;
        kind =
            sym (h.at 0 (codes "type") refl)
            ∙ is_string_lem (field_at 0 slots) (codes "device_command") (ground (arith, heads));
        schema =
            sym (h.at 1 (codes "schema") refl)
            ∙ is_string_lem (field_at 1 slots) (codes "botstation.device-command")
                (ground (arith, heads));
        version =
            sym (h.at 2 (codes "version") refl)
            ∙ one
            ∙ ap (λ v. number (some v) ∷ []) (first_version version bounds);
        message = sym (h.at 3 (codes "message_id") refl) ∙ message;
        command = sym (h.at 4 (codes "command_id") refl) ∙ command;
        conversation = sym (h.at 5 (codes "conversation_id") refl) ∙ conversation;
        ids = (message_ok, command_ok, conversation_ok);
        action = action;
        has_action = sym (h.at 6 (codes "command") refl) ∙ is_object;
        does = does;
      } in
    (h.members, h.node, subst (IsCommand h.members) (some_injective same) built)
