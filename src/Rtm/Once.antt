-- ===== src/Rtm/Once.antt =====
-- What the array of identifiers and the commands executed so far have in common.
-- The history has the identifiers of the last 16 commands that were executed.
use mybot.Rtm.Entries.{
  in_history-rotated, remembered_ids, in_history-newest_first, length-set_entry, rotated,
  newest_first, fresh_prefix, ids,
}
use mybot.Media.{Pipeline}
use mybot.DeviceCommand.{DeviceCommand}
use mybot.Common.{
  inr, subst, sym, inl, ◌++◌, ◌%◌, replicate, Bool-cases, ◌+◌, [], ap₂, not, ◌∙◌, ◌<◌, take, ap,
  false, ℤ, if-keep, arith, ◌∷◌, length, Option, ◌≡◌, Text, List, Bool,
}
use mybot.Rtm.{
  execute_command, command_accepted, Event, set_entry, history_size, in_history, remember_command,
  handle_device_command, Runtime,
}

pub record Remembered (r : Runtime) : Type 0 where
  pub entries : length r.command_history ≡ history_size
  pub next : r.command_history_next < history_size
  pub last_ids :
      newest_first (rotated r.command_history_next r.command_history)
      ≡ take history_size (ids r.executed ++ replicate history_size [])

fresh_id :
    (id : Text) (r : Runtime)
    → Remembered r
    → in_history id r.command_history ≡ false
    → in_history id (take history_size (ids r.executed)) ≡ false
fresh_id id r v h = fresh_prefix id history_size (ids r.executed) (replicate history_size []) (
    ap (in_history id) (sym v.last_ids)
    ∙ in_history-newest_first id (rotated r.command_history_next r.command_history)
    ∙ in_history-rotated id r.command_history_next r.command_history
    ∙ h)

-- No command has the identifier of one of the 16 before it.
unfoldable pub Spaced : List DeviceCommand → Type 0
Spaced [] = Unit
Spaced (c ∷ cs) = (in_history c.command_id (take history_size (ids cs)) ≡ false) × Spaced cs

pub record Once (r : Runtime) : Type 0 where
  pub remembered : Remembered r
  pub spaced : Spaced r.executed

-- Other fields may change.
pub kept_Once :
    {r q : Runtime}
    → q.command_history ≡ r.command_history
    → q.command_history_next ≡ r.command_history_next
    → q.executed ≡ r.executed
    → Once r
    → Once q
kept_Once {r} {q} a b c v = record {
  remembered = record {
    entries = ap length a ∙ v.remembered.entries;
    next = rw b v.remembered.next;
    last_ids =
        ap₂ (λ n h. newest_first (rotated n h)) b a
        ∙ v.remembered.last_ids
        ∙ ap (λ x. take history_size (ids x ++ replicate history_size [])) (sym c);
  };
  spaced = subst Spaced (sym c) v.spaced;
}

executed_Once :
    (c : DeviceCommand) (media' : Pipeline) (r : Runtime)
    → in_history c.command_id r.command_history ≡ false
    → Once r
    → Once (record r {
      command_history = set_entry r.command_history_next c.command_id r.command_history;
      command_history_next = (r.command_history_next + 1) % history_size;
      media = media';
      executed = c ∷ r.executed;
    })
unfolding Spaced
executed_Once c media' r h v = record {
  remembered = record {
    entries =
        length-set_entry r.command_history_next c.command_id r.command_history
        ∙ v.remembered.entries;
    next = omega arith;
    last_ids =
        remembered_ids r.command_history_next c.command_id r.command_history
          (ids r.executed ++ replicate history_size []) v.remembered.entries v.remembered.next
          v.remembered.last_ids;
  };
  spaced = (fresh_id c.command_id r v.remembered h, v.spaced);
}

pub handle_device_command-Once :
    (taken : Bool) (reported : Option ℤ) (event : Event) (r : Runtime)
    → Once r
    → Once (handle_device_command taken reported event r)
unfolding handle_device_command remember_command
handle_device_command-Once taken reported event r v =
    if-keep Once (not (command_accepted event r)) (λ t. v)
      (λ t. elim (Bool-cases (in_history event.command.command_id r.command_history)) [
        | inl seen ↦ rw seen v
        | inr new ↦ rw new (
            executed_Once event.command (execute_command taken reported event.command r.media) r new
              v)
      ])
