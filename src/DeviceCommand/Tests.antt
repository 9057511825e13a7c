-- ===== src/DeviceCommand/Tests.antt =====
-- A command with its fields out of order and one optional field.
use mybot.DeviceCommand.Accept.{command_parse-IsCommand, IsCommand}
use mybot.Common.{refl, text_eq, codes, ◌≡◌, none, some, pos}
use mybot.DeviceCommand.{
  read_action, read_parameter, read_type, read_integer, read_id, is_string, field_at, all_seen,
  place, read_members, read_fields, Members, command_parse, DeviceCommand, null, number, string,
  object, end, member, adjust_volume,
}

abbrev pub louder_action : Members
louder_action = member (some (codes "type")) (string (codes "action")) (
    member (some (codes "params"))
      (object (member (some (codes "delta")) (number (some (pos 20))) end))
      (member (some (codes "name")) (string (codes "audio.adjust_volume")) end))

abbrev pub louder_members : Members
louder_members = member (some (codes "version")) (number (some (pos 1))) (
    member (some (codes "type")) (string (codes "device_command")) (
      member (some (codes "schema")) (string (codes "botstation.device-command")) (
        member (some (codes "issued_at")) null (
          member (some (codes "message_id")) (string (codes "m-1")) (
            member (some (codes "conversation_id")) (string (codes "c-9")) (
              member (some (codes "command_id")) (string (codes "k-7"))
                (member (some (codes "command")) (object louder_action) end)))))))

abbrev pub louder : DeviceCommand
louder = record {
  type_of = adjust_volume;
  message_id = codes "m-1";
  command_id = codes "k-7";
  conversation_id = codes "c-9";
  value = pos 20;
}

pub louder_parsed : command_parse (some (object louder_members)) ≡ some louder
unfolding command_parse read_fields read_members place all_seen field_at is_string read_id
    read_integer read_type read_parameter read_action text_eq
louder_parsed = refl

command_parse-IsCommand_example :
    (members : Members) × (some (object louder_members) ≡ some (object members))
    × IsCommand members louder
command_parse-IsCommand_example =
    command_parse-IsCommand (some (object louder_members)) louder louder_parsed

-- A second field with the same name is refused.
repeated :
    command_parse (some (object (member (some (codes "version")) null louder_members))) ≡ none
unfolding command_parse read_fields read_members place all_seen text_eq
repeated = refl
