-- ===== src/Tests/Config.antt =====
-- Settings at concrete inputs.
use memory_atlas_server.Prelude.{
  ◌≡◌, refl, [], ◌∷◌, ◌++◌, ◌&&◌, ltb, leb, if◌then◌else◌, Option, none, some, Text, utf8, text_eq,
  arith, pos,
}
use memory_atlas_server.Chat.Nicknames.{is_space}
use memory_atlas_server.Chat.Rooms.{to_string}
use memory_atlas_server.Sessions.Words.{skip_spaces}
use memory_atlas_server.Config.{
  Settings, configured, read_settings, get_required_port_env_var, port_of, get_env_var,
  get_int_env_var, int_or, with_ports, stoi, signed_value, positive_value, digits_value, port,
  refused, out_of_port_range, out_of_integer_range, int_max,
}
use memory_atlas_server.Config.Numbers.{port-to_string}

abbrev pub getenv : Text → Option Text
getenv name = if text_eq name (utf8 "WS_PORT") then some (utf8 " +9000x") else none

abbrev pub settings : Settings
settings = record {
  http_port = 8080;
  http_bind_ip = utf8 "0.0.0.0";
  http_threads = pos 1;
  ws_port = 9000;
}

settings_read : read_settings getenv ≡ configured settings
unfolding read_settings get_required_port_env_var port_of get_env_var get_int_env_var int_or
    with_ports stoi signed_value positive_value digits_value skip_spaces is_space text_eq utf8
settings_read = refl

port-to_string_example : get_required_port_env_var (some (to_string 9000 ++ b'x' ∷ [])) 8080 ≡ (
    if leb 9000 int_max
    then (if ltb 0 9000 && leb 9000 65535 then port 9000 else refused out_of_port_range)
    else refused out_of_integer_range)
port-to_string_example = port-to_string 9000 8080 (b'x' ∷ []) (omega arith) refl
