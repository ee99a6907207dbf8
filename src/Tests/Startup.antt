-- ===== src/Tests/Startup.antt =====
-- The start of the program at a concrete system.
use memory_atlas_server.Prelude.{◌≡◌, refl, [], true, utf8, text_eq}
use memory_atlas_server.Chat.Nicknames.{is_space}
use memory_atlas_server.Sessions.Words.{skip_spaces}
use memory_atlas_server.Config.{read_settings, digits_value}
use memory_atlas_server.Listening.{create_or_throw}
use memory_atlas_server.Startup.{Platform, exited, start}
use memory_atlas_server.Startup.Outcomes.{IsLaunched, can_serve, start-IsLaunched}
use memory_atlas_server.Tests.Config.{getenv}
use memory_atlas_server.Tests.Listening.{setup, port_taken}
use memory_atlas_server.Tests.Data.{sessions_at}

-- The port 8080 of the HTTP server is taken; 9000 is free.
abbrev platform : Platform
platform = record {
  getenv = getenv;
  is_address = λ a. text_eq a (utf8 "0.0.0.0");
  hardware_threads = 4;
  ws_setup = λ a n. setup;
  http_setup = λ a n. port_taken;
  creates_directories = true;
  disk = [];
  session_at = sessions_at;
}

start-IsLaunched_example :
    IsLaunched platform
      (can_serve platform (read_settings getenv))
      (read_settings getenv)
      (start platform)
start-IsLaunched_example = start-IsLaunched platform

-- With the port of the WebSocket listener taken, the program exits.
port_taken_exits : start (record platform { ws_setup = λ a n. port_taken }) ≡ exited 1
unfolding start read_settings text_eq utf8 skip_spaces is_space digits_value create_or_throw
port_taken_exits = refl
