-- ===== src/Tests/Http.antt =====
-- An HTTP session at concrete inputs.
use memory_atlas_server.Http.{
  Event, HttpSession, Request, Response, Services, details_path, details_response, do_close, get,
  is_get, is_options, is_post, not_found_response, on_read, on_write, reads, received, route, run,
  send_response, status_response, step, stream_ended, written,
}
use memory_atlas_server.Http.Routing.{Routes}
use memory_atlas_server.Http.Serving.{answers, run-responses}
use memory_atlas_server.Prelude.{
  Bool, List, Text, [], false, none, not, refl, some, starts_with, text_eq, true, utf8, ◌++◌, ◌∷◌,
  ◌≡◌,
}
use memory_atlas_server.Tests.Data.{ann, den, hi}

abbrev answer : Text → Response
answer id = record {
  status = 200;
  version = 11;
  content_type = none;
  keep_alive = true;
  body = id;
  allows_any_origin = false;
}

abbrev services : Services
services = record {
  nearby_search = λ req. answer req.target;
  text_search = λ req. answer req.target;
  place_details = answer;
  place_photo = answer;
  maps_api_key = some hi;
}

abbrev asks_for : Text → Request
asks_for target = record {
  method = get;
  target = target;
  version = 11;
  keep_alive = true;
  body = [];
}

-- A prepared response has its length, so its end is the end of the stream just where the
-- connection is not kept alive.
abbrev need_eof : Response → Bool
need_eof res = not res.keep_alive

abbrev start : HttpSession
start = record { phase = reads; responses = [] }

abbrev events : List Event
events =
    received (asks_for den)
    ∷ written
    ∷ received (asks_for (details_path ++ ann))
    ∷ written
    ∷ stream_ended
    ∷ []

unfoldable run_or_start : List Event → HttpSession
run_or_start events = elim (run need_eof services events start) [ none ↦ start | some s ↦ s ]

abbrev final : HttpSession
final = run_or_start events

run-responses_example :
    (final.responses ≡ start.responses ++ answers services events) × Routes services
unfolding run_or_start run step on_read on_write do_close route send_response is_get is_post
    is_options utf8 text_eq starts_with not_found_response details_response status_response
run-responses_example = run-responses need_eof services events start final refl
