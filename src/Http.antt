-- ===== src/Http.antt =====
-- src/HttpServer.cpp: one HTTP session. The handler of the places API is an interface.
pub mod Serving
pub mod Routing
use memory_atlas_server.Prelude.{
  ℕ, List, [], ◌∷◌, ◌++◌, Bool, true, false, not, ◌&&◌, if◌then◌else◌, is_empty, length, drop,
  Option, none, some, Text, utf8, text_eq, starts_with,
}

pub data Verb : Type 0 where
  get post options : Verb
  -- each other method, by its number
  other : ℕ → Verb

unfoldable pub is_get : Verb → Bool
is_get get = true
is_get post = false
is_get options = false
is_get (other n) = false

unfoldable pub is_post : Verb → Bool
is_post get = false
is_post post = true
is_post options = false
is_post (other n) = false

unfoldable pub is_options : Verb → Bool
is_options get = false
is_options post = false
is_options options = true
is_options (other n) = false

pub record Request : Type 0 where
  pub method : Verb
  pub target : Text
  pub version : ℕ
  pub keep_alive : Bool
  pub body : Text

-- The header fields that the session sets: the three of CORS are one flag.
pub record Response : Type 0 where
  pub status : ℕ
  pub version : ℕ
  pub content_type : Option Text
  pub keep_alive : Bool
  pub body : Text
  pub allows_any_origin : Bool

-- `PlacesApiHandler`, and `GOOGLE_MAPS_API_KEY` in the environment.
pub record Services : Type 0 where
  pub nearby_search : Request → Response
  pub text_search : Request → Response
  pub place_details : Text → Response
  pub place_photo : Text → Response
  pub maps_api_key : Option Text

unfoldable pub health_check_response : Request → Response
health_check_response req = record {
  status = 200;
  version = req.version;
  content_type = some (utf8 "text/plain");
  keep_alive = req.keep_alive;
  body = utf8 "OK";
  allows_any_origin = false;
}

unfoldable pub options_response : Request → Response
options_response req = record {
  status = 204;
  version = req.version;
  content_type = none;
  keep_alive = req.keep_alive;
  body = [];
  allows_any_origin = false;
}

-- The version is always 1.1, whose connections are kept alive.
unfoldable pub bad_request_response : Text → Response
bad_request_response why = record {
  status = 400;
  version = 11;
  content_type = some (utf8 "text/plain");
  keep_alive = true;
  body = why;
  allows_any_origin = false;
}

unfoldable pub not_found_response : Request → Response
not_found_response req = record {
  status = 404;
  version = req.version;
  content_type = some (utf8 "text/plain");
  keep_alive = req.keep_alive;
  body = utf8 "The resource '" ++ (req.target ++ utf8 "' was not found.");
  allows_any_origin = false;
}

unfoldable pub status_response : Request → Response
status_response req = record {
  status = 200;
  version = req.version;
  content_type = some (utf8 "application/json");
  keep_alive = req.keep_alive;
  body = utf8 "{\"status\": \"ok\"}";
  allows_any_origin = false;
}

unfoldable pub maps_key_response : Option Text → Request → Response
maps_key_response none req =
    bad_request_response (utf8 "Google Maps API key is not configured on the server")
maps_key_response (some api_key) req =
    if is_empty api_key
    then bad_request_response (utf8 "Google Maps API key is not configured on the server")
    else record {
      status = 200;
      version = req.version;
      content_type = some (utf8 "text/plain");
      keep_alive = req.keep_alive;
      body = api_key;
      allows_any_origin = false;
    }

abbrev pub details_path : Text
details_path = utf8 "/places/details/"

abbrev pub photo_path : Text
photo_path = utf8 "/place/photo/"

unfoldable pub details_response : Services → Text → Response
details_response services place_id =
    if not (is_empty place_id)
    then services.place_details place_id
    else bad_request_response (utf8 "Missing Place ID in /places/details/ request.")

unfoldable pub photo_response : Services → Text → Response
photo_response services photo_reference =
    if not (is_empty photo_reference)
    then services.place_photo photo_reference
    else bad_request_response (utf8 "Missing Photo Reference in /place/photo/ request.")

-- The routing of `on_read`.
unfoldable pub route : Services → Request → Response
route services req =
    if is_get req.method && text_eq req.target (utf8 "/health")
    then health_check_response req
    else if is_options req.method
    then options_response req
    else if is_get req.method && text_eq req.target (utf8 "/maps/key")
    then maps_key_response services.maps_api_key req
    else if is_post req.method && text_eq req.target (utf8 "/places/nearby")
    then services.nearby_search req
    else if is_post req.method && text_eq req.target (utf8 "/places/search")
    then services.text_search req
    else if is_post req.method && text_eq req.target (utf8 "/places/details")
    then not_found_response req
    else if is_get req.method && starts_with details_path req.target
    then details_response services (drop (length details_path) req.target)
    else if is_get req.method && starts_with photo_path req.target
    then photo_response services (drop (length photo_path) req.target)
    else if text_eq req.target (utf8 "/status")
    then status_response req
    else not_found_response req

-- `send_response` adds the header fields of CORS.
unfoldable pub send_response : Response → Response
send_response res = record res { allows_any_origin = true }

-- What the session waits for.
pub data Phase : Type 0 where
  reads : Phase
  writes : Response → Phase
  closed : Phase

pub record HttpSession : Type 0 where
  pub phase : Phase
  -- the responses handed to `http::async_write`, oldest first
  pub responses : List Response

-- What `async_read` and `async_write` answer.
pub data Event : Type 0 where
  received : Request → Event
  stream_ended read_failed written write_failed : Event

unfoldable pub on_read : Services → Request → HttpSession → HttpSession
on_read services req s =
    let res = send_response (route services req) in
    record { phase = writes res; responses = s.responses ++ res ∷ [] }

-- `need_eof` stands for the function of that name of Boost.Beast.
unfoldable pub on_write : (Response → Bool) → Response → HttpSession → HttpSession
on_write need_eof res s =
    if need_eof res then record s { phase = closed } else record s { phase = reads }

unfoldable pub do_close : HttpSession → HttpSession
do_close s = record s { phase = closed }

-- One completed operation; `none` when the session does not wait for it.
unfoldable pub step :
    (Response → Bool) → Services → Phase → Event → HttpSession → Option HttpSession
step need_eof services reads (received req) s = some (on_read services req s)
step need_eof services reads stream_ended s = some (do_close s)
step need_eof services reads read_failed s = some (do_close s)
step need_eof services reads written s = none
step need_eof services reads write_failed s = none
step need_eof services (writes res) (received req) s = none
step need_eof services (writes res) stream_ended s = none
step need_eof services (writes res) read_failed s = none
step need_eof services (writes res) written s = some (on_write need_eof res s)
step need_eof services (writes res) write_failed s = some (do_close s)
step need_eof services closed event s = none

unfoldable pub run : (Response → Bool) → Services → List Event → HttpSession → Option HttpSession
run need_eof services [] s = some s
run need_eof services (event ∷ events) s = elim (step need_eof services s.phase event s) [
  | none ↦ none
  | some s' ↦ run need_eof services events s'
]
