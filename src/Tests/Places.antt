-- ===== src/Tests/Places.antt =====
-- The places API at concrete inputs: a `double` is a number of thousandths.
use memory_atlas_server.Prelude.{
  ℕ, ◌*◌, ◌≤◌, ◌≡◌, ◌↔◌, refl, [], ◌∷◌, ◌++◌, map, Bool, true, false, not, ◌||◌, ◌==◌, ltb,
  if◌then◌else◌, none, some, Text, utf8, text_eq, arith, ok, throw, pos, negsuc,
}
use memory_atlas_server.Http.{Request, Response, HttpSession, post, received, reads, step}
use memory_atlas_server.Places.Serving.{
  Network, places_services, search, answering, searches_reach_client,
}
use memory_atlas_server.Places.Json.{
  Json, null, double, string, object, field, end, Library, find_field, as_object, as_double,
  as_string, at, c_str,
}
use memory_atlas_server.Places.Connection.{
  Attempt, connects, refused, throws, connected, gave_up, connect_loop, max_retries,
}
use memory_atlas_server.Places.Connecting.{is_connected, failure, total, connect_loop_lem}
use memory_atlas_server.Places.Api.{ApiRequest, Exchange, Reply, eof, is_success}
use memory_atlas_server.Places.Handlers.{
  nearby_data, nearby_request, radius_of, text_data, text_request, coordinate_or,
  handle_nearby_search, handle_text_search, handle_place_details, json_response,
}
use memory_atlas_server.Places.Replying.{error_data, unreachable_answers_ok}
use memory_atlas_server.Places.Reaching.{Reaches}
use memory_atlas_server.Places.Failing.{api_errors_reach_client}
use memory_atlas_server.Places.Searching.{Place, api_place, client_place, places_object}
use memory_atlas_server.Places.Asking.{AsksNearby, nearby_request_lem}
use memory_atlas_server.Places.Photo.{PhotoReply, Fetch, photo_response, handle_place_photo}
use memory_atlas_server.Places.Redirecting.{url, photo_follows_redirect}
use memory_atlas_server.Tests.Data.{ann, bob, den, hi}

abbrev cafe : Place ℕ
cafe = record {
  id = ann;
  name = bob;
  language = hi;
  address = den;
  latitude = 37500;
  longitude = 127000;
}

abbrev asked : Json ℕ
asked = object (
    field (utf8 "query") (string den)
      (field (utf8 "latitude") (double 37500) (field (utf8 "longitude") (double 127000) end)))

-- Three texts can be parsed: a client's request, a list of places, and an error.
abbrev lib : Library ℕ
lib = record {
  parse = λ text.
      if text_eq text (b'q' ∷ [])
      then ok asked
      else if text_eq text (b'p' ∷ [])
      then ok (places_object (api_place cafe ∷ []))
      else if text_eq text (b'e' ∷ [])
      then ok null
      else throw hi;
  serialize = λ value. b'j' ∷ [];
  decimal = λ m d. m;
  of_int64 = λ n. elim n [ pos n ↦ n | negsuc n ↦ 0 ];
  to_int = λ n. some (pos n);
  is_positive = λ n. ltb 0 n;
  times = λ a b. a * b;
  over = λ a b. a;
  round = λ a. a;
  not_object = hi;
  not_array = hi;
  not_string = hi;
  not_double = hi;
  not_exact = hi;
  missing_key = hi;
}

abbrev nothing : Json ℕ
nothing = null

abbrev request : Request
request = record { method = post; target = den; version = 11; keep_alive = true; body = b'q' ∷ [] }

abbrev offline : ℕ → Attempt
offline n = if n == 0 then refused 99 ann else if n == 1 then throws bob else refused 111 den

abbrev online : ℕ → Attempt
online n = if n == 0 then refused 99 ann else connects

abbrev exchange : (ℕ → Attempt) → Reply → Exchange
exchange attempt reply = record {
  resolve = none;
  attempt = attempt;
  handshake = none;
  write = none;
  read = λ req. ok reply;
  shutdown = eof;
}

abbrev found : Reply
found = record { status = 200; body = b'p' ∷ [] }

abbrev failing : Reply
failing = record { status = 403; body = b'e' ∷ [] }

abbrev nearby_asked : Json ℕ
nearby_asked = nearby_data lib 37500 127000 15000

abbrev text_asked : Json ℕ
text_asked = text_data lib den 37500 127000 500000

nearby_accepted : nearby_request lib asked ≡ ok nearby_asked
unfolding nearby_request at as_object find_field text_eq utf8 as_double radius_of
nearby_accepted = refl

text_accepted : text_request lib asked ≡ ok text_asked
unfolding text_request at as_object find_field text_eq utf8 as_double as_string radius_of
    coordinate_or c_str
text_accepted = refl

reaches :
    (attempt : ℕ → Attempt) (req : ApiRequest) (reply : Reply)
    → (is_connected (attempt 0) || is_connected (attempt 1) || is_connected (attempt 2)) ≡ true
    → Reaches (exchange attempt reply) req reply
reaches attempt req reply h = record {
  resolved = refl;
  connects = h;
  shook_hands = refl;
  written = refl;
  replied = refl;
  closed = refl;
}

connect_loop_lem_example :
    let (outcome, sleeps) = connect_loop max_retries offline none in
    (outcome ≡ (
      if is_connected (offline 0) || is_connected (offline 1) || is_connected (offline 2)
      then connected
      else gave_up (failure (offline 2))))
    × (total sleeps ≤ 300)
connect_loop_lem_example = connect_loop_lem offline

unreachable_answers_ok_example :
    let body = lib.serialize (error_data lib (failure (offline 2))) in
    (handle_nearby_search lib ann (exchange offline found) request
      ≡ json_response 200 request.version request.keep_alive body)
    × (handle_text_search lib ann (exchange offline found) request
        ≡ json_response 200 request.version request.keep_alive body)
    × (handle_place_details lib ann (exchange offline found) bob ≡ json_response 200 11 true body)
unfolding text_eq
unreachable_answers_ok_example =
    unreachable_answers_ok lib ann (exchange offline found) request bob asked nearby_asked
      text_asked refl refl refl nearby_accepted text_accepted

api_errors_reach_client_example :
    let answer = c_str (lib.serialize nothing) in
    let response : Text → Response = λ content. record {
      status = failing.status;
      version = 11;
      content_type = some (utf8 "application/json");
      keep_alive = true;
      body = content;
      allows_any_origin = false;
    } in
    let error = lib.serialize (object (field (utf8 "error") (string answer) end)) in
    (handle_nearby_search lib ann (exchange online failing) request ≡ response error)
    × (handle_text_search lib ann (exchange online failing) request ≡ response error)
    × (handle_place_details lib ann (exchange online failing) bob ≡ response answer)
unfolding text_eq is_success
api_errors_reach_client_example =
    api_errors_reach_client lib ann (exchange online failing) (exchange online failing)
      (exchange online failing) request bob asked nearby_asked text_asked nothing failing refl
      nearby_accepted text_accepted refl refl (omega arith) (reaches online _ failing refl)
      (reaches online _ failing refl) (reaches online _ failing refl)

abbrev network : Network
network = record {
  nearby = λ req. exchange online found;
  text = λ req. exchange online found;
  details = λ id. exchange online found;
  photo = λ host path. throw hi;
}

abbrev idle : HttpSession
idle = record { phase = reads; responses = [] }

searches_reach_client_example :
    let need_eof : Response → Bool = λ res. not res.keep_alive in
    let request : Text → Request = λ target. search target 11 true (b'q' ∷ []) in
    let services = places_services lib hi network (some ann) in
    let res : Response = record {
      status = 200;
      version = 11;
      content_type = some (utf8 "application/json");
      keep_alive = true;
      body = lib.serialize (places_object (map (client_place lib) (cafe ∷ [])));
      allows_any_origin = true;
    } in
    (step need_eof services reads (received (request (utf8 "/places/nearby"))) idle
      ≡ some (answering res idle))
    × (step need_eof services reads (received (request (utf8 "/places/search"))) idle
        ≡ some (answering res idle))
unfolding text_eq is_success
searches_reach_client_example =
    searches_reach_client lib hi network (some ann) (λ res. not res.keep_alive) 11 true (b'q' ∷ [])
      idle asked nearby_asked text_asked found (cafe ∷ []) refl nearby_accepted text_accepted refl
      refl (reaches online _ found refl) (reaches online _ found refl)

nearby_request_lem_example :
    (nearby_request lib asked ≡ ok nearby_asked) ↔ AsksNearby lib asked nearby_asked
nearby_request_lem_example = nearby_request_lem lib asked nearby_asked

abbrev image : PhotoReply
image = record { status = 200; location = none; content_type = none; body = ann }

abbrev redirects_to : Text → PhotoReply
redirects_to location = record {
  status = 302;
  location = some location;
  content_type = none;
  body = [];
}

-- The API redirects, and every other host has the image.
abbrev fetch : Text → Fetch
fetch location host path =
    if text_eq host (utf8 "maps.googleapis.com") then ok (redirects_to location) else ok image

abbrev scheme : Text
scheme = b'h' ∷ b's' ∷ []

photo_follows_redirect_example :
    handle_place_photo lib hi (fetch (url scheme (bob ++ b'/' ∷ den))) ann den
    ≡ photo_response image
unfolding text_eq utf8
photo_follows_redirect_example =
    photo_follows_redirect lib hi (fetch (url scheme (bob ++ b'/' ∷ den))) ann den
      (redirects_to (url scheme (bob ++ b'/' ∷ den))) image scheme bob den
      ((λ e. ground arith), ((λ e. ground arith), _))
      ((λ e. ground arith), ((λ e. ground arith), ((λ e. ground arith), _))) (omega arith) refl refl
      refl refl
