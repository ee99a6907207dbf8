-- ===== src/Places/Serving.antt =====
-- src/HttpServer.cpp with src/handlers/PlacesApiHandler.cpp: an HTTP session whose handlers are
-- those of the places API.
use memory_atlas_server.Prelude.{
  ℕ, List, [], ◌∷◌, ◌++◌, map, Bool, true, Option, some, Text, utf8, text_eq, ◌≡◌, refl, ap, ◌∙◌,
  ok,
}
use memory_atlas_server.Http.{
  Request, Response, Services, HttpSession, received, reads, writes, post, is_get, is_post,
  is_options, route, send_response, on_read, step,
}
use memory_atlas_server.Listening.{key_or_empty}
use memory_atlas_server.Places.Json.{Json, Library}
use memory_atlas_server.Places.Api.{Exchange, Reply, api_request, is_success}
use memory_atlas_server.Places.Handlers.{
  nearby_url, text_url, nearby_request, text_request, handle_nearby_search, handle_text_search,
  handle_place_details, json_response,
}
use memory_atlas_server.Places.Photo.{Fetch, handle_place_photo}
use memory_atlas_server.Places.Reaching.{Reaches}
use memory_atlas_server.Places.Searching.{
  Place, api_place, client_place, places_object, searches_answer_places,
}

-- What the network answers in each request of a client.
pub record Network : Type 0 where
  pub nearby : Request → Exchange
  pub text : Request → Exchange
  pub details : Text → Exchange
  pub photo : Fetch

-- The handler that the listener makes with the key of the environment. `what` is the text of the
-- exception of `substr`.
unfoldable pub places_services : {D : Type 0} → Library D → Text → Network → Option Text → Services
places_services lib what network api_key = record {
  nearby_search = λ req. handle_nearby_search lib (key_or_empty api_key) (network.nearby req) req;
  text_search = λ req. handle_text_search lib (key_or_empty api_key) (network.text req) req;
  place_details = λ place_id.
      handle_place_details lib (key_or_empty api_key) (network.details place_id) place_id;
  place_photo = handle_place_photo lib what network.photo (key_or_empty api_key);
  maps_api_key = api_key;
}

-- A POST of the two searches.
abbrev pub search : Text → ℕ → Bool → Text → Request
search target protocol kept content = record {
  method = post;
  target = target;
  version = protocol;
  keep_alive = kept;
  body = content;
}

route-nearby :
    (services : Services) (protocol : ℕ) (kept : Bool) (content : Text)
    → route services (search (utf8 "/places/nearby") protocol kept content)
      ≡ services.nearby_search (search (utf8 "/places/nearby") protocol kept content)
unfolding route is_get is_post is_options utf8 text_eq
route-nearby services protocol kept content = refl

route-search :
    (services : Services) (protocol : ℕ) (kept : Bool) (content : Text)
    → route services (search (utf8 "/places/search") protocol kept content)
      ≡ services.text_search (search (utf8 "/places/search") protocol kept content)
unfolding route is_get is_post is_options utf8 text_eq
route-search services protocol kept content = refl

-- The session writes this response next.
abbrev pub answering : Response → HttpSession → HttpSession
answering res s = record { phase = writes res; responses = s.responses ++ res ∷ [] }

answered :
    (need_eof : Response → Bool) (services : Services) (req : Request) (res : Response)
    (s : HttpSession)
    → route services req ≡ res
    → step need_eof services reads (received req) s ≡ some (answering (send_response res) s)
unfolding step on_read
answered need_eof services req res s e = ap (λ r. some (answering (send_response r) s)) e

module _ {D : Type 0} (lib : Library D) (what : Text) (network : Network) (api_key : Option Text)
    (need_eof : Response → Bool) where
  -- An HTTP session that waits for a request and gets a POST of `/places/nearby` or
  -- `/places/search` sends the status 200 with the CORS header fields and the places of the API in
  -- their order: with their id, name and address as they were, and with both coordinates times a
  -- million, rounded, and over a million. This is so where the body can be parsed and asks for
  -- both kinds of search, and the API can be reached and replies with a success and a list of
  -- places, each with the fields that are asked for.
  pub searches_reach_client :
      (protocol : ℕ) (kept : Bool) (content : Text) (s : HttpSession)
      (req_json asked searched : Json D) (reply : Reply) (places : List (Place D))
      → lib.parse content ≡ ok req_json
      → nearby_request lib req_json ≡ ok asked
      → text_request lib req_json ≡ ok searched
      → is_success reply.status ≡ true
      → lib.parse reply.body ≡ ok (places_object (map api_place places))
      → Reaches
          (network.nearby (search (utf8 "/places/nearby") protocol kept content))
          (api_request lib (key_or_empty api_key) post nearby_url asked)
          reply
      → Reaches
          (network.text (search (utf8 "/places/search") protocol kept content))
          (api_request lib (key_or_empty api_key) post text_url searched)
          reply
      → let request : Text → Request = λ target. search target protocol kept content in
        let services = places_services lib what network api_key in
        let res : Response = record {
          status = 200;
          version = protocol;
          content_type = some (utf8 "application/json");
          keep_alive = kept;
          body = lib.serialize (places_object (map (client_place lib) places));
          allows_any_origin = true;
        } in
        (step need_eof services reads (received (request (utf8 "/places/nearby"))) s
          ≡ some (answering res s))
        × (step need_eof services reads (received (request (utf8 "/places/search"))) s
            ≡ some (answering res s))
  unfolding places_services send_response json_response
  searches_reach_client protocol kept content s req_json asked searched reply places p n t e v hn
        ht =
      let request : Text → Request = λ target. search target protocol kept content in
      let services = places_services lib what network api_key in
      let answers : (target : Text) → _ = λ target.
        searches_answer_places lib (key_or_empty api_key)
          (network.nearby (request (utf8 "/places/nearby")))
          (network.text (request (utf8 "/places/search"))) (request target) req_json asked searched
          reply places p n t e v hn ht in
      (
        answered need_eof services (request (utf8 "/places/nearby")) _ s
            (route-nearby services protocol kept content ∙ (answers (utf8 "/places/nearby")).0),
        answered need_eof services (request (utf8 "/places/search")) _ s
            (route-search services protocol kept content ∙ (answers (utf8 "/places/search")).1),
      )
