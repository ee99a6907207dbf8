-- ===== src/Places/Answering.antt =====
-- How the handlers of src/handlers/PlacesApiHandler.cpp answer, by what the request to the API
-- returns.
use memory_atlas_server.Prelude.{
  ℕ, none, some, true, Text, ◌≡◌, refl, ap, ok, ◌>>=◌, catch, ◌++◌, utf8,
}
use memory_atlas_server.Http.{Request, Response, get, post}
use memory_atlas_server.Places.Json.{Json, object, end, Library, c_str}
use memory_atlas_server.Places.Api.{Exchange, request_google_places_api}
use memory_atlas_server.Places.Handlers.{
  nearby_url, text_url, details_url, nearby_request, text_request, handle_nearby_search,
  handle_text_search, handle_place_details, propagated_error, search_response, search_failed,
  json_response, create_error_response,
}

module _ {D : Type 0} (lib : Library D) (api_key : Text) (exchange : Exchange) (req : Request) where
  -- What a search answers when the request returned these data.
  abbrev pub search_answer : Json D → Response
  search_answer response_data = catch (search_response lib req response_data) (search_failed lib)

  pub nearby_answers :
      (req_json asked : Json D) {response_data : Json D}
      → lib.parse req.body ≡ ok req_json
      → nearby_request lib req_json ≡ ok asked
      → request_google_places_api lib api_key exchange post nearby_url asked ≡ response_data
      → handle_nearby_search lib api_key exchange req ≡ search_answer response_data
  unfolding handle_nearby_search
  nearby_answers req_json asked p n r = rw (p, n) (ap search_answer r)

  pub text_answers :
      (req_json asked : Json D) {response_data : Json D}
      → lib.parse req.body ≡ ok req_json
      → text_request lib req_json ≡ ok asked
      → request_google_places_api lib api_key exchange post text_url asked ≡ response_data
      → handle_text_search lib api_key exchange req ≡ search_answer response_data
  unfolding handle_text_search
  text_answers req_json asked p n r = rw (p, n) (ap search_answer r)

  pub search-plain :
      (response_data : Json D)
      → propagated_error lib response_data ≡ ok none
      → search_answer response_data
        ≡ json_response 200 req.version req.keep_alive (lib.serialize response_data)
  unfolding search_response
  search-plain response_data e = rw e refl

  pub search-error :
      (response_data : Json D) {status : ℕ} {body : Text}
      → propagated_error lib response_data ≡ ok (some (status, body))
      → search_answer response_data ≡ create_error_response lib status body
  unfolding search_response
  search-error response_data e = rw e refl

module _ {D : Type 0} (lib : Library D) (api_key : Text) (exchange : Exchange)
    (place_id : Text) where
  abbrev pub details_answer : Json D → Response
  details_answer response_data =
      catch
        (propagated_error lib response_data >>= λ error. ok (elim error [
          | none ↦ json_response 200 11 true (lib.serialize response_data)
          | some e ↦ json_response e.0 11 true e.1
        ]))
        λ what.
          create_error_response lib 500
            (utf8 "Error processing place details request: " ++ c_str what)

  pub details_answers :
      {response_data : Json D}
      → request_google_places_api lib api_key exchange get (details_url place_id) (object end)
        ≡ response_data
      → handle_place_details lib api_key exchange place_id ≡ details_answer response_data
  unfolding handle_place_details
  details_answers r = ap details_answer r

  pub details-plain :
      (response_data : Json D)
      → propagated_error lib response_data ≡ ok none
      → details_answer response_data ≡ json_response 200 11 true (lib.serialize response_data)
  details-plain response_data e = rw e refl

  pub details-error :
      (response_data : Json D) {status : ℕ} {body : Text}
      → propagated_error lib response_data ≡ ok (some (status, body))
      → details_answer response_data ≡ json_response status 11 true body
  details-error response_data e = rw e refl
