-- ===== src/Places/Replying.antt =====
-- What a client is told when the places API cannot be reached.
use memory_atlas_server.Prelude.{◌||◌, true, false, none, Text, utf8, text_eq, ◌≡◌, refl, ◌∙◌, ok}
use memory_atlas_server.Http.{Request, Verb, get, post}
use memory_atlas_server.Places.Json.{
  Json, string, object, end, field, Library, find_field, contains,
}
use memory_atlas_server.Places.Connection.{gave_up, connect_loop, max_retries}
use memory_atlas_server.Places.Connecting.{is_connected, failure, connect_loop_lem}
use memory_atlas_server.Places.Api.{
  Exchange, attempt_request, request_google_places_api, after_loop,
}
use memory_atlas_server.Places.Answering.{
  nearby_answers, text_answers, search-plain, details_answers, details-plain,
}
use memory_atlas_server.Places.Handlers.{
  nearby_url, text_url, details_url, nearby_request, text_request, handle_nearby_search,
  handle_text_search, handle_place_details, propagated_error, json_response,
}

module _ {D : Type 0} (lib : Library D) where
  abbrev pub error_data : Text → Json D
  error_data what = object (field (utf8 "error") (string what) end)

  -- An exception inside the request becomes an object with the one key "error".
  pub request-unreachable :
      (api_key : Text) (exchange : Exchange) (method : Verb) (endpoint : Text) (data_sent : Json D)
      → exchange.resolve ≡ none
      → (is_connected (exchange.attempt 0)
          || is_connected (exchange.attempt 1)
          || is_connected (exchange.attempt 2))
        ≡ false
      → request_google_places_api lib api_key exchange method endpoint data_sent
        ≡ error_data (failure (exchange.attempt 2))
  unfolding request_google_places_api attempt_request after_loop
  request-unreachable api_key exchange method endpoint data_sent r u =
      let gives_up : (connect_loop max_retries exchange.attempt none).0
          ≡ gave_up (failure (exchange.attempt 2)) =
        (connect_loop_lem exchange.attempt).0 ∙ rw u refl in
      rw (r, gives_up) refl

  propagated-error_data : (what : Text) → propagated_error lib (error_data what) ≡ ok none
  unfolding propagated_error contains find_field text_eq utf8
  propagated-error_data what = refl

  -- Where the host is resolved and none of three rounds connects, a search whose request is
  -- accepted, and the details, are answered with the status 200 and an object that holds the text
  -- of the last exception.
  pub unreachable_answers_ok :
      (api_key : Text) (exchange : Exchange) (req : Request) (place_id : Text) (req_json : Json D)
      (asked : Json D) (searched : Json D)
      → exchange.resolve ≡ none
      → (is_connected (exchange.attempt 0)
          || is_connected (exchange.attempt 1)
          || is_connected (exchange.attempt 2))
        ≡ false
      → lib.parse req.body ≡ ok req_json
      → nearby_request lib req_json ≡ ok asked
      → text_request lib req_json ≡ ok searched
      → let body = lib.serialize (error_data (failure (exchange.attempt 2))) in
        (handle_nearby_search lib api_key exchange req
          ≡ json_response 200 req.version req.keep_alive body)
        × (handle_text_search lib api_key exchange req
            ≡ json_response 200 req.version req.keep_alive body)
        × (handle_place_details lib api_key exchange place_id ≡ json_response 200 11 true body)
  unreachable_answers_ok api_key exchange req place_id req_json asked searched r u p n t =
      let plain = propagated-error_data (failure (exchange.attempt 2)) in
      (
        nearby_answers lib api_key exchange req req_json asked p n
              (request-unreachable api_key exchange post nearby_url asked r u)
            ∙ search-plain lib api_key exchange req _ plain,
        text_answers lib api_key exchange req req_json searched p t
              (request-unreachable api_key exchange post text_url searched r u)
            ∙ search-plain lib api_key exchange req _ plain,
        details_answers lib api_key exchange place_id
              (request-unreachable api_key exchange get (details_url place_id) (object end) r u)
            ∙ details-plain lib api_key exchange place_id _ plain,
      )
