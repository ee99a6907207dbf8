-- ===== src/Places/Failing.antt =====
-- An error of the places API reaches the client.
use memory_atlas_server.Prelude.{◌<◌, false, true, some, utf8, Text, ◌≡◌, refl, ◌∙◌, ok}
use memory_atlas_server.Http.{Verb, Request, Response, get, post}
use memory_atlas_server.Places.Json.{Json, string, object, field, end, set_field, Library, c_str}
use memory_atlas_server.Places.Api.{
  Exchange, Reply, api_request, api_error, is_success, request_google_places_api,
}
use memory_atlas_server.Places.Handlers.{
  nearby_url, text_url, details_url, nearby_request, text_request, handle_nearby_search,
  handle_text_search, handle_place_details, create_error_response, json_response,
}
use memory_atlas_server.Places.Answering.{
  nearby_answers, text_answers, search-error, details_answers, details-error,
}
use memory_atlas_server.Places.Reaching.{
  Reaches, request-Reaches, propagated-api_error, read_reply-error,
}

module _ {D : Type 0} (lib : Library D) where
  request-error :
      (api_key : Text) (exchange : Exchange) (method : Verb) (endpoint : Text) (sent value : Json D)
      (reply : Reply)
      → Reaches exchange (api_request lib api_key method endpoint sent) reply
      → lib.parse reply.body ≡ ok value
      → is_success reply.status ≡ false
      → request_google_places_api lib api_key exchange method endpoint sent
        ≡ api_error lib reply.status (lib.serialize value)
  request-error api_key exchange method endpoint sent value reply h p e =
      request-Reaches lib api_key exchange method endpoint sent reply h
      ∙ rw (read_reply-error lib method reply value p e) refl

  -- Where the API can be reached and replies with JSON and a status below 2 ^ 31 that is no
  -- success, the client of a search gets that status in a JSON response that is kept alive, whose
  -- body is an object with the reply, serialized again and cut at a zero byte, as its error; the
  -- client of the details gets the status and that text itself.
  pub api_errors_reach_client :
      (api_key : Text) (nearby text details : Exchange) (req : Request) (place_id : Text)
      (req_json asked searched value : Json D) (reply : Reply)
      → lib.parse req.body ≡ ok req_json
      → nearby_request lib req_json ≡ ok asked
      → text_request lib req_json ≡ ok searched
      → lib.parse reply.body ≡ ok value
      → is_success reply.status ≡ false
      → reply.status < 0x80000000
      → Reaches nearby (api_request lib api_key post nearby_url asked) reply
      → Reaches text (api_request lib api_key post text_url searched) reply
      → Reaches details (api_request lib api_key get (details_url place_id) (object end)) reply
      → let answer = c_str (lib.serialize value) in
        let response : Text → Response = λ content. record {
          status = reply.status;
          version = 11;
          content_type = some (utf8 "application/json");
          keep_alive = true;
          body = content;
          allows_any_origin = false;
        } in
        let error = lib.serialize (object (field (utf8 "error") (string answer) end)) in
        (handle_nearby_search lib api_key nearby req ≡ response error)
        × (handle_text_search lib api_key text req ≡ response error)
        × (handle_place_details lib api_key details place_id ≡ response answer)
  unfolding create_error_response json_response set_field
  api_errors_reach_client api_key nearby text details req place_id req_json asked searched value
        reply p n t v e b hn ht hd =
      let propagates = propagated-api_error lib reply.status (lib.serialize value) b in
      (
        nearby_answers lib api_key nearby req req_json asked p n
              (request-error api_key nearby post nearby_url asked value reply hn v e)
            ∙ search-error lib api_key nearby req _ propagates,
        text_answers lib api_key text req req_json searched p t
              (request-error api_key text post text_url searched value reply ht v e)
            ∙ search-error lib api_key text req _ propagates,
        details_answers lib api_key details place_id (
              request-error api_key details get (details_url place_id) (object end) value reply hd v
                e)
            ∙ details-error lib api_key details place_id _ propagates,
      )
