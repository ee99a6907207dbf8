-- ===== src/Places/Api.antt =====
-- src/handlers/PlacesApiHandler.cpp: `requestGooglePlacesApi`.
use memory_atlas_server.Prelude.{
  ℕ, [], Bool, not, ◌||◌, ltb, leb, if◌then◌else◌, Option, none, some, Text, utf8, Result, ok,
  throw, ◌>>=◌, catch,
}
use memory_atlas_server.Http.{Verb, is_get, is_post}
use memory_atlas_server.Places.Json.{
  Json, string, uint64, object, array, nil, end, field, Library, set_field, contains, as_object,
  as_array, at,
}
use memory_atlas_server.Places.Connection.{
  Attempt, Loop, connected, gave_up, ran_out, max_retries, connect_loop,
}
use memory_atlas_server.Places.Transforming.{transform_places}

-- The request that is written to the API.
pub record ApiRequest : Type 0 where
  pub method : Verb
  pub target : Text
  pub host : Text
  pub api_key : Text
  pub field_mask : Option Text
  pub body : Text

pub record Reply : Type 0 where
  pub status : ℕ
  pub body : Text

-- What `stream.shutdown` leaves in the error code.
pub data Shutdown : Type 0 where
  clean eof stream_truncated : Shutdown
  failed : Text → Shutdown

-- What the calls of one request meet; `some` is the text of an exception. The reply may depend on
-- what was sent.
pub record Exchange : Type 0 where
  pub resolve : Option Text
  pub attempt : ℕ → Attempt
  pub handshake : Option Text
  pub write : Option Text
  pub read : ApiRequest → Result Reply
  pub shutdown : Shutdown

abbrev guarded {ℓ} : {A : Type ℓ} → Option Text → Result A → Result A
guarded none next = next
guarded (some what) next = throw what

unfoldable pub is_success : ℕ → Bool
is_success status = not (ltb status 200 || leb 300 status)

abbrev pub search_fields : Text
search_fields = utf8 "places.id,places.displayName,places.formattedAddress,places.location"

-- What follows the loop before the handshake.
unfoldable pub after_loop {ℓ} : {A : Type ℓ} → Loop → Result A → Result A
after_loop connected next = next
after_loop (gave_up what) next = throw what
after_loop (ran_out none) next = next
after_loop (ran_out (some what)) next = throw what

unfoldable pub after_shutdown {ℓ} : {A : Type ℓ} → Shutdown → Result A → Result A
after_shutdown clean next = next
after_shutdown eof next = next
after_shutdown stream_truncated next = next
after_shutdown (failed what) next = throw what

module _ {D : Type 0} (lib : Library D) where
  unfoldable pub api_request : Text → Verb → Text → Json D → ApiRequest
  api_request api_key method endpoint request_data = record {
    method = method;
    target = endpoint;
    host = utf8 "places.googleapis.com";
    api_key = api_key;
    field_mask = if is_get method then none else some search_fields;
    body = if is_post method then lib.serialize request_data else [];
  }

  -- The object that tells the handlers of an error of the API.
  unfoldable pub api_error : ℕ → Text → Json D
  api_error status body = object (
      set_field (utf8 "__error_body") (string body)
        (set_field (utf8 "__error_status_code") (uint64 status) end))

  unfoldable pub api_result : Verb → Json D → Result (Json D)
  api_result method (object fields) =
      if is_get method
      then ok (object fields)
      else if contains (utf8 "places") fields
      then (do
        value ← at lib (utf8 "places") (object fields)
        places ← as_array lib value
        transformed_places ← transform_places lib places nil
        ok (object (field (utf8 "places") (array transformed_places) end)))
      else ok (object end)
  api_result method other =
      if is_get method
      then (as_object lib other >>= λ fields. ok (object fields))
      else ok (object end)

  unfoldable pub read_reply : Verb → Reply → Result (Json D)
  read_reply method reply = elim (lib.parse reply.body) [
    | throw what ↦ ok (api_error reply.status reply.body)
    | ok response_json ↦
        if not (is_success reply.status)
        then ok (api_error reply.status (lib.serialize response_json))
        else api_result method response_json
  ]

  -- The body of the outer `try`.
  unfoldable pub attempt_request : Text → Exchange → Verb → Text → Json D → Result (Json D)
  unfolding after_loop after_shutdown
  attempt_request api_key exchange method endpoint request_data = guarded exchange.resolve (
      after_loop (connect_loop max_retries exchange.attempt none).0 (
        guarded exchange.handshake (
          guarded exchange.write (do
            reply ← exchange.read (api_request api_key method endpoint request_data)
            after_shutdown exchange.shutdown (read_reply method reply)))))

  unfoldable pub request_google_places_api : Text → Exchange → Verb → Text → Json D → Json D
  request_google_places_api api_key exchange method endpoint request_data =
      catch (attempt_request api_key exchange method endpoint request_data)
        λ what. object (field (utf8 "error") (string what) end)
