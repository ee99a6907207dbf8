-- ===== src/Places/Reaching.antt =====
-- What a request to the places API returns when the API replies.
use memory_atlas_server.Prelude.{
  ℕ, ◌||◌, Bool, true, false, none, some, Text, utf8, text_eq, ◌≡◌, refl, ◌∙◌, ap, Result, ok,
  throw, catch, ◌<◌, arith,
}
use memory_atlas_server.Http.{Verb}
use memory_atlas_server.Places.Json.{
  Json, Library, find_field, set_field, contains, at, as_object, as_string, to_number, c_str,
}
use memory_atlas_server.Places.Connection.{connected, connect_loop, max_retries}
use memory_atlas_server.Places.Connecting.{is_connected, connect_loop_lem}
use memory_atlas_server.Places.Api.{
  Exchange, ApiRequest, Reply, Shutdown, clean, eof, stream_truncated, failed, api_request,
  api_error, attempt_request, request_google_places_api, read_reply, is_success, after_loop,
  after_shutdown,
}
use memory_atlas_server.Places.Handlers.{propagated_error, status_of}
use memory_atlas_server.Places.Replying.{error_data}

abbrev pub is_failed : Shutdown → Bool
is_failed clean = false
is_failed eof = false
is_failed stream_truncated = false
is_failed (failed what) = true

-- The API takes the request and gives the reply.
pub record Reaches (exchange : Exchange) (request : ApiRequest) (reply : Reply) : Type 0 where
  pub resolved : exchange.resolve ≡ none
  pub connects :
      (is_connected (exchange.attempt 0)
        || is_connected (exchange.attempt 1)
        || is_connected (exchange.attempt 2))
      ≡ true
  pub shook_hands : exchange.handshake ≡ none
  pub written : exchange.write ≡ none
  pub replied : exchange.read request ≡ ok reply
  pub closed : is_failed exchange.shutdown ≡ false

after_shutdown_lem {ℓ} :
    {A : Type ℓ} (s : Shutdown) (r : Result A) → is_failed s ≡ false → after_shutdown s r ≡ r
unfolding after_shutdown
after_shutdown_lem clean r e = refl
after_shutdown_lem eof r e = refl
after_shutdown_lem stream_truncated r e = refl
after_shutdown_lem (failed what) r e = absurd (true_ne_false e)
  where
    true_ne_false : true ≡ false → ⊥
    true_ne_false p = cc

module _ {D : Type 0} (lib : Library D) where
  pub request-Reaches :
      (api_key : Text) (exchange : Exchange) (method : Verb) (endpoint : Text) (sent : Json D)
      (reply : Reply)
      → Reaches exchange (api_request lib api_key method endpoint sent) reply
      → request_google_places_api lib api_key exchange method endpoint sent
        ≡ catch (read_reply lib method reply) (error_data lib)
  unfolding request_google_places_api attempt_request after_loop
  request-Reaches api_key exchange method endpoint sent reply h =
      let loop : (connect_loop max_retries exchange.attempt none).0 ≡ connected =
        (connect_loop_lem exchange.attempt).0 ∙ rw h.connects refl in
      rw (h.resolved, loop, h.shook_hands, h.written, h.replied)
        (ap (λ r. catch r (error_data lib))
          (after_shutdown_lem exchange.shutdown (read_reply lib method reply) h.closed))

  -- The status and the body of an error of the API come back from the object that holds them.
  pub propagated-api_error :
      (status : ℕ) (body : Text)
      → status < 0x80000000
      → propagated_error lib (api_error lib status body) ≡ ok (some (status, c_str body))
  unfolding propagated_error api_error contains find_field set_field text_eq utf8 at as_object
      to_number as_string status_of
  propagated-api_error status body h = ground arith

  pub read_reply-error :
      (method : Verb) (reply : Reply) (value : Json D)
      → lib.parse reply.body ≡ ok value
      → is_success reply.status ≡ false
      → read_reply lib method reply ≡ ok (api_error lib reply.status (lib.serialize value))
  unfolding read_reply
  read_reply-error method reply value p e = rw (p, read_reply) (rw e refl)

  pub read_reply-unparsed :
      (method : Verb) (reply : Reply) (what : Text)
      → lib.parse reply.body ≡ throw what
      → read_reply lib method reply ≡ ok (api_error lib reply.status reply.body)
  unfolding read_reply
  read_reply-unparsed method reply what p = rw (p, read_reply) refl
