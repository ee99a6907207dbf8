-- ===== src/Places/Searching.antt =====
-- The places that a client gets, where the API replies with places as they are asked for.
use memory_atlas_server.Prelude.{
  List, [], ◌∷◌, map, true, Text, utf8, text_eq, ◌≡◌, refl, ◌∙◌, ap, sym, ok, none,
}
use memory_atlas_server.Http.{Request, post, is_get}
use memory_atlas_server.Places.Json.{
  Json, string, double, object, array, Items, nil, cons, end, field, Library, find_field, set_field,
  contains, push_back, as_object, as_array, as_string, as_double, at,
}
use memory_atlas_server.Places.Transforming.{
  transform_id, has_display_text, transform_name, transform_address, transform_location,
  transform_place, transform_places, location_of, six_digits,
}
use memory_atlas_server.Places.Api.{
  Exchange, Reply, api_request, api_result, is_success, read_reply, request_google_places_api,
}
use memory_atlas_server.Places.Handlers.{
  nearby_url, nearby_request, text_url, text_request, handle_nearby_search, handle_text_search,
  json_response, propagated_error,
}
use memory_atlas_server.Places.Answering.{nearby_answers, text_answers, search-plain}
use memory_atlas_server.Places.Reaching.{Reaches, request-Reaches}

-- A place with the fields that a search asks for.
pub record Place (D : Type 0) : Type 0 where
  pub id : Text
  pub name : Text
  pub language : Text
  pub address : Text
  pub latitude : D
  pub longitude : D

module _ {D : Type 0} where
  abbrev items : List (Json D) → Items D
  items [] = nil
  items (value ∷ values) = cons value (items values)

  -- As the API describes it.
  abbrev pub api_place : Place D → Json D
  api_place p = object (
      field (utf8 "id") (string p.id) (
        field (utf8 "formattedAddress") (string p.address) (
          field (utf8 "location")
            (object (
              field (utf8 "latitude") (double p.latitude)
                (field (utf8 "longitude") (double p.longitude) end)))
            (field (utf8 "displayName")
              (object (
                field (utf8 "text") (string p.name)
                  (field (utf8 "languageCode") (string p.language) end)))
              end))))

  -- A million times the coordinate, rounded, and divided by a million.
  abbrev pub rounded : Library D → D → D
  rounded lib x = lib.over (lib.round (lib.times x (lib.decimal 1000000 0))) (lib.decimal 1000000 0)

  -- As the client gets it.
  abbrev pub client_place : Library D → Place D → Json D
  client_place lib p = object (
      field (utf8 "id") (string p.id) (
        field (utf8 "name") (string p.name) (
          field (utf8 "addr") (string p.address) (
            field (utf8 "loc")
              (object (
                field (utf8 "lat") (double (rounded lib p.latitude))
                  (field (utf8 "lng") (double (rounded lib p.longitude)) end)))
              end))))

  abbrev pub places_object : List (Json D) → Json D
  places_object values = object (field (utf8 "places") (array (items values)) end)

  push_all : Items D → List (Json D) → Items D
  push_all out [] = out
  push_all out (value ∷ values) = push_all (push_back value out) values

  append : Items D → Items D → Items D
  append nil b = b
  append (cons x a) b = cons x (append a b)

  append-push_back :
      (a : Items D) (x : Json D) (b : Items D) → append (push_back x a) b ≡ append a (cons x b)
  unfolding append push_back
  append-push_back nil x b = refl
  append-push_back (cons y a) x b = ap (cons y) (append-push_back a x b)

  append-nil : (a : Items D) → append a nil ≡ a
  unfolding append
  append-nil nil = refl
  append-nil (cons y a) = ap (cons y) (append-nil a)

module _ {D : Type 0} (lib : Library D) where
  transform-api_place : (p : Place D) → transform_place lib (api_place p) ≡ ok (client_place lib p)
  unfolding transform_place transform_id has_display_text transform_name transform_address
      transform_location location_of six_digits set_field contains find_field text_eq utf8 as_object
      as_string as_double at
  transform-api_place p = refl

  transform-api_places :
      (places : List (Place D)) (out : Items D)
      → transform_places lib (items (map api_place places)) out
        ≡ ok (append out (items (map (client_place lib) places)))
  unfolding transform_places
  transform-api_places [] out = ap ok (sym (append-nil out))
  transform-api_places (p ∷ places) out = rw (transform-api_place p) (
      transform-api_places places (push_back (client_place lib p) out)
      ∙ ap ok (append-push_back out (client_place lib p) _))

  read_reply-places :
      (reply : Reply) (places : List (Place D))
      → is_success reply.status ≡ true
      → lib.parse reply.body ≡ ok (places_object (map api_place places))
      → read_reply lib post reply ≡ ok (places_object (map (client_place lib) places))
  unfolding read_reply api_result contains find_field text_eq utf8 at as_object as_array append
      is_get
  read_reply-places reply places s p =
      rw (p, read_reply) (rw s (rw (transform-api_places places nil) refl))

  propagated-places :
      (values : List (Json D)) → propagated_error lib (places_object values) ≡ ok none
  unfolding propagated_error contains find_field text_eq utf8
  propagated-places values = refl

  request-places :
      (api_key : Text) (exchange : Exchange) (endpoint : Text) (sent : Json D) (reply : Reply)
      (places : List (Place D))
      → Reaches exchange (api_request lib api_key post endpoint sent) reply
      → is_success reply.status ≡ true
      → lib.parse reply.body ≡ ok (places_object (map api_place places))
      → request_google_places_api lib api_key exchange post endpoint sent
        ≡ places_object (map (client_place lib) places)
  request-places api_key exchange endpoint sent reply places h s p =
      request-Reaches lib api_key exchange post endpoint sent reply h
      ∙ rw (read_reply-places reply places s p) refl

  -- Where the client's request can be parsed and asks for both kinds of search, and the API can be
  -- reached and replies with a success and a list of places, each with the fields that are asked
  -- for, both searches answer 200 with the same places in the same order: with their id, name and
  -- address as they were, and with both coordinates rounded to six digits.
  pub searches_answer_places :
      (api_key : Text) (nearby text : Exchange) (req : Request) (req_json asked searched : Json D)
      (reply : Reply) (places : List (Place D))
      → lib.parse req.body ≡ ok req_json
      → nearby_request lib req_json ≡ ok asked
      → text_request lib req_json ≡ ok searched
      → is_success reply.status ≡ true
      → lib.parse reply.body ≡ ok (places_object (map api_place places))
      → Reaches nearby (api_request lib api_key post nearby_url asked) reply
      → Reaches text (api_request lib api_key post text_url searched) reply
      → let answer =
          json_response 200 req.version req.keep_alive
            (lib.serialize (places_object (map (client_place lib) places))) in
        (handle_nearby_search lib api_key nearby req ≡ answer)
        × (handle_text_search lib api_key text req ≡ answer)
  searches_answer_places api_key nearby text req req_json asked searched reply places p n t s v hn
        ht =
      (
        nearby_answers lib api_key nearby req req_json asked p n
              (request-places api_key nearby nearby_url asked reply places hn s v)
            ∙ search-plain lib api_key nearby req _ (propagated-places _),
        text_answers lib api_key text req req_json searched p t
              (request-places api_key text text_url searched reply places ht s v)
            ∙ search-plain lib api_key text req _ (propagated-places _),
      )
