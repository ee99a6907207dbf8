-- ===== src/Places/Handlers.antt =====
-- src/handlers/PlacesApiHandler.cpp: the handlers of a search and of the details of a place.
use memory_atlas_server.Prelude.{
  ℕ, ◌-◌, ◌++◌, Bool, true, false, not, ◌&&◌, ◌||◌, is_some, if◌then◌else◌, Option, none, some,
  Text, utf8, find_text, Result, ok, ◌>>=◌, catch, ℤ, pos, negsuc,
}
use memory_atlas_server.Http.{get, post, Request, Response}
use memory_atlas_server.Places.Json.{
  Json, null, boolean, int64, uint64, double, string, array, object, nil, cons, Fields, end,
  Library, find_field, set_field, contains, as_object, as_string, as_double, at, to_number, c_str,
}
use memory_atlas_server.Places.Api.{Exchange, request_google_places_api}

-- `static_cast<http::status>(status_code)`, on 32 bits.
unfoldable pub status_of : ℤ → ℕ
status_of (pos n) = n
status_of (negsuc n) = 0xffffffff - n

unfoldable pub json_response : ℕ → ℕ → Bool → Text → Response
json_response status version keep_alive body = record {
  status = status;
  version = version;
  content_type = some (utf8 "application/json");
  keep_alive = keep_alive;
  body = body;
  allows_any_origin = false;
}

-- A search for a landmark or a station.
unfoldable pub is_landmark_search : Text → Bool
is_landmark_search query =
    is_some (find_text (utf8 "역") query)
    || is_some (find_text (utf8 "공항") query)
    || is_some (find_text (utf8 "터미널") query)
    || is_some (find_text (utf8 "대학") query)

abbrev pub details_url : Text → Text
details_url place_id =
    utf8 "https://places.googleapis.com/v1/places/"
    ++ (place_id
        ++ utf8
            "?fields=id,displayName,formattedAddress,location,rating,userRatingCount,reviews,photos")

abbrev pub nearby_url : Text
nearby_url = utf8 "https://places.googleapis.com/v1/places:searchNearby"

abbrev pub text_url : Text
text_url = utf8 "https://places.googleapis.com/v1/places:searchText"

module _ {D : Type 0} (lib : Library D) where
  unfoldable pub create_error_response : ℕ → Text → Response
  unfolding json_response
  create_error_response status error =
      json_response status 11 true
        (lib.serialize (object (set_field (utf8 "error") (string error) end)))

  -- The radius, a `double` or an integer; the default in every other case.
  unfoldable pub radius_of : D → Option (Json D) → D
  radius_of default none = default
  radius_of default (some (double radius)) = radius
  radius_of default (some (int64 radius)) = lib.of_int64 radius
  radius_of default (some (uint64 radius)) = default
  radius_of default (some null) = default
  radius_of default (some (boolean b)) = default
  radius_of default (some (string text)) = default
  radius_of default (some (array items)) = default
  radius_of default (some (object fields)) = default

  unfoldable pub circle_of : D → D → D → Json D
  circle_of latitude longitude radius = object (
      set_field (utf8 "radius") (double radius) (
        set_field (utf8 "center")
          (object (
            set_field (utf8 "longitude") (double longitude)
              (set_field (utf8 "latitude") (double latitude) end)))
          end))

  unfoldable pub within_circle : D → D → D → Json D
  unfolding circle_of
  within_circle latitude longitude radius =
      object (set_field (utf8 "circle") (circle_of latitude longitude radius) end)

  abbrev pub primary_types : Json D
  primary_types = array (
      cons (string (utf8 "restaurant")) (
        cons (string (utf8 "cafe"))
          (cons (string (utf8 "bakery")) (cons (string (utf8 "bar")) nil))))

  -- The data that `handleNearbySearch` sends.
  unfoldable pub nearby_data : D → D → D → Json D
  unfolding within_circle
  nearby_data latitude longitude radius = object (
      set_field (utf8 "rankPreference") (string (utf8 "DISTANCE")) (
        set_field (utf8 "maxResultCount") (int64 (pos 5)) (
          set_field (utf8 "includedPrimaryTypes") primary_types (
            set_field (utf8 "locationRestriction") (within_circle latitude longitude radius) end))))

  -- Those that it takes from the client's request.
  unfoldable pub nearby_request : Json D → Result (Json D)
  unfolding nearby_data
  nearby_request req_json = do
    latitude_value ← at lib (utf8 "latitude") req_json
    latitude ← as_double lib latitude_value
    longitude_value ← at lib (utf8 "longitude") req_json
    longitude ← as_double lib longitude_value
    fields ← as_object lib req_json
    ok (
        nearby_data latitude longitude
          (radius_of (lib.decimal 15000 1) (find_field (utf8 "radius") fields)))

  -- A coordinate of a text search, or its default.
  unfoldable pub coordinate_or : D → Option (Json D) → Result D
  coordinate_or default none = ok default
  coordinate_or default (some value) = as_double lib value

  unfoldable pub text_data : Text → D → D → D → Json D
  unfolding within_circle
  text_data query latitude longitude radius =
      let asked : Fields D = set_field (utf8 "textQuery") (string query) end in
      let placed : Fields D =
        if not (is_landmark_search query) && lib.is_positive radius
        then set_field (utf8 "locationBias") (within_circle latitude longitude radius) asked
        else asked in
      object (
        set_field (utf8 "languageCode") (string (utf8 "ko"))
          (set_field (utf8 "maxResultCount") (int64 (pos 5)) placed))

  unfoldable pub text_request : Json D → Result (Json D)
  unfolding text_data coordinate_or
  text_request req_json = do
    query_value ← at lib (utf8 "query") req_json
    query ← as_string lib query_value
    fields ← as_object lib req_json
    latitude ← coordinate_or (lib.decimal 375665 4) (find_field (utf8 "latitude") fields)
    longitude ← coordinate_or (lib.decimal 1269780 4) (find_field (utf8 "longitude") fields)
    ok (
        text_data (c_str query) latitude longitude
          (radius_of (lib.decimal 500000 1) (find_field (utf8 "radius") fields)))

  -- The error of the API in the data, its status and its body, if there is one.
  unfoldable pub propagated_error : Json D → Result (Option (ℕ × Text))
  unfolding status_of
  propagated_error (object fields) =
      if contains (utf8 "__error_status_code") fields
      then (do
        status_value ← at lib (utf8 "__error_status_code") (object fields)
        status_code ← to_number lib status_value
        body_value ← at lib (utf8 "__error_body") (object fields)
        error_body ← as_string lib body_value
        ok (some (status_of status_code, c_str error_body)))
      else ok none
  propagated_error _ = ok none

  -- The end of the two searches.
  unfoldable pub search_response : Request → Json D → Result Response
  unfolding create_error_response json_response
  search_response req response_data = propagated_error response_data >>= λ error. ok (elim error [
    | none ↦ json_response 200 req.version req.keep_alive (lib.serialize response_data)
    | some e ↦ create_error_response e.0 e.1
  ])

  abbrev pub search_failed : Text → Response
  search_failed what = create_error_response 400 (utf8 "Error processing request: " ++ c_str what)

  module _ (api_key : Text) (exchange : Exchange) where
    unfoldable pub handle_nearby_search : Request → Response
    unfolding search_response nearby_request create_error_response
    handle_nearby_search req =
        catch
          (do
            req_json ← lib.parse req.body
            request_data ← nearby_request req_json
            search_response req
                (request_google_places_api lib api_key exchange post nearby_url request_data))
          search_failed

    unfoldable pub handle_text_search : Request → Response
    unfolding search_response text_request create_error_response
    handle_text_search req =
        catch
          (do
            req_json ← lib.parse req.body
            request_data ← text_request req_json
            search_response req
                (request_google_places_api lib api_key exchange post text_url request_data))
          search_failed

    unfoldable pub handle_place_details : Text → Response
    unfolding propagated_error create_error_response json_response
    handle_place_details place_id =
        let response_data =
          request_google_places_api lib api_key exchange get (details_url place_id) (object end) in
        catch
          (propagated_error response_data >>= λ error. ok (elim error [
            | none ↦ json_response 200 11 true (lib.serialize response_data)
            | some e ↦ json_response e.0 11 true e.1
          ]))
          λ what.
            create_error_response 500
              (utf8 "Error processing place details request: " ++ c_str what)
