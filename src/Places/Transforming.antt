-- ===== src/Places/Transforming.antt =====
-- src/handlers/PlacesApiHandler.cpp, `requestGooglePlacesApi`: the places of a search, as the
-- client is to get them.
use memory_atlas_server.Prelude.{
  ◌+◌, Bool, false, if◌then◌else◌, none, some, Text, utf8, drop, find_text, Result, ok, ◌>>=◌,
}
use memory_atlas_server.Places.Json.{
  Json, string, double, object, Items, nil, cons, Fields, end, Library, set_field, contains,
  push_back, as_object, as_string, as_double, at, c_str,
}

-- What stands behind the first "places/" of a resource name, or all of it.
unfoldable pub id_of_name : Text → Text
id_of_name name_str = elim (find_text (utf8 "places/") name_str) [
  | none ↦ name_str
  | some position ↦ drop (position + 7) name_str
]

module _ {D : Type 0} (lib : Library D) where
  unfoldable pub transform_id : Json D → Fields D → Result (Fields D)
  transform_id place transformed_place = do
    fields ← as_object lib place
    if contains (utf8 "id") fields
        then (do
          value ← at lib (utf8 "id") place
          id ← as_string lib value
          ok (set_field (utf8 "id") (string id) transformed_place))
        else if contains (utf8 "name") fields
        then (do
          value ← at lib (utf8 "name") place
          name ← as_string lib value
          ok (set_field (utf8 "id") (string (id_of_name (c_str name))) transformed_place))
        else ok transformed_place

  -- `place.as_object().contains("displayName") && place.at("displayName").as_object()…`
  unfoldable pub has_display_text : Json D → Result Bool
  has_display_text place = do
    fields ← as_object lib place
    if contains (utf8 "displayName") fields
        then (do
          value ← at lib (utf8 "displayName") place
          names ← as_object lib value
          ok (contains (utf8 "text") names))
        else ok false

  unfoldable pub transform_name : Json D → Fields D → Result (Fields D)
  transform_name place transformed_place = do
    named ← has_display_text place
    if named
        then (do
          value ← at lib (utf8 "displayName") place
          text ← at lib (utf8 "text") value
          name ← as_string lib text
          ok (set_field (utf8 "name") (string name) transformed_place))
        else ok (set_field (utf8 "name") (string (utf8 "이름 없음")) transformed_place)

  -- The address under a key.
  unfoldable pub address : Text → Json D → Fields D → Result (Fields D)
  address key place transformed_place = do
    value ← at lib key place
    text ← as_string lib value
    ok (set_field (utf8 "addr") (string text) transformed_place)

  unfoldable pub transform_address : Json D → Fields D → Result (Fields D)
  unfolding address
  transform_address place transformed_place = do
    fields ← as_object lib place
    if contains (utf8 "formattedAddress") fields
        then address (utf8 "formattedAddress") place transformed_place
        else if contains (utf8 "vicinity") fields
        then address (utf8 "vicinity") place transformed_place
        else ok (set_field (utf8 "addr") (string (utf8 "주소 정보 없음")) transformed_place)

  -- `std::round(x * 1000000) / 1000000.0`
  unfoldable pub six_digits : D → D
  six_digits x = lib.over (lib.round (lib.times x (lib.decimal 1000000 0))) (lib.decimal 1000000 0)

  unfoldable pub location_of : D → D → Json D
  location_of lat lng =
      object (set_field (utf8 "lng") (double lng) (set_field (utf8 "lat") (double lat) end))

  -- `place.at("location").at(key).as_double()`
  unfoldable pub coordinate : Text → Json D → Result D
  coordinate key place = do
    location ← at lib (utf8 "location") place
    value ← at lib key location
    as_double lib value

  unfoldable pub transform_location : Json D → Fields D → Result (Fields D)
  unfolding coordinate six_digits location_of
  transform_location place transformed_place = do
    fields ← as_object lib place
    if contains (utf8 "location") fields
        then (do
          lat ← coordinate (utf8 "latitude") place
          lng ← coordinate (utf8 "longitude") place
          ok (
              set_field (utf8 "loc") (location_of (six_digits lat) (six_digits lng))
                transformed_place))
        else ok (
            set_field (utf8 "loc") (location_of (lib.decimal 374979 4) (lib.decimal 1270276 4))
              transformed_place)

  unfoldable pub transform_place : Json D → Result (Json D)
  unfolding transform_id transform_name transform_address transform_location
  transform_place place = do
    with_id ← transform_id place end
    with_name ← transform_name place with_id
    with_addr ← transform_address place with_name
    with_loc ← transform_location place with_addr
    ok (object with_loc)

  -- The loop over the places: `transformed_places` is what the rounds before have pushed.
  unfoldable pub transform_places : Items D → Items D → Result (Items D)
  transform_places nil transformed_places = ok transformed_places
  transform_places (cons place places) transformed_places =
      transform_place place >>= λ transformed_place.
      transform_places places (push_back transformed_place transformed_places)
