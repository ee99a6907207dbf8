-- ===== src/Places/Asking.antt =====
-- Which requests of clients the searches accept, and what they send to the places API.
use memory_atlas_server.Prelude.{
  sym, throw_ne_ok, ok_injective, Bool-cases, inl, inr, if◌then◌else◌, not, ◌&&◌, Text, utf8,
  text_eq, ◌≡◌, refl, ap, ◌∙◌, Bool, true, false, arith, ◌↔◌, Result, ok, throw, ◌>>=◌, Option,
  none, some, pos, ℤ,
}
use memory_atlas_server.Places.Json.{
  Json, null, boolean, int64, uint64, double, string, array, object, cons, nil, field, end, Fields,
  Library, find_field, set_field, as_object, as_double, at, required,
}
use memory_atlas_server.Places.Handlers.{
  is_landmark_search, nearby_data, nearby_request, radius_of, text_data, within_circle, circle_of,
}

module _ {D : Type 0} (lib : Library D) where
  double_of :
      {B : Type 0} (o : Option (Json D)) (k : D → Result B) {b : B}
      → (required lib o >>= λ v. as_double lib v >>= k) ≡ ok b
      → (d : D) × (o ≡ some (double d)) × (k d ≡ ok b)
  unfolding as_double
  double_of (some (double d)) k e = (d, refl, e)
  double_of none k e = absurd (throw_ne_ok e)
  double_of (some null) k e = absurd (throw_ne_ok e)
  double_of (some (boolean b)) k e = absurd (throw_ne_ok e)
  double_of (some (int64 n)) k e = absurd (throw_ne_ok e)
  double_of (some (uint64 n)) k e = absurd (throw_ne_ok e)
  double_of (some (string text)) k e = absurd (throw_ne_ok e)
  double_of (some (array items)) k e = absurd (throw_ne_ok e)
  double_of (some (object fields)) k e = absurd (throw_ne_ok e)

  abbrev is_numeric : Json D → Bool
  is_numeric (double d) = true
  is_numeric (int64 n) = true
  is_numeric (uint64 n) = false
  is_numeric null = false
  is_numeric (boolean b) = false
  is_numeric (string text) = false
  is_numeric (array items) = false
  is_numeric (object fields) = false

  -- The radius that a field asks for: a `double` is taken as it is, a signed integer is converted,
  -- and 1500 stands for anything else.
  pub data IsRadius : Option (Json D) → D → Type 0 where
    of_double : (d : D) → IsRadius (some (double d)) d
    of_integer : (n : ℤ) → IsRadius (some (int64 n)) (lib.of_int64 n)
    of_nothing : IsRadius none (lib.decimal 15000 1)
    of_other :
        (value : Json D) → is_numeric value ≡ false → IsRadius (some value) (lib.decimal 15000 1)

  radius_of-IsRadius : (o : Option (Json D)) → IsRadius o (radius_of lib (lib.decimal 15000 1) o)
  unfolding radius_of
  radius_of-IsRadius none = of_nothing
  radius_of-IsRadius (some (double d)) = of_double d
  radius_of-IsRadius (some (int64 n)) = of_integer n
  radius_of-IsRadius (some (uint64 n)) = of_other (uint64 n) refl
  radius_of-IsRadius (some null) = of_other null refl
  radius_of-IsRadius (some (boolean b)) = of_other (boolean b) refl
  radius_of-IsRadius (some (string text)) = of_other (string text) refl
  radius_of-IsRadius (some (array items)) = of_other (array items) refl
  radius_of-IsRadius (some (object fields)) = of_other (object fields) refl

  default_radius :
      (value : Json D)
      → is_numeric value ≡ false
      → radius_of lib (lib.decimal 15000 1) (some value) ≡ lib.decimal 15000 1
  unfolding radius_of
  default_radius (double d) e = ground arith
  default_radius (int64 n) e = ground arith
  default_radius (uint64 n) e = refl
  default_radius null e = refl
  default_radius (boolean b) e = refl
  default_radius (string text) e = refl
  default_radius (array items) e = refl
  default_radius (object fields) e = refl

  IsRadius-radius_of :
      {o : Option (Json D)} {r : D} → IsRadius o r → radius_of lib (lib.decimal 15000 1) o ≡ r
  unfolding radius_of
  IsRadius-radius_of (of_double d) = refl
  IsRadius-radius_of (of_integer n) = refl
  IsRadius-radius_of of_nothing = refl
  IsRadius-radius_of (of_other value e) = default_radius value e

  -- What the API is asked for: places of four types in the circle, five of them, nearest first.
  abbrev pub nearby_query : D → D → D → Json D
  nearby_query lat lng meters = object (
      field (utf8 "locationRestriction")
        (object (
          field (utf8 "circle")
            (object (
              field (utf8 "center")
                (object (
                  field (utf8 "latitude") (double lat) (field (utf8 "longitude") (double lng) end)))
                (field (utf8 "radius") (double meters) end)))
            end))
        (field (utf8 "includedPrimaryTypes")
          (array (
            cons (string (utf8 "restaurant")) (
              cons (string (utf8 "cafe"))
                (cons (string (utf8 "bakery")) (cons (string (utf8 "bar")) nil)))))
          (field (utf8 "maxResultCount") (int64 (pos 5))
            (field (utf8 "rankPreference") (string (utf8 "DISTANCE")) end))))

  nearby_data-query :
      (lat lng meters : D) → nearby_data lib lat lng meters ≡ nearby_query lat lng meters
  unfolding nearby_data within_circle circle_of set_field text_eq utf8
  nearby_data-query lat lng meters = refl

  -- The coordinates and the radius of a request for a nearby search.
  pub record AsksNearby (req_json : Json D) (asked : Json D) : Type 0 where
    pub fields : Fields D
    pub latitude : D
    pub longitude : D
    pub is_object : req_json ≡ object fields
    pub has_latitude : find_field (utf8 "latitude") fields ≡ some (double latitude)
    pub has_longitude : find_field (utf8 "longitude") fields ≡ some (double longitude)
    pub radius : D
    pub has_radius : IsRadius (find_field (utf8 "radius") fields) radius
    pub sends : asked ≡ nearby_query latitude longitude radius

  asks_nearby :
      (req_json asked : Json D) → nearby_request lib req_json ≡ ok asked → AsksNearby req_json asked
  unfolding nearby_request at as_object
  asks_nearby (object fields) asked e =
      let (lat, has_lat, e') = double_of (find_field (utf8 "latitude") fields) _ e in
      let (lng, has_lng, e'') = double_of (find_field (utf8 "longitude") fields) _ e' in
      record {
        fields = fields;
        latitude = lat;
        longitude = lng;
        is_object = refl;
        has_latitude = has_lat;
        has_longitude = has_lng;
        radius = radius_of lib (lib.decimal 15000 1) (find_field (utf8 "radius") fields);
        has_radius = radius_of-IsRadius (find_field (utf8 "radius") fields);
        sends = ok_injective (sym e'') ∙ nearby_data-query lat lng _;
      }
  asks_nearby null asked e = absurd (throw_ne_ok e)
  asks_nearby (boolean b) asked e = absurd (throw_ne_ok e)
  asks_nearby (int64 n) asked e = absurd (throw_ne_ok e)
  asks_nearby (uint64 n) asked e = absurd (throw_ne_ok e)
  asks_nearby (double d) asked e = absurd (throw_ne_ok e)
  asks_nearby (string text) asked e = absurd (throw_ne_ok e)
  asks_nearby (array items) asked e = absurd (throw_ne_ok e)

  nearby_asked :
      (req_json asked : Json D) → AsksNearby req_json asked → nearby_request lib req_json ≡ ok asked
  unfolding nearby_request at as_object as_double
  nearby_asked req_json asked a = rw (a.is_object) (
      rw (a.has_latitude, a.has_longitude)
        (ap ok (
          ap (nearby_data lib a.latitude a.longitude) (IsRadius-radius_of a.has_radius)
          ∙ nearby_data-query a.latitude a.longitude a.radius
          ∙ sym a.sends)))

  -- A nearby search accepts exactly the objects whose latitude and longitude are both `double`
  -- values, and asks for the five nearest places of four types in the circle around them. Its
  -- radius is the one of the request if that is a `double`, the converted one if it is a signed
  -- integer, and 1500 where it is missing or anything else. A coordinate that is an integer is
  -- refused.
  pub nearby_request_lem :
      (req_json asked : Json D)
      → (nearby_request lib req_json ≡ ok asked) ↔ AsksNearby req_json asked
  nearby_request_lem req_json asked = (asks_nearby req_json asked, nearby_asked req_json asked)

  pub integer_latitude_refused :
      (req_json : Json D) (fields : Fields D) (n : ℤ)
      → req_json ≡ object fields
      → find_field (utf8 "latitude") fields ≡ some (int64 n)
      → nearby_request lib req_json ≡ throw lib.not_double
  unfolding nearby_request at as_object as_double
  integer_latitude_refused req_json fields n o l = rw o (rw l refl)

  -- A text search sends the query, the language and the number of results always, and the circle
  -- of the request as a bias exactly where the query names no landmark and the radius is positive.
  pub text_data-bias :
      (query : Text) (latitude longitude radius : D)
      → let asked = text_data lib query latitude longitude radius in
        (at lib (utf8 "locationBias") asked ≡ (
          if not (is_landmark_search query) && lib.is_positive radius
          then ok (within_circle lib latitude longitude radius)
          else throw lib.missing_key))
        × (at lib (utf8 "textQuery") asked ≡ ok (string query))
        × (at lib (utf8 "maxResultCount") asked ≡ ok (int64 (pos 5)))
        × (at lib (utf8 "languageCode") asked ≡ ok (string (utf8 "ko")))
  unfolding text_data at as_object set_field find_field text_eq utf8
  text_data-bias query latitude longitude radius =
      elim (Bool-cases (not (is_landmark_search query) && lib.is_positive radius)) [
        | inl e ↦ rw e (refl, refl, refl, refl)
        | inr e ↦ rw e (refl, refl, refl, refl)
      ]
