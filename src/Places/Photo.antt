-- ===== src/Places/Photo.antt =====
-- src/handlers/PlacesApiHandler.cpp: `handlePlacePhoto`, with positions on 64 bits.
use memory_atlas_server.Prelude.{
  ℕ, ◌+◌, ◌-◌, ◌%◌, ◌++◌, true, false, not, ◌==◌, ltb, if◌then◌else◌, Option, none, some, Text,
  utf8, length, take, drop, find_text, Result, ok, throw, ◌>>=◌, catch,
}
use memory_atlas_server.Http.{Response}
use memory_atlas_server.Places.Json.{Library, c_str}
use memory_atlas_server.Places.Api.{is_success}
use memory_atlas_server.Places.Handlers.{create_error_response}

-- The photo reference behind "/photos/", or all of it.
unfoldable pub actual_photo_reference : Text → Text
actual_photo_reference photo_reference = elim (find_text (utf8 "/photos/") photo_reference) [
  | none ↦ photo_reference
  | some photos_pos ↦ drop (photos_pos + 8) photo_reference
]

abbrev pub api_path : Text
api_path = utf8 "https://maps.googleapis.com/maps/api/place/photo"

unfoldable pub photo_url : Text → Text → Text
unfolding actual_photo_reference
photo_url api_key photo_reference =
    api_path
    ++ (utf8 "?maxwidth=1600"
        ++ (utf8 "&photoreference="
            ++ (actual_photo_reference photo_reference ++ (utf8 "&key=" ++ api_key))))

abbrev pub size_mod : ℕ
size_mod = 0x10000000000000000

abbrev pub npos : ℕ
npos = 0xffffffffffffffff

-- `text.find(pattern, from)`
unfoldable pub find_from : Text → ℕ → Text → ℕ
find_from pattern from text =
    if ltb (length text) from
    then npos
    else elim (find_text pattern (drop from text)) [ none ↦ npos | some k ↦ from + k ]

-- `text.substr(position, count)`; `what` is the text of `std::out_of_range`.
unfoldable pub substr : Text → Text → ℕ → ℕ → Result Text
substr what text position count =
    if ltb (length text) position then throw what else ok (take count (drop position text))

pub record Target : Type 0 where
  pub host : Text
  pub path : Text

-- The host and the path of the URL to which the API redirects.
unfoldable pub redirect_target : Text → Text → Result Target
redirect_target what redirect_url = do
  let host_start = (find_from (utf8 "://") 0 redirect_url + 3) % size_mod
  let path_start = find_from (utf8 "/") host_start redirect_url
  host ← substr what redirect_url host_start ((path_start + size_mod - host_start) % size_mod)
  path ← substr what redirect_url path_start npos
  ok (record { host = host; path = path })

pub record PhotoReply : Type 0 where
  pub status : ℕ
  pub location : Option Text
  pub content_type : Option Text
  pub body : Text

-- A request over a new connection, to the host, for the target: a reply or an exception.
abbrev pub Fetch : Type 0
Fetch = Text → Text → Result PhotoReply

unfoldable pub redirected : Text → Fetch → PhotoReply → Result PhotoReply
redirected what fetch res =
    if res.status == 302
    then (elim res.location [
      | none ↦ ok res
      | some redirect_url ↦
          redirect_target what redirect_url >>= λ target. fetch target.host target.path
    ])
    else ok res

unfoldable pub photo_response : PhotoReply → Response
photo_response res =
    if not (is_success res.status)
    then record {
      status = res.status;
      version = 11;
      content_type = some (utf8 "text/plain");
      keep_alive = true;
      body = res.body;
      allows_any_origin = true;
    }
    else record {
      status = 200;
      version = 11;
      content_type = elim res.content_type [
        | none ↦ some (utf8 "image/jpeg")
        | some content_type ↦ some content_type
      ];
      keep_alive = true;
      body = res.body;
      allows_any_origin = false;
    }

unfoldable pub handle_place_photo : {D : Type 0} → Library D → Text → Fetch → Text → Text → Response
unfolding photo_url redirected photo_response create_error_response
handle_place_photo lib what fetch api_key photo_reference =
    catch
      (do
        res ← fetch (utf8 "maps.googleapis.com") (photo_url api_key photo_reference)
        final ← redirected what fetch res
        ok (photo_response final))
      λ what'. create_error_response lib 500 (utf8 "Error fetching place photo: " ++ c_str what')
