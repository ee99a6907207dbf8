-- ===== src/Http/Routing.antt =====
-- Which requests reach which handler.
use memory_atlas_server.Prelude.{
  ℕ, ◌∷◌, ◌++◌, [], Bool, false, if◌then◌else◌, arith, none, some, Text, utf8, text_eq, starts_with,
  ◌≡◌, refl,
}
use memory_atlas_server.Http.{
  Verb, get, post, options, other, Request, Response, Services, is_get, is_post, is_options, route,
  health_check_response, options_response, not_found_response, status_response,
  bad_request_response, details_response, photo_response,
}

-- A request, and an answer in plain text.
abbrev pub asks : Verb → Text → ℕ → Bool → Text → Request
asks verb target protocol kept content = record {
  method = verb;
  target = target;
  version = protocol;
  keep_alive = kept;
  body = content;
}

abbrev pub plain : ℕ → ℕ → Bool → Text → Response
plain status protocol kept content = record {
  status = status;
  version = protocol;
  content_type = some (utf8 "text/plain");
  keep_alive = kept;
  body = content;
  allows_any_origin = false;
}

-- The two searches by POST, the details and the photo of a name by GET (with 400 where there is no
-- name), the health by GET, OPTIONS of every path but a GET's, the status by any method, and 404 of
-- another method.
pub record Routes (services : Services) : Type 0 where
  pub nearby :
      (n : ℕ) (k : Bool) (b : Text)
      → let req = asks post (utf8 "/places/nearby") n k b in
        route services req ≡ services.nearby_search req
  pub search :
      (n : ℕ) (k : Bool) (b : Text)
      → let req = asks post (utf8 "/places/search") n k b in
        route services req ≡ services.text_search req
  pub details :
      (c : ℕ) (cs : Text) (n : ℕ) (k : Bool) (b : Text)
      → route services (asks get (utf8 "/places/details/" ++ (c ∷ cs)) n k b)
        ≡ services.place_details (c ∷ cs)
  pub photo :
      (c : ℕ) (cs : Text) (n : ℕ) (k : Bool) (b : Text)
      → route services (asks get (utf8 "/place/photo/" ++ (c ∷ cs)) n k b)
        ≡ services.place_photo (c ∷ cs)
  pub nameless :
      (n : ℕ) (k : Bool) (b : Text)
      → ((route services (asks get (utf8 "/places/details/") n k b)).status ≡ 400)
        × ((route services (asks get (utf8 "/place/photo/") n k b)).status ≡ 400)
  pub health :
      (n : ℕ) (k : Bool) (b : Text)
      → route services (asks get (utf8 "/health") n k b) ≡ plain 200 n k (utf8 "OK")
  pub preflight :
      (target : Text) (n : ℕ) (k : Bool) (b : Text)
      → route services (asks options target n k b) ≡ record {
        status = 204;
        version = n;
        content_type = none;
        keep_alive = k;
        body = [];
        allows_any_origin = false;
      }
  pub elsewhere :
      (m : ℕ) (target : Text) (n : ℕ) (k : Bool) (b : Text)
      → (route services (asks (other m) target n k b)).status
        ≡ (if text_eq target (utf8 "/status") then 200 else 404)

pub route-Routes : (services : Services) → Routes services
unfolding route is_get is_post is_options utf8 text_eq starts_with details_response photo_response
    bad_request_response health_check_response options_response status_response not_found_response
route-Routes services = record {
  nearby = λ n k b. refl;
  search = λ n k b. refl;
  details = λ c cs n k b. refl;
  photo = λ c cs n k b. refl;
  nameless = λ n k b. (refl, refl);
  health = λ n k b. refl;
  preflight = λ target n k b. refl;
  elsewhere = λ m target n k b. ground arith;
}
