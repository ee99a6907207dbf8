-- ===== src/Places/Redirecting.antt =====
-- Where a photo request is redirected to.
use memory_atlas_server.Prelude.{
  ℕ, suc, ◌+◌, ◌-◌, ◌%◌, ◌<◌, ◌≤◌, [], ◌∷◌, ◌++◌, Text, utf8, length, length-append, take, drop,
  All, find_text, find_text-append, find_text-absent, drop-append, take-append, take-all, ◌≡◌, ◌≢◌,
  refl, ◌∙◌, ap, ok, throw, none, some, arith,
}
use memory_atlas_server.Places.Json.{Library, c_str}
use memory_atlas_server.Places.Photo.{
  find_from, substr, redirect_target, npos, size_mod, PhotoReply, Fetch, redirected, photo_url,
  handle_place_photo, photo_response,
}
use memory_atlas_server.Places.Handlers.{create_error_response}

find_from_found :
    (pattern : Text) (from k : ℕ) (text : Text)
    → from ≤ length text
    → find_text pattern (drop from text) ≡ some k
    → find_from pattern from text ≡ from + k
unfolding find_from
find_from_found pattern from k text h e = ground (arith)

find_from_absent :
    (pattern : Text) (from : ℕ) (text : Text)
    → find_text pattern (drop from text) ≡ none
    → find_from pattern from text ≡ npos
unfolding find_from
find_from_absent pattern from text e = ground (arith)

substr_lem :
    (what text : Text) (position count : ℕ)
    → position ≤ length text
    → substr what text position count ≡ ok (take count (drop position text))
unfolding substr
substr_lem what text position count h = ground arith

substr_past :
    (what text : Text) (position count : ℕ)
    → length text < position
    → substr what text position count ≡ throw what
unfolding substr
substr_past what text position count h = ground arith

abbrev pub url : Text → Text → Text
url scheme rest = scheme ++ (utf8 "://" ++ rest)

host_start_lem :
    (scheme rest : Text)
    → All (λ c. c ≢ b':') scheme
    → length (url scheme rest) < npos
    → (find_from (utf8 "://") 0 (url scheme rest) + 3) % size_mod ≡ length scheme + 3
unfolding utf8
host_start_lem scheme rest h b =
    ap (λ (k : ℕ). (k + 3) % size_mod)
      (find_from_found (utf8 "://") 0 (length scheme) (url scheme rest) (omega arith)
        (find_text-append b':' (b'/' ∷ b'/' ∷ []) scheme rest h))
    ∙ omega (arith, length-append {0} scheme (utf8 "://" ++ rest))

drop-url :
    (scheme rest : Text) (n : ℕ) → drop (length scheme + 3 + n) (url scheme rest) ≡ drop n rest
unfolding utf8
drop-url scheme rest n =
    let e : length scheme + 3 + n ≡ length scheme + suc (suc (suc n)) = omega arith in
    rw e (drop-append scheme (utf8 "://" ++ rest) (suc (suc (suc n))))

length-url : (scheme rest : Text) → length (url scheme rest) ≡ length scheme + 3 + length rest
unfolding utf8
length-url scheme rest = omega (arith, length-append {0} scheme (utf8 "://" ++ rest))

drop-host : (scheme rest : Text) → drop (length scheme + 3) (url scheme rest) ≡ rest
drop-host scheme rest =
    let e : length scheme + 3 ≡ length scheme + 3 + 0 = omega arith in rw e (drop-url scheme rest 0)

past_host : (a b : Text) → drop (length a) (a ++ b) ≡ b
past_host a b = let e : length a ≡ length a + 0 = omega arith in rw e (drop-append a b 0)

module _ (what scheme host path : Text) (plain : All (λ c. c ≢ b':') scheme)
    (one_host : All (λ c. c ≢ b'/') host) where
  abbrev full_url : Text
  full_url = url scheme (host ++ b'/' ∷ path)

  -- The host and the path of a location that has both.
  pub redirect_target_lem :
      length full_url < npos
      → redirect_target what full_url ≡ ok (record { host = host; path = b'/' ∷ path })
  unfolding redirect_target
  redirect_target_lem short =
      let start = length scheme + 3 in
      let rest : Text = host ++ b'/' ∷ path in
      let l = length-url scheme rest in
      let hs = host_start_lem scheme rest plain short in
      let ps : find_from (utf8 "/") start full_url ≡ start + length host =
        find_from_found (utf8 "/") start (length host) full_url (omega (arith, l)) (
          rw (drop-host scheme rest)
            (unfold utf8 in find_text-append b'/' [] host path one_host)) in
      let count : (start + length host + size_mod - start) % size_mod ≡ length host =
        omega (arith, l, length-append {0} host (b'/' ∷ path)) in
      let taken : substr what full_url start (length host) ≡ ok host =
        substr_lem what full_url start (length host) (omega (arith, l))
        ∙ rw (drop-host scheme rest) (ap ok (take-append host (b'/' ∷ path))) in
      let remaining : substr what full_url (start + length host) npos ≡ ok (b'/' ∷ path) =
        substr_lem what full_url (start + length host) npos
          (omega (arith, l, length-append {0} host (b'/' ∷ path)))
        ∙ rw (drop-url scheme rest (length host), past_host host (b'/' ∷ path))
            (ap ok (
              take-all npos (b'/' ∷ path)
                (omega (arith, l, length-append {0} host (b'/' ∷ path))))) in
      rw (hs, ps, count, taken, remaining) refl

-- Where the photo API answers 302 with a location that is a scheme without a colon and a host
-- without a slash and has no path, the client gets an error with the status 500 and the text of
-- the exception of `substr`.
pub redirect_without_path :
    {D : Type 0} (lib : Library D) (what : Text) (fetch : Fetch) (api_key photo_reference : Text)
    (res : PhotoReply) (scheme host : Text)
    → All (λ c. c ≢ b':') scheme
    → All (λ c. c ≢ b'/') host
    → length (url scheme host) < npos
    → fetch (utf8 "maps.googleapis.com") (photo_url api_key photo_reference) ≡ ok res
    → res.status ≡ 302
    → res.location ≡ some (url scheme host)
    → handle_place_photo lib what fetch api_key photo_reference
      ≡ create_error_response lib 500 (utf8 "Error fetching place photo: " ++ c_str what)
unfolding handle_place_photo redirected redirect_target
redirect_without_path lib what fetch api_key photo_reference res scheme host plain one short f s l =
    let hs = host_start_lem scheme host plain short in
    let ps : find_from (utf8 "/") (length scheme + 3) (url scheme host) ≡ npos =
      find_from_absent (utf8 "/") (length scheme + 3) (url scheme host)
        (rw (drop-host scheme host) (unfold utf8 in find_text-absent b'/' [] host one)) in
    let taken =
      substr_lem what (url scheme host) (length scheme + 3)
        ((npos + size_mod - (length scheme + 3)) % size_mod)
        (omega (arith, length-url scheme host)) in
    let past = substr_past what (url scheme host) npos npos short in
    rw (f, s, l, hs, ps, taken, past) refl

-- Where the photo API answers 302 with a location that is a scheme without a colon, a host without
-- a slash and a path, and that is shorter than 2 ^ 64 - 1 bytes, the client gets what exactly that
-- host answers for exactly that path.
pub photo_follows_redirect :
    {D : Type 0} (lib : Library D) (what : Text) (fetch : Fetch) (api_key photo_reference : Text)
    (res final : PhotoReply) (scheme host path : Text)
    → All (λ c. c ≢ b':') scheme
    → All (λ c. c ≢ b'/') host
    → length (url scheme (host ++ b'/' ∷ path)) < npos
    → fetch (utf8 "maps.googleapis.com") (photo_url api_key photo_reference) ≡ ok res
    → res.status ≡ 302
    → res.location ≡ some (url scheme (host ++ b'/' ∷ path))
    → fetch host (b'/' ∷ path) ≡ ok final
    → handle_place_photo lib what fetch api_key photo_reference ≡ photo_response final
unfolding handle_place_photo redirected
photo_follows_redirect lib what fetch api_key photo_reference res final scheme host path plain one
      short f s l g =
    let t = redirect_target_lem what scheme host path plain one short in rw (f, s, l, t, g) refl
