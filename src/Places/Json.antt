-- ===== src/Places/Json.antt =====
-- JSON values as src/handlers/PlacesApiHandler.cpp uses them (`boost::json::value`), and what it
-- takes from Boost.JSON and from the arithmetic of `double`, as a record of functions.
use memory_atlas_server.Prelude.{
  ℕ, Bool, [], ◌∷◌, Option, none, some, Text, text_eq, is_some, if◌then◌else◌, ltb, ◌==◌, Result,
  ok, throw, ◌>>=◌, ℤ, pos, negsuc,
}

mutual
  pub data Json (D : Type 0) : Type 0 where
    null : Json D
    boolean : Bool → Json D
    int64 : ℤ → Json D
    uint64 : ℕ → Json D
    double : D → Json D
    string : Text → Json D
    array : Items D → Json D
    object : Fields D → Json D

  pub data Items (D : Type 0) : Type 0 where
    nil : Items D
    cons : Json D → Items D → Items D

  -- the members of an object, in the order in which they were inserted
  pub data Fields (D : Type 0) : Type 0 where
    end : Fields D
    field : Text → Json D → Fields D → Fields D

-- Boost.JSON and `double`: `decimal m d` is the literal m / 10 ^ d, and the last six fields are
-- the texts of the exceptions.
pub record Library (D : Type 0) : Type 0 where
  pub parse : Text → Result (Json D)
  pub serialize : Json D → Text
  pub decimal : ℕ → ℕ → D
  pub of_int64 : ℤ → D
  pub to_int : D → Option ℤ
  pub is_positive : D → Bool
  pub times : D → D → D
  pub over : D → D → D
  pub round : D → D
  pub not_object : Text
  pub not_array : Text
  pub not_string : Text
  pub not_double : Text
  pub not_exact : Text
  pub missing_key : Text

module _ {D : Type 0} where
  unfoldable pub find_field : Text → Fields D → Option (Json D)
  find_field key end = none
  find_field key (field name value fields) =
      if text_eq name key then some value else find_field key fields

  -- `object[key] = value`
  unfoldable pub set_field : Text → Json D → Fields D → Fields D
  set_field key value end = field key value end
  set_field key value (field name old fields) =
      if text_eq name key
      then field name value fields
      else field name old (set_field key value fields)

  unfoldable pub contains : Text → Fields D → Bool
  unfolding find_field
  contains key fields = is_some (find_field key fields)

  unfoldable pub push_back : Json D → Items D → Items D
  push_back value nil = cons value nil
  push_back value (cons item items) = cons item (push_back value items)

module _ {D : Type 0} (lib : Library D) where
  unfoldable pub as_object : Json D → Result (Fields D)
  as_object (object fields) = ok fields
  as_object _ = throw lib.not_object

  unfoldable pub as_array : Json D → Result (Items D)
  as_array (array items) = ok items
  as_array _ = throw lib.not_array

  unfoldable pub as_string : Json D → Result Text
  as_string (string text) = ok text
  as_string _ = throw lib.not_string

  unfoldable pub as_double : Json D → Result D
  as_double (double d) = ok d
  as_double _ = throw lib.not_double

  abbrev pub required : Option (Json D) → Result (Json D)
  required none = throw lib.missing_key
  required (some value) = ok value

  -- `value.at(key)`
  unfoldable pub at : Text → Json D → Result (Json D)
  unfolding as_object find_field
  at key value = do fields ← as_object value; required (find_field key fields)

  -- `value.to_number<int>()`
  unfoldable pub to_number : Json D → Result ℤ
  to_number (int64 (pos n)) = if ltb n 0x80000000 then ok (pos n) else throw lib.not_exact
  to_number (int64 (negsuc n)) = if ltb n 0x80000000 then ok (negsuc n) else throw lib.not_exact
  to_number (uint64 n) = if ltb n 0x80000000 then ok (pos n) else throw lib.not_exact
  to_number (double d) = elim (lib.to_int d) [ none ↦ throw lib.not_exact | some n ↦ ok n ]
  to_number _ = throw lib.not_exact

-- `text.c_str()` as a `std::string`: what stands before the first zero byte.
unfoldable pub c_str : Text → Text
c_str [] = []
c_str (c ∷ text) = if c == 0 then [] else c ∷ c_str text
