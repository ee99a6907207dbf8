-- ===== src/Config/Numbers.antt =====
-- What the settings can be, and that numbers printed in decimal are read back.
use memory_atlas_server.Prelude.{
  ℕ, zero, suc, ◌+◌, ◌*◌, ◌/◌, ◌%◌, ◌<◌, ◌≤◌, [], ◌∷◌, ◌++◌, ◌&&◌, true, false, ltb, leb,
  if◌then◌else◌, Option, none, some, Text, ◌≡◌, refl, ◌∙◌, sym, arith, ℤ, pos, negsuc,
}
use memory_atlas_server.Chat.Rooms.{digits_from, to_string}
use memory_atlas_server.Chat.Nicknames.{is_space}
use memory_atlas_server.Sessions.Words.{skip_spaces}
use memory_atlas_server.Config.{
  out_of_integer_range, Stoi, value, invalid_argument, out_of_range, digits_value,
  starts_with_digit, int_max, positive_value, signed_value, stoi, Port, port, refused,
  out_of_port_range, get_required_port_env_var, port_of, Settings, configured, with_ports,
  read_settings, thread_count, concurrency_hint, hardware_or_two,
}

abbrev pub IsValidPort : ℕ → Type 0
IsValidPort n = (0 < n) × (n ≤ 65535)

port_of-valid : (s : Stoi) (n : ℕ) → port_of s ≡ port n → IsValidPort n
unfolding port_of
port_of-valid (value (pos k)) n e = ground arith
port_of-valid (value (negsuc k)) n e = ground arith
port_of-valid invalid_argument n e = ground arith
port_of-valid out_of_range n e = ground arith

-- A port that is read lies in the range, if the default does.
port-IsValidPort :
    (o : Option Text) (default n : ℕ)
    → IsValidPort default
    → get_required_port_env_var o default ≡ port n
    → IsValidPort n
unfolding get_required_port_env_var
port-IsValidPort none default n h e = ground arith
port-IsValidPort (some text) default n h e = port_of-valid (stoi text) n e

with_ports-valid :
    (ip : Text) (threads : ℤ) (http ws : Port) (s : Settings)
    → with_ports ip threads http ws ≡ configured s
    → (http ≡ port s.http_port) × (ws ≡ port s.ws_port)
unfolding with_ports
with_ports-valid ip threads (refused error) ws s e = ground arith
with_ports-valid ip threads (port h) (refused error) s e = ground arith
with_ports-valid ip threads (port h) (port w) s e = (cc, cc)

pub thread_count-pos : (h : ℕ) (n : ℤ) → 0 < thread_count h n
unfolding thread_count hardware_or_two
thread_count-pos h (pos n) = ground arith
thread_count-pos h (negsuc n) = ground arith

concurrency_hint-pos : (n : ℤ) → 0 < concurrency_hint n
unfolding concurrency_hint
concurrency_hint-pos (pos n) = ground arith
concurrency_hint-pos (negsuc n) = ground arith

-- Whatever the environment holds, where the settings are read both ports lie between 1 and 65535,
-- and the HTTP server has at least one thread and a concurrency hint of at least one.
pub read_settings-ports :
    (getenv : Text → Option Text) (s : Settings) (hardware_threads : ℕ)
    → read_settings getenv ≡ configured s
    → IsValidPort s.http_port
      × IsValidPort s.ws_port
      × (0 < thread_count hardware_threads s.http_threads)
      × (0 < concurrency_hint s.http_threads)
unfolding read_settings
read_settings-ports getenv s hardware_threads e =
    let (h, w) = with_ports-valid _ _ _ _ s e in
    (
      port-IsValidPort _ 8080 _ (omega arith) h,
      port-IsValidPort _ 33334 _ (omega arith) w,
      thread_count-pos hardware_threads s.http_threads,
      concurrency_hint-pos s.http_threads,
    )

abbrev pow : ℕ → ℕ
pow zero = 1
pow (suc f) = 10 * pow f

-- The digits of a number with enough fuel are read back, before what stands behind them.
digits_value-digits_from :
    (f n : ℕ) (rest : Text)
    → n < pow (suc f)
    → digits_value 0 (digits_from (suc f) n rest) ≡ digits_value n rest
unfolding digits_value digits_from
digits_value-digits_from zero n rest h = ground arith
digits_value-digits_from (suc f) n rest h =
    ground (arith, digits_value-digits_from f (n / 10) ((b'0' + n % 10) ∷ rest) (omega arith))

starts-digits_from :
    (f n : ℕ) (rest : Text)
    → starts_with_digit rest ≡ true
    → starts_with_digit (digits_from f n rest) ≡ true
unfolding digits_from
starts-digits_from zero n rest h = h
starts-digits_from (suc f) n rest h =
    ground (arith, starts-digits_from f (n / 10) ((b'0' + n % 10) ∷ rest))

-- A text that starts with a digit has no space and no sign before it.
stoi-digits : (text : Text) → starts_with_digit text ≡ true → stoi text ≡ positive_value text
unfolding stoi signed_value skip_spaces is_space
stoi-digits [] h = ground arith
stoi-digits (c ∷ text) h = ground arith

digits_from-append :
    (f n : ℕ) (acc rest : Text) → digits_from f n (acc ++ rest) ≡ digits_from f n acc ++ rest
unfolding digits_from
digits_from-append zero n acc rest = refl
digits_from-append (suc f) n acc rest =
    ground (arith, digits_from-append f (n / 10) ((b'0' + n % 10) ∷ acc) rest)

starts-to_string : (n : ℕ) (rest : Text) → starts_with_digit (digits_from 20 n rest) ≡ true
unfolding digits_from
starts-to_string n rest = ground (arith, starts-digits_from 19 (n / 10) ((b'0' + n % 10) ∷ rest))

digits_value-end : (n : ℕ) (rest : Text) → starts_with_digit rest ≡ false → digits_value n rest ≡ n
unfolding digits_value
digits_value-end n [] h = refl
digits_value-end n (c ∷ rest) h = ground arith

to_string-append : (n : ℕ) (rest : Text) → to_string n ++ rest ≡ digits_from 20 n rest
unfolding to_string
to_string-append n rest = sym (digits_from-append 20 n [] rest)

read_back :
    (n : ℕ) (rest : Text)
    → n < pow 20
    → starts_with_digit rest ≡ false
    → digits_value 0 (digits_from 20 n rest) ≡ n
read_back n rest b h = digits_value-digits_from 19 n rest b ∙ digits_value-end n rest h

-- What is printed in decimal is read again, where an `int` can hold it.
pub stoi-to_string :
    (n : ℕ) (rest : Text)
    → n < 10000000000
    → starts_with_digit rest ≡ false
    → stoi (to_string n ++ rest) ≡ (if leb n int_max then value (pos n) else out_of_range)
unfolding positive_value
stoi-to_string n rest b h = rw (to_string-append n rest) (
    stoi-digits (digits_from 20 n rest) (starts-to_string n rest)
    ∙ rw (starts-to_string n rest, read_back n rest (omega arith) h) (ground arith))

-- A number below ten billion that is printed in decimal, with anything behind it that does not
-- start with a digit, is read as that port where it lies between 1 and 65535, and refused
-- otherwise: as out of the range of ports, or of integers.
pub port-to_string :
    (n default : ℕ) (rest : Text)
    → n < 10000000000
    → starts_with_digit rest ≡ false
    → get_required_port_env_var (some (to_string n ++ rest)) default ≡ (
        if leb n int_max
        then (if ltb 0 n && leb n 65535 then port n else refused out_of_port_range)
        else refused out_of_integer_range)
unfolding get_required_port_env_var port_of
port-to_string n default rest b h = rw (stoi-to_string n rest b h) (ground arith)
