-- ===== src/Config.antt =====
-- src/main.cpp: the values that it reads from the environment, and the threads of the HTTP server
-- (src/HttpServer.cpp) that they decide.
pub mod Numbers
use memory_atlas_server.Prelude.{
  ℕ, ◌+◌, ◌-◌, ◌*◌, ◌%◌, List, [], ◌∷◌, Bool, true, false, not, ◌&&◌, ◌==◌, ltb, leb, if◌then◌else◌,
  Option, none, some, Text, utf8, ℤ, pos, negsuc,
}
use memory_atlas_server.Sessions.Words.{skip_spaces}

-- What `std::stoi` does: a value, or one of its two exceptions.
pub data Stoi : Type 0 where
  value : ℤ → Stoi
  invalid_argument out_of_range : Stoi

abbrev pub is_digit : ℕ → Bool
is_digit c = leb b'0' c && leb c b'9'

-- The value of the digits at the start of the text, behind those already read.
unfoldable pub digits_value : ℕ → Text → ℕ
digits_value n [] = n
digits_value n (c ∷ text) =
    let rest = digits_value (n * 10 + (c - b'0')) text in if is_digit c then rest else n

abbrev pub starts_with_digit : Text → Bool
starts_with_digit [] = false
starts_with_digit (c ∷ text) = is_digit c

abbrev pub int_max : ℕ
int_max = 0x7fffffff

unfoldable pub positive_value : Text → Stoi
positive_value text =
    if not (starts_with_digit text)
    then invalid_argument
    else if ltb int_max (digits_value 0 text)
    then out_of_range
    else value (pos (digits_value 0 text))

unfoldable pub negative_value : Text → Stoi
negative_value text =
    let n = digits_value 0 text in
    if not (starts_with_digit text)
    then invalid_argument
    else if ltb (int_max + 1) n
    then out_of_range
    else if n == 0
    then value (pos 0)
    else value (negsuc (n - 1))

-- Behind the spaces: a sign, and digits.
unfoldable pub signed_value : Text → Stoi
unfolding positive_value negative_value
signed_value [] = invalid_argument
signed_value (c ∷ text) =
    if c == b'-'
    then negative_value text
    else if c == b'+'
    then positive_value text
    else positive_value (c ∷ text)

-- `std::stoi` of a text, with `int` on 32 bits.
unfoldable pub stoi : Text → Stoi
unfolding signed_value
stoi text = signed_value (skip_spaces text)

-- Why a port is refused.
pub data PortError : Type 0 where
  out_of_port_range not_an_integer out_of_integer_range : PortError

pub data Port : Type 0 where
  port : ℕ → Port
  refused : PortError → Port

unfoldable pub port_of : Stoi → Port
port_of (value (pos n)) =
    if ltb 0 n && leb n 65535 then port (n % 65536) else refused out_of_port_range
port_of (value (negsuc n)) = refused out_of_port_range
port_of invalid_argument = refused not_an_integer
port_of out_of_range = refused out_of_integer_range

-- The argument is the value of the variable, if it is set.
unfoldable pub get_required_port_env_var : Option Text → ℕ → Port
unfolding port_of stoi
get_required_port_env_var none default_port = port default_port
get_required_port_env_var (some text) default_port = port_of (stoi text)

unfoldable pub get_env_var : Option Text → Text → Text
get_env_var none default_value = default_value
get_env_var (some text) default_value = text

unfoldable pub int_or : ℤ → Stoi → ℤ
int_or default_value (value n) = n
int_or default_value invalid_argument = default_value
int_or default_value out_of_range = default_value

unfoldable pub get_int_env_var : Option Text → ℤ → ℤ
unfolding int_or stoi
get_int_env_var none default_value = default_value
get_int_env_var (some text) default_value = int_or default_value (stoi text)

pub record Settings : Type 0 where
  pub http_port : ℕ
  pub http_bind_ip : Text
  pub http_threads : ℤ
  pub ws_port : ℕ

pub data Configured : Type 0 where
  configured : Settings → Configured
  stopped : PortError → Configured

unfoldable pub with_ports : Text → ℤ → Port → Port → Configured
with_ports bind_ip threads (refused error) ws = stopped error
with_ports bind_ip threads (port http) (refused error) = stopped error
with_ports bind_ip threads (port http) (port ws) =
    configured
      (record { http_port = http; http_bind_ip = bind_ip; http_threads = threads; ws_port = ws })

-- The settings that `main` reads; an exception ends the program.
unfoldable pub read_settings : (Text → Option Text) → Configured
unfolding with_ports get_required_port_env_var get_env_var get_int_env_var
read_settings getenv =
    with_ports (get_env_var (getenv (utf8 "HTTP_BIND_IP")) (utf8 "0.0.0.0"))
      (get_int_env_var (getenv (utf8 "HTTP_THREADS")) (pos 1))
      (get_required_port_env_var (getenv (utf8 "HTTP_PORT")) 8080)
      (get_required_port_env_var (getenv (utf8 "WS_PORT")) 33334)

-- `HttpServer::HttpServer`: the concurrency hint of its `io_context`.
unfoldable pub concurrency_hint : ℤ → ℕ
concurrency_hint (pos n) = if ltb 0 n then n else 1
concurrency_hint (negsuc n) = 1

-- `HttpServer::run`: the number of its threads, with what the system says of its own number.
unfoldable pub hardware_or_two : ℕ → ℕ
hardware_or_two hardware_threads = if ltb 0 hardware_threads then hardware_threads else 2

unfoldable pub thread_count : ℕ → ℤ → ℕ
unfolding hardware_or_two
thread_count hardware_threads (pos n) = if ltb 0 n then n else hardware_or_two hardware_threads
thread_count hardware_threads (negsuc n) = hardware_or_two hardware_threads
