-- ===== src/Places/Connection.antt =====
-- src/handlers/PlacesApiHandler.cpp, `requestGooglePlacesApi`: the loop that connects to the API.
use memory_atlas_server.Prelude.{
  ℕ, zero, suc, ◌+◌, ◌-◌, ◌*◌, List, [], ◌∷◌, ◌&&◌, ◌==◌, ltb, leb, if◌then◌else◌, Option, some,
  Text,
}

-- What one round meets: `connect` succeeded, or left an error with this value and text, or an
-- exception was thrown.
pub data Attempt : Type 0 where
  connects : Attempt
  refused : ℕ → Text → Attempt
  throws : Text → Attempt

-- How the loop ends: connected, an exception that leaves it, or its condition is false, with the
-- error that was stored last.
pub data Loop : Type 0 where
  connected : Loop
  gave_up : Text → Loop
  ran_out : Option Text → Loop

abbrev pub max_retries : ℕ
max_retries = 3

-- The handler of the exceptions in the loop: `rest` is what the next rounds do.
unfoldable pub on_exception : ℕ → Text → Loop × List ℕ → Loop × List ℕ
on_exception retry_count what rest =
    if leb (max_retries - 1) retry_count then (gave_up what, []) else rest

-- The `while` loop with `retry_count = max_retries - remaining`, and the milliseconds that it
-- sleeps. `attempt` says what the round with this retry count meets.
unfoldable pub connect_loop : ℕ → (ℕ → Attempt) → Option Text → Loop × List ℕ
connect_loop zero attempt last_error = (ran_out last_error, [])
connect_loop (suc remaining) attempt last_error =
    let retry_count = max_retries - suc remaining in
    elim (attempt retry_count) [
      | connects ↦ (connected, [])
      | refused value message ↦
          let rest = connect_loop remaining attempt (some message) in
          if value == 99 && ltb retry_count (max_retries - 1)
          then (rest.0, 100 * (retry_count + 1) ∷ rest.1)
          else on_exception retry_count message rest
      | throws what ↦ on_exception retry_count what (connect_loop remaining attempt last_error)
    ]
