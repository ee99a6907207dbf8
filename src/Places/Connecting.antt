-- ===== src/Places/Connecting.antt =====
-- The connection is tried three times at most, whatever the error.
use memory_atlas_server.Prelude.{
  ℕ, suc, ◌+◌, ◌-◌, ◌*◌, ◌<◌, ◌≤◌, leb, List, [], ◌∷◌, Bool, true, false, ◌||◌, if◌then◌else◌, ◌≡◌,
  refl, ◌∙◌, ap, arith, Option, none, some, Text,
}
use memory_atlas_server.Places.Connection.{
  Attempt, connects, refused, throws, Loop, connected, gave_up, max_retries, on_exception,
  connect_loop,
}

abbrev pub is_connected : Attempt → Bool
is_connected connects = true
is_connected (refused value message) = false
is_connected (throws what) = false

-- The text of the failure, if the round failed.
abbrev pub failure : Attempt → Text
failure connects = []
failure (refused value message) = message
failure (throws what) = what

abbrev pub total : List ℕ → ℕ
total [] = 0
total (n ∷ ns) = n + total ns

abbrev after : ℕ → Attempt → Loop → Loop
after retry_count connects next = connected
after retry_count (refused value message) next = if leb 2 retry_count then gave_up message else next
after retry_count (throws what) next = if leb 2 retry_count then gave_up what else next

abbrev stored : Attempt → Option Text → Option Text
stored connects last_error = last_error
stored (refused value message) last_error = some message
stored (throws what) last_error = last_error

-- One round, at each of the three retry counts.
round_outcome :
    (remaining : ℕ) (attempt : ℕ → Attempt) (last_error : Option Text) (a : Attempt)
    → remaining < 3
    → attempt (2 - remaining) ≡ a
    → (connect_loop (suc remaining) attempt last_error).0
      ≡ after (2 - remaining) a (connect_loop remaining attempt (stored a last_error)).0
unfolding connect_loop on_exception
round_outcome remaining attempt last_error connects h e = ground arith
round_outcome remaining attempt last_error (refused v m) h e = ground arith
round_outcome remaining attempt last_error (throws w) h e = ground arith

round_sleeps :
    (remaining : ℕ) (attempt : ℕ → Attempt) (last_error : Option Text) (a : Attempt)
    → remaining < 3
    → attempt (2 - remaining) ≡ a
    → total (connect_loop (suc remaining) attempt last_error).1
      ≤ (if leb 2 (2 - remaining) then 0 else 100 * (3 - remaining))
        + total (connect_loop remaining attempt (stored a last_error)).1
unfolding connect_loop on_exception
round_sleeps remaining attempt last_error connects h e = ground arith
round_sleeps remaining attempt last_error (refused v m) h e = ground arith
round_sleeps remaining attempt last_error (throws w) h e = ground arith

outcomes :
    (a b c : Attempt) (l : Loop)
    → after 0 a (after 1 b (after 2 c l)) ≡ (
        if is_connected a || is_connected b || is_connected c
        then connected
        else gave_up (failure c))
outcomes connects b c l = refl
outcomes (refused v m) connects c l = refl
outcomes (refused v m) (refused w n) connects l = refl
outcomes (refused v m) (refused w n) (refused x o) l = refl
outcomes (refused v m) (refused w n) (throws o) l = refl
outcomes (refused v m) (throws n) connects l = refl
outcomes (refused v m) (throws n) (refused x o) l = refl
outcomes (refused v m) (throws n) (throws o) l = refl
outcomes (throws m) connects c l = refl
outcomes (throws m) (refused w n) connects l = refl
outcomes (throws m) (refused w n) (refused x o) l = refl
outcomes (throws m) (refused w n) (throws o) l = refl
outcomes (throws m) (throws n) connects l = refl
outcomes (throws m) (throws n) (refused x o) l = refl
outcomes (throws m) (throws n) (throws o) l = refl

-- Whatever the rounds of the connect loop meet, the loop ends within three: connected exactly
-- where one of them connects, and otherwise with the exception of the third and not by its
-- condition; and it sleeps for 300 milliseconds at most.
pub connect_loop_lem :
    (attempt : ℕ → Attempt)
    → let (outcome, sleeps) = connect_loop max_retries attempt none in
      (outcome ≡ (
        if is_connected (attempt 0) || is_connected (attempt 1) || is_connected (attempt 2)
        then connected
        else gave_up (failure (attempt 2))))
      × (total sleeps ≤ 300)
connect_loop_lem attempt = (
  round_outcome 2 attempt none (attempt 0) (omega arith) refl
      ∙ (ap (after 0 (attempt 0)) (round_outcome 1 attempt s₁ (attempt 1) (omega arith) refl)
          ∙ (ap (λ l. after 0 (attempt 0) (after 1 (attempt 1) l))
                (round_outcome 0 attempt s₂ (attempt 2) (omega arith) refl)
              ∙ outcomes (attempt 0) (attempt 1) (attempt 2) (connect_loop 0 attempt s₃).0)),
  omega (
    arith,
    round_sleeps 2 attempt none (attempt 0) (omega arith) refl,
    round_sleeps 1 attempt s₁ (attempt 1) (omega arith) refl,
    round_sleeps 0 attempt s₂ (attempt 2) (omega arith) refl,
    no_rounds s₃,
  ),
)
  where
    s₁ : Option Text
    s₁ = stored (attempt 0) none

    s₂ : Option Text
    s₂ = stored (attempt 1) s₁

    s₃ : Option Text
    s₃ = stored (attempt 2) s₂

    no_rounds : (l : Option Text) → total (connect_loop 0 attempt l).1 ≡ 0
    no_rounds l = unfold connect_loop in refl
