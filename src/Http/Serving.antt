-- ===== src/Http/Serving.antt =====
-- A session answers each request, once and in order.
use memory_atlas_server.Prelude.{
  List, [], ◌∷◌, ◌++◌, Bool, true, Option, none, some, some-injective, ◌≡◌, refl, sym, ap, ◌∙◌,
  append_assoc, append-nil, arith,
}
use memory_atlas_server.Http.Routing.{Routes, route-Routes}
use memory_atlas_server.Http.{
  Response, Services, Phase, reads, writes, closed, HttpSession, Event, received, stream_ended,
  read_failed, written, write_failed, route, send_response, on_read, on_write, do_close, step, run,
}

-- The answers that the requests among the events ask for, with the header fields of CORS.
abbrev pub answers : Services → List Event → List Response
answers services [] = []
answers services (received req ∷ events) =
    record (route services req) { allows_any_origin = true } ∷ answers services events
answers services (stream_ended ∷ events) = answers services events
answers services (read_failed ∷ events) = answers services events
answers services (written ∷ events) = answers services events
answers services (write_failed ∷ events) = answers services events

step-responses :
    (need_eof : Response → Bool) (services : Services) (phase : Phase) (event : Event)
    (s s' : HttpSession)
    → step need_eof services phase event s ≡ some s'
    → s'.responses ≡ s.responses ++ answers services (event ∷ [])
unfolding step on_read on_write do_close send_response
step-responses need_eof services reads (received req) s s' e =
    ap (λ r. r.responses) (sym (some-injective _ _ e))
step-responses need_eof services reads stream_ended s s' e = ground (arith, append-nil s.responses)
step-responses need_eof services reads read_failed s s' e = ground (arith, append-nil s.responses)
step-responses need_eof services reads written s s' e = ground arith
step-responses need_eof services reads write_failed s s' e = ground arith
step-responses need_eof services (writes res) (received req) s s' e = ground arith
step-responses need_eof services (writes res) stream_ended s s' e = ground arith
step-responses need_eof services (writes res) read_failed s s' e = ground arith
step-responses need_eof services (writes res) written s s' e =
    ground (arith, append-nil s.responses)
step-responses need_eof services (writes res) write_failed s s' e =
    ground (arith, append-nil s.responses)
step-responses need_eof services closed event s s' e = ground arith

answers-cons :
    (services : Services) (event : Event) (events : List Event)
    → answers services (event ∷ events) ≡ answers services (event ∷ []) ++ answers services events
answers-cons services (received req) events = refl
answers-cons services stream_ended events = refl
answers-cons services read_failed events = refl
answers-cons services written events = refl
answers-cons services write_failed events = refl

run_step-responses :
    (need_eof : Response → Bool) (services : Services) (event : Event) (events : List Event)
    (s s' : HttpSession) (o : Option HttpSession)
    → ((t : HttpSession) → o ≡ some t → t.responses ≡ s.responses ++ answers services (event ∷ []))
    → ((t : HttpSession)
        → run need_eof services events t ≡ some s'
        → s'.responses ≡ t.responses ++ answers services events)
    → elim o [ none ↦ none | some t ↦ run need_eof services events t ] ≡ some s'
    → s'.responses ≡ s.responses ++ answers services (event ∷ events)
run_step-responses need_eof services event events s s' none h k e = ground arith
run_step-responses need_eof services event events s s' (some t) h k e =
    k t e
    ∙ (ap (λ r. r ++ answers services events) (h t refl)
        ∙ (append_assoc s.responses (answers services (event ∷ [])) (answers services events)
            ∙ ap (λ r. s.responses ++ r) (sym (answers-cons services event events))))

run-answers :
    (need_eof : Response → Bool) (services : Services) (events : List Event) (s s' : HttpSession)
    → run need_eof services events s ≡ some s'
    → s'.responses ≡ s.responses ++ answers services events
unfolding run
run-answers need_eof services [] s s' e = ground (arith, append-nil s.responses)
run-answers need_eof services (event ∷ events) s s' e =
    run_step-responses need_eof services event events s s' (step need_eof services s.phase event s)
      (λ t f. step-responses need_eof services s.phase event s t f)
      (λ t f. run-answers need_eof services events t s' f) e

-- In every sequence of completed reads and writes that an HTTP session can take, the responses
-- handed to the socket are the answers of the requests received, one for each and in their order,
-- each with the CORS header fields. The two searches are reached by POST, and by GET the details
-- and the photo of a name, the empty name being answered with 400, and the health; OPTIONS is
-- answered with 204 for every path, and a method of another kind with 200 for the status and with
-- 404 for any other path.
pub run-responses :
    (need_eof : Response → Bool) (services : Services) (events : List Event) (s s' : HttpSession)
    → run need_eof services events s ≡ some s'
    → (s'.responses ≡ s.responses ++ answers services events) × Routes services
run-responses need_eof services events s s' e =
    (run-answers need_eof services events s s' e, route-Routes services)
