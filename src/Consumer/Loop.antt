-- ===== src/Consumer/Loop.antt =====
-- The consumer's loop against a fold over the bodies that it can ingest.
use soc_dashboard.Common.{
  List, [], ◌∷◌, ◌++◌, ◌≡◌, refl, ap, sym, ◌∙◌, append-nil, Option, none, some, Dict, All, arith,
}
use soc_dashboard.Values.{
  Exn, ok, err, attribute_error, value_error, recursion_error, scalar, object, Value,
}
use soc_dashboard.World.{World, Env, attempt}
use soc_dashboard.Ingest.{kafka_ingest}
use soc_dashboard.Consumer.{
  Message, tombstone, malformed, oversized, too_deep, decoded, Polled, nothing, error_event,
  received, handle, run,
}

-- The bodies of the messages that are JSON objects, in order.
abbrev pub bodies : List Polled → List (Dict Value)
bodies [] = []
bodies (received (decoded (object body)) ∷ rest) = body ∷ bodies rest
bodies (_ ∷ rest) = bodies rest

-- One ingest after the other, each in the world that the last one left, failed or not.
abbrev pub ingest_all : Env → List (Dict Value) → World → World
ingest_all env [] w = w
ingest_all env (body ∷ rest) w = ingest_all env rest (kafka_ingest env body w).1

-- What the decoding of a message raises past the loop, if anything.
abbrev pub escapes : Message → Option Exn
escapes tombstone = some attribute_error
escapes oversized = some value_error
escapes too_deep = some recursion_error
escapes malformed = none
escapes (decoded _) = none

abbrev pub IsReadable : Polled → Type 0
IsReadable (received m) = escapes m ≡ none
IsReadable _ = Unit

step_on :
    (env : Env) (body : Dict Value) (rest : List Polled) (w : World)
    → run env (received (decoded (object body)) ∷ rest) w ≡ run env rest (kafka_ingest env body w).1
unfolding run handle attempt
step_on env body rest w = refl

-- The messages that can be read, and then whatever comes after them.
run-append :
    (env : Env) (before after : List Polled) (w : World)
    → All IsReadable before
    → run env (before ++ after) w ≡ run env after (ingest_all env (bodies before) w)
unfolding run handle
run-append env [] after w h = refl
run-append env (nothing ∷ rest) after w h = run-append env rest after w h.1
run-append env (error_event ∷ rest) after w h = run-append env rest after w h.1
run-append env (received tombstone ∷ rest) after w h = absurd (cc)
run-append env (received oversized ∷ rest) after w h = absurd (cc)
run-append env (received too_deep ∷ rest) after w h = absurd (cc)
run-append env (received malformed ∷ rest) after w h = run-append env rest after w h.1
run-append env (received (decoded (scalar v)) ∷ rest) after w h = run-append env rest after w h.1
run-append env (received (decoded (object body)) ∷ rest) after w h =
    rw (step_on env body (rest ++ after) w) (run-append env rest after _ h.1)

-- Whatever the polls bring, as long as each message has a value, no integer of more than 4300
-- digits and no nesting too deep for the parser: the loop ends by the stop event and no exception,
-- whether the single ingests succeed or raise, and it has ingested the bodies of the JSON objects,
-- each one once and in the order of arrival; everything else was skipped.
pub consumer_run_lem :
    (env : Env) (polls : List Polled) (w : World)
    → All IsReadable polls
    → run env polls w ≡ (ok tt, ingest_all env (bodies polls) w)
unfolding run
consumer_run_lem env polls w h =
    ap (λ ps. run env ps w) (sym (append-nil polls)) ∙ run-append env polls [] w h

stop_at :
    (env : Env) (m : Message) (after : List Polled) (w : World) (e : Exn)
    → escapes m ≡ some e
    → run env (received m ∷ after) w ≡ (err e, w)
unfolding run handle
stop_at env tombstone after w e h = ground arith
stop_at env oversized after w e h = ground arith
stop_at env too_deep after w e h = ground arith
stop_at env malformed after w e h = absurd (cc)
stop_at env (decoded j) after w e h = absurd (cc)

-- A message without a value, with an integer of more than 4300 digits or nested too deep for the
-- parser ends the loop with an exception: the messages before it, none of them of these kinds, are
-- ingested as ever, and none of those that would come after it.
pub consumer_run_ends :
    (env : Env) (before after : List Polled) (m : Message) (e : Exn) (w : World)
    → All IsReadable before
    → escapes m ≡ some e
    → run env (before ++ received m ∷ after) w ≡ (err e, ingest_all env (bodies before) w)
consumer_run_ends env before after m e w h k =
    run-append env before (received m ∷ after) w h ∙ stop_at env m after _ e k
