-- ===== src/Consumer.antt =====
-- `KafkaAlertConsumer` of kafka/consumer.py. What `poll` brings, round by round, until the stop
-- event is found set, is an explicit list.
pub mod Loop
use soc_dashboard.Common.{List, [], ◌∷◌}
use soc_dashboard.Values.{
  attribute_error, value_error, recursion_error, Json, scalar, object, Value,
}
use soc_dashboard.World.{Env, App, pure, raise, ◌>>=◌, ◌>>◌, attempt}
use soc_dashboard.Common.{Dict}
use soc_dashboard.Ingest.{kafka_ingest}

-- `msg.value()`: a tombstone has none; `malformed` is what json.loads or the decoding refuses with
-- a JSONDecodeError or a UnicodeDecodeError; on an `oversized` one (an integer of more than 4300
-- digits) it raises a plain ValueError, on a `too_deep` one a RecursionError. Running
-- out of memory is left out.
pub data Message : Type 0 where
  tombstone malformed oversized too_deep : Message
  decoded : Json → Message

-- What one `poll(timeout=1.0)` brings; both kinds of error event (the end of a partition, or
-- another) only differ in a log line.
pub data Polled : Type 0 where
  nothing error_event : Polled
  received : Message → Polled

-- `_handle`, with `_ingest_fn` as app.py injects it; its first `except` takes two exceptions only.
unfoldable pub handle : Env → Message → App (Unit {0})
handle env tombstone = raise attribute_error
handle env malformed = pure tt
handle env oversized = raise value_error
handle env too_deep = raise recursion_error
handle env (decoded (scalar _)) = pure tt
handle env (decoded (object body)) = attempt (kafka_ingest env body)

-- The loop of `_run`; an exception leaves it, and closes the consumer.
unfoldable pub run : Env → List Polled → App (Unit {0})
run env [] = pure tt
run env (nothing ∷ rest) = run env rest
run env (error_event ∷ rest) = run env rest
run env (received message ∷ rest) = do handle env message; run env rest
