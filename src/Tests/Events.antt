-- ===== src/Tests/Events.antt =====
-- Witnesses for the event queues and the Kafka loop.
use soc_dashboard.Common.{ℕ, ◌≡◌, refl, false, List, [], ◌∷◌, ◌++◌, filter, contains, nat_eq, arith}
use soc_dashboard.Values.{ok, err, attribute_error, null, scalar, object}
use soc_dashboard.Sse.{Event, Sse, publish}
use soc_dashboard.Sse.Delivery.{delivered, has_room, publish_lem}
use soc_dashboard.Sse.Validity.{
  publishing, opening, reading, run, IsValid, run-IsValid, start, start-IsValid,
}
use soc_dashboard.Sse.Dropped.{OnlyRead, publish_drops_full}
use soc_dashboard.Consumer
use soc_dashboard.Consumer.{Polled, nothing, received, tombstone, malformed, decoded}
use soc_dashboard.Consumer.Loop.{bodies, ingest_all, consumer_run_lem, consumer_run_ends}
use soc_dashboard.Tests.Fixtures.{env, world, event, listening}

publish_lem_example :
    ((q : ℕ) → (publish event listening).queues q ≡ delivered event (0 ∷ []) (λ _. []) q)
    × ((publish event listening).subscribers ≡ filter (has_room (λ _. [])) (0 ∷ []))
publish_lem_example = publish_lem event listening (refl, tt)

run-IsValid_example : IsValid (run (opening ∷ publishing event ∷ reading 0 ∷ []) start)
run-IsValid_example = run-IsValid (opening ∷ publishing event ∷ reading 0 ∷ []) start start-IsValid

-- As many events as a queue holds.
abbrev events : ℕ → List Event
events ℕ.zero = []
events (ℕ.suc n) = event ∷ events n

abbrev full : Sse
full = record listening { queues = λ _. events 100 }

full-IsValid : IsValid full
full-IsValid = record {
  distinct = (refl, tt);
  known = λ q m. ground arith;
  bounded = λ q. omega arith;
}

publish_drops_full_example :
    (contains (run (reading 0 ∷ publishing event ∷ []) (publish event full)).subscribers 0 ≡ false)
    × OnlyRead 0 full (run (reading 0 ∷ publishing event ∷ []) (publish event full))
publish_drops_full_example =
    publish_drops_full event 0 full (reading 0 ∷ publishing event ∷ []) full-IsValid refl refl

abbrev polls : List Polled
polls =
    nothing
    ∷ received malformed
    ∷ received (decoded (object []))
    ∷ received (decoded (scalar null))
    ∷ []

consumer_run_lem_example :
    Consumer.run env polls world ≡ (ok tt, ingest_all env (bodies polls) world)
consumer_run_lem_example = consumer_run_lem env polls world (tt, (refl, (refl, (refl, tt))))

consumer_run_ends_example :
    Consumer.run env (polls ++ received tombstone ∷ polls) world
    ≡ (err attribute_error, ingest_all env (bodies polls) world)
consumer_run_ends_example =
    consumer_run_ends env polls polls tombstone attribute_error world
      (tt, (refl, (refl, (refl, tt)))) refl
