-- ===== src/Sse/Validity.antt =====
-- Any sequence of calls by the handlers and the clients' generators.
use soc_dashboard.Common.{
  ℕ, ◌≤◌, ◌<◌, ◌≡◌, refl, true, false, not, List, [], ◌∷◌, ◌++◌, arith, ◌==◌, nat_eq, contains,
  length, length-append, Bool-cases, inl, inr,
}
use soc_dashboard.Sse.{Event, Sse, maxsize, publish, subscribe, unsubscribe, receive, pop}
use soc_dashboard.Sse.Distinct.{
  Distinct, contains-filter, filter-Distinct, contains-append, remove-eq-filter,
}
use soc_dashboard.Sse.Delivery.{has_room, delivered, publish_lem}

-- A call of `_sse_publish`, the start or the end of a client's stream, or a turn of its loop.
pub data Op : Type 0 where
  publishing : Event → Op
  opening : Op
  closing : ℕ → Op
  reading : ℕ → Op

unfoldable pub step : Op → Sse → Sse
step (publishing event) s = publish event s
step opening s = (subscribe s).1
step (closing q) s = unsubscribe q s
step (reading q) s = (receive q s).1

unfoldable pub run : List Op → Sse → Sse
run [] s = s
run (op ∷ ops) s = run ops (step op s)

-- No client is subscribed twice, references are to queues that were made, no queue holds more
-- than its maximum.
pub record IsValid (s : Sse) : Type 0 where
  pub distinct : Distinct s.subscribers
  pub known : (q : ℕ) → contains s.subscribers q ≡ true → q < s.next_queue
  pub bounded : (q : ℕ) → length (s.queues q) ≤ maxsize

Distinct-append :
    (xs : List ℕ) (q : ℕ) → Distinct xs → contains xs q ≡ false → Distinct (xs ++ q ∷ [])
Distinct-append [] q h fresh = (refl, tt)
Distinct-append (x ∷ xs) q h fresh =
    ground (arith, Distinct-append xs q h.1, contains-append xs (q ∷ []) x)

delivered-bounded :
    (event : Event) (subscribers : List ℕ) (queues : ℕ → List Event) (q : ℕ)
    → length (queues q) ≤ maxsize
    → length (delivered event subscribers queues q) ≤ maxsize
delivered-bounded event subscribers queues q h =
    ground (arith, length-append (queues q) (event ∷ []))

pub next_queue-publish : (event : Event) (s : Sse) → (publish event s).next_queue ≡ s.next_queue
unfolding publish
next_queue-publish event s = refl

fresh : (s : Sse) → IsValid s → contains s.subscribers s.next_queue ≡ false
fresh s v = elim (Bool-cases (contains s.subscribers s.next_queue)) [
  | inl m ↦ absurd (omega (arith, v.known s.next_queue m))
  | inr e ↦ e
]

publish-IsValid : (event : Event) (s : Sse) → IsValid s → IsValid (publish event s)
publish-IsValid event s v =
    let (queues, subscribers) = publish_lem event s v.distinct in
    record {
      distinct = rw subscribers (filter-Distinct _ s.subscribers v.distinct);
      known = λ q m. rw next_queue-publish (
          v.known q (
            ground
              (arith, contains-filter (has_room s.queues) s.subscribers q, rw subscribers at m)));
      bounded = λ q. rw queues (delivered-bounded event s.subscribers s.queues q (v.bounded q));
    }

subscribe-IsValid : (s : Sse) → IsValid s → IsValid (subscribe s).1
unfolding subscribe
subscribe-IsValid s v = record {
  distinct = Distinct-append s.subscribers s.next_queue v.distinct (fresh s v);
  known = λ q m. ground (arith, v.known q, contains-append s.subscribers (s.next_queue ∷ []) q);
  bounded = λ q. ground (arith, v.bounded q);
}

unsubscribe-IsValid : (q : ℕ) (s : Sse) → IsValid s → IsValid (unsubscribe q s)
unfolding unsubscribe
unsubscribe-IsValid q s v = elim (Bool-cases (contains s.subscribers q)) [
  | inr absent ↦ rw absent v
  | inl present ↦
      let removed = remove-eq-filter q s.subscribers v.distinct in
      rw present (record {
        distinct = rw removed (filter-Distinct _ s.subscribers v.distinct);
        known = λ r m.
            v.known r (
              ground (arith, contains-filter (λ a. not (a == q)) s.subscribers r, rw removed at m));
        bounded = v.bounded;
      })
]

pop-le : (events : List Event) → length (pop events).1 ≤ length events
pop-le [] = omega arith
pop-le (event ∷ rest) = omega arith

receive-IsValid : (q : ℕ) (s : Sse) → IsValid s → IsValid (receive q s).1
unfolding receive
receive-IsValid q s v = record {
  distinct = v.distinct;
  known = v.known;
  bounded = λ r. ground (arith, v.bounded r, pop-le (s.queues q), v.bounded q);
}

pub step-IsValid : (op : Op) (s : Sse) → IsValid s → IsValid (step op s)
unfolding step
step-IsValid (publishing event) s v = publish-IsValid event s v
step-IsValid opening s v = subscribe-IsValid s v
step-IsValid (closing q) s v = unsubscribe-IsValid q s v
step-IsValid (reading q) s v = receive-IsValid q s v

-- From a valid state every sequence of calls leads to a valid one: no client is subscribed twice,
-- and no queue holds more than 100 events.
pub run-IsValid : (ops : List Op) (s : Sse) → IsValid s → IsValid (run ops s)
unfolding run
run-IsValid [] s v = v
run-IsValid (op ∷ ops) s v = run-IsValid ops (step op s) (step-IsValid op s v)

-- Before any client has come.
abbrev pub start : Sse
start = record { queues = λ _. []; subscribers = []; next_queue = 0 }

pub start-IsValid : IsValid start
start-IsValid = record { distinct = tt; known = λ q m. absurd (cc); bounded = λ q. omega arith }
