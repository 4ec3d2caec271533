-- ===== src/Sse/Dropped.antt =====
-- A client whose queue was full is dropped, and its stream goes on without events.
use soc_dashboard.Common.{
  ℕ, ◌<◌, ◌≡◌, refl, ap, sym, ◌∙◌, true, false, not, List, [], ◌∷◌, ◌++◌, arith, ◌==◌, nat_eq,
  contains, length, Bool-cases, inl, inr, append_assoc,
}
use soc_dashboard.Sse.{Event, Sse, maxsize, publish, subscribe, unsubscribe, receive, pop}
use soc_dashboard.Sse.Distinct.{contains-filter, contains-append, remove-eq-filter}
use soc_dashboard.Sse.Delivery.{has_room, publish_lem}
use soc_dashboard.Sse.Validity.{
  Op, publishing, opening, closing, reading, step, run, IsValid, step-IsValid, next_queue-publish,
}

-- A client that was dropped, or whose stream has ended.
pub record IsDropped (q : ℕ) (s : Sse) : Type 0 where
  pub absent : contains s.subscribers q ≡ false
  pub made : q < s.next_queue

-- What was read from a queue in between; nothing was added.
abbrev pub OnlyRead : ℕ → Sse → Sse → Type 0
OnlyRead q s s' = (seen : List Event) × (s.queues q ≡ seen ++ s'.queues q)

pop-OnlyRead : (events : List Event) → (seen : List Event) × (events ≡ seen ++ (pop events).1)
pop-OnlyRead [] = ([], refl)
pop-OnlyRead (event ∷ rest) = (event ∷ [], refl)

module _ (q : ℕ) (s : Sse) (v : IsValid s) (d : IsDropped q s) where
  publish-IsDropped :
      (event : Event) → IsDropped q (publish event s) × OnlyRead q s (publish event s)
  publish-IsDropped event =
      let (queues, subscribers) = publish_lem event s v.distinct in
      (
        record {
          absent =
              rw subscribers
                (ground (arith, d.absent, contains-filter (has_room s.queues) s.subscribers q));
          made = rw next_queue-publish d.made;
        },
        ([], sym (queues q ∙ ground (arith, d.absent))),
      )

  subscribe-IsDropped : IsDropped q (subscribe s).1 × OnlyRead q s (subscribe s).1
  unfolding subscribe
  subscribe-IsDropped = (
    record {
      absent =
          ground (arith, d.absent, d.made, contains-append s.subscribers (s.next_queue ∷ []) q);
      made = omega (arith, d.made);
    },
    ([], ground (arith, d.made)),
  )

  unsubscribe-IsDropped : (r : ℕ) → IsDropped q (unsubscribe r s) × OnlyRead q s (unsubscribe r s)
  unfolding unsubscribe
  unsubscribe-IsDropped r = elim (Bool-cases (contains s.subscribers r)) [
    | inr unknown ↦ rw unknown (d, ([], refl))
    | inl here ↦ rw here (
      record {
        absent =
            rw (remove-eq-filter r s.subscribers v.distinct)
              (ground (arith, d.absent, contains-filter (λ a. not (a == r)) s.subscribers q));
        made = d.made;
      },
      ([], refl),
    )
  ]

  receive-IsDropped : (r : ℕ) → IsDropped q (receive r s).1 × OnlyRead q s (receive r s).1
  unfolding receive
  receive-IsDropped r = (
    record { absent = d.absent; made = d.made },
    elim (Bool-cases (q == r)) [
      | inl same ↦ rw same (let e : q ≡ r = ground arith in rw e (pop-OnlyRead (s.queues r)))
      | inr other ↦ rw other ([], refl)
    ],
  )

  step-IsDropped : (op : Op) → IsDropped q (step op s) × OnlyRead q s (step op s)
  unfolding step
  step-IsDropped (publishing event) = publish-IsDropped event
  step-IsDropped opening = subscribe-IsDropped
  step-IsDropped (closing r) = unsubscribe-IsDropped r
  step-IsDropped (reading r) = receive-IsDropped r

pub run-IsDropped :
    (ops : List Op) (q : ℕ) (s : Sse)
    → IsValid s
    → IsDropped q s
    → IsDropped q (run ops s) × OnlyRead q s (run ops s)
unfolding run
run-IsDropped [] q s v d = (d, ([], refl))
run-IsDropped (op ∷ ops) q s v d =
    let (d', (seen, e)) = step-IsDropped q s v d op in
    let (d'', (more, e')) = run-IsDropped ops q (step op s) (step-IsValid op s v) d' in
    (d'', (seen ++ more, e ∙ (ap (λ rest. seen ++ rest) e' ∙ sym (append_assoc seen more _))))

step-IsValid-publish : (event : Event) (s : Sse) → IsValid s → IsValid (publish event s)
unfolding step
step-IsValid-publish event s v = step-IsValid (publishing event) s v

-- An event that meets a subscriber with a full queue drops it for good: whatever is called
-- afterwards, it is not subscribed, and all that its stream can still send are the events that
-- were pending before, in their order.
pub publish_drops_full :
    (event : Event) (q : ℕ) (s : Sse) (ops : List Op)
    → IsValid s
    → contains s.subscribers q ≡ true
    → length (s.queues q) ≡ maxsize
    → (contains (run ops (publish event s)).subscribers q ≡ false)
      × OnlyRead q s (run ops (publish event s))
publish_drops_full event q s ops v here full =
    let (queues, subscribers) = publish_lem event s v.distinct in
    let dropped : IsDropped q (publish event s) = record {
      absent =
          rw subscribers
            (ground (arith, full, contains-filter (has_room s.queues) s.subscribers q));
      made = rw next_queue-publish (v.known q here);
    } in
    let (gone, (seen, e)) =
      run-IsDropped ops q (publish event s) (step-IsValid-publish event s v) dropped in
    (gone.absent, (seen, sym (queues q ∙ ground (arith, full)) ∙ e))
