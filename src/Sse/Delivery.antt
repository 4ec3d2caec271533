-- ===== src/Sse/Delivery.antt =====
-- Which clients get an event, and what stays true of the queues.
use soc_dashboard.Common.{
  ℕ, ◌≡◌, refl, ap, sym, ◌∙◌, Bool, true, false, not, ◌&&◌, List, [], ◌∷◌, ◌++◌, arith, ltb, ◌==◌,
  nat_eq, contains, filter, length, if◌then◌else◌, Bool-cases, inl, inr, append-nil, append_assoc,
}
use soc_dashboard.Sse.{Event, Sse, maxsize, put_nowait, put_all, remove_all, publish}
use soc_dashboard.Sse.Distinct.{Distinct, contains-filter, filter-ext, remove_all-eq-filter}

abbrev pub has_room : (ℕ → List Event) → ℕ → Bool
has_room queues q = ltb (length (queues q)) maxsize

-- The queues after an event was put to those of a list.
abbrev pub delivered : Event → List ℕ → (ℕ → List Event) → ℕ → List Event
delivered event subscribers queues q =
    if contains subscribers q && has_room queues q then queues q ++ event ∷ [] else queues q

put_nowait-eq :
    (event : Event) (x : ℕ) (queues : ℕ → List Event) (q : ℕ)
    → put_nowait event x queues q
      ≡ (if x == q && has_room queues q then queues q ++ event ∷ [] else queues q)
unfolding put_nowait
put_nowait-eq event x queues q = elim (Bool-cases (x == q)) [
  | inl e ↦ let p : x ≡ q = ground arith in rw p (ground arith)
  | inr e ↦ ground arith
]

contains-ne :
    (x q : ℕ) (rest : List ℕ) → contains rest x ≡ false → contains rest q ≡ true → (x == q) ≡ false
contains-ne x q rest fresh m = elim (Bool-cases (x == q)) [
  | inl e ↦ let p : x ≡ q = ground arith in absurd (ground (arith, ap (contains rest) p))
  | inr e ↦ e
]

put_all-queues :
    (event : Event) (rest : List ℕ) (queues : ℕ → List Event) (dead : List ℕ) (q : ℕ)
    → Distinct rest
    → (put_all event rest queues dead).0 q ≡ delivered event rest queues q
unfolding put_all
put_all-queues event [] queues dead q h = refl
put_all-queues event (x ∷ rest) queues dead q h =
    put_all-queues event rest (put_nowait event x queues) _ q h.1
    ∙ ground (arith, put_nowait-eq event x queues q, contains-ne x q rest h.0)

put_all-dead :
    (event : Event) (rest : List ℕ) (queues : ℕ → List Event) (dead : List ℕ)
    → Distinct rest
    → (put_all event rest queues dead).1 ≡ dead ++ filter (λ q. not (has_room queues q)) rest
unfolding put_all
put_all-dead event [] queues dead h = sym (append-nil dead)
put_all-dead event (x ∷ rest) queues dead h =
    let later =
      put_all-dead event rest (put_nowait event x queues)
        (if has_room queues x then dead else dead ++ x ∷ []) h.1 in
    let same =
      filter-ext (λ q. not (has_room (put_nowait event x queues) q)) (λ q. not (has_room queues q))
        rest (λ a m. ground (arith, put_nowait-eq event x queues a, contains-ne x a rest h.0 m)) in
    later
    ∙ rw same
        (ground (arith, append_assoc dead (x ∷ []) (filter (λ q. not (has_room queues q)) rest)))

not_dead :
    (p : ℕ → Bool) (xs : List ℕ) (a : ℕ)
    → contains xs a ≡ true
    → not (contains (filter (λ q. not (p q)) xs) a) ≡ p a
not_dead p xs a m = ground (arith, contains-filter (λ q. not (p q)) xs a)

-- If no client is subscribed twice, an event goes to the end of the queue of each subscriber with
-- room, and no other queue changes; exactly the subscribers without room are dropped, and the
-- others keep their order.
pub publish_lem :
    (event : Event) (s : Sse)
    → Distinct s.subscribers
    → ((q : ℕ) → (publish event s).queues q ≡ delivered event s.subscribers s.queues q)
      × ((publish event s).subscribers ≡ filter (has_room s.queues) s.subscribers)
unfolding publish
publish_lem event s h = (
  λ q. put_all-queues event s.subscribers s.queues [] q h,
  ap (λ dead. remove_all dead s.subscribers) (put_all-dead event s.subscribers s.queues [] h)
      ∙ (remove_all-eq-filter _ s.subscribers h
          ∙ filter-ext _ _ s.subscribers (λ a m. not_dead (has_room s.queues) s.subscribers a m)),
)
