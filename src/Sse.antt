-- ===== src/Sse.antt =====
-- The in-process publish and subscribe of app.py. A `queue.Queue` is an object: the list of
-- subscribers and the client's generator hold references to it, so queues live in a store, and a
-- reference is a number.
pub mod Distinct
pub mod Delivery
pub mod Validity
pub mod Dropped
use soc_dashboard.Common.{
  ℕ, ◌+◌, String, List, [], ◌∷◌, ◌++◌, length, ltb, ◌==◌, nat_eq, contains, if◌then◌else◌,
}

-- The dict that `_insert_alert` and `api_classify` publish; `kind` is its "type".
pub record Event : Type 0 where
  pub kind : String
  pub alert_id : ℕ
  pub severity : String
  pub status : String

pub record Sse : Type 0 where
  pub queues : ℕ → List Event
  pub subscribers : List ℕ
  pub next_queue : ℕ

abbrev pub set_queue : (ℕ → List Event) → ℕ → List Event → ℕ → List Event
set_queue queues q events r = if r == q then events else queues r

-- queue.Queue(maxsize=100)
abbrev pub maxsize : ℕ
maxsize = 100

-- `q.put_nowait(event)`, which raises `queue.Full` and changes nothing if there is no room.
unfoldable pub put_nowait : Event → ℕ → (ℕ → List Event) → ℕ → List Event
put_nowait event q queues =
    if ltb (length (queues q)) maxsize then set_queue queues q (queues q ++ event ∷ []) else queues

-- The first loop of `_sse_publish`, with the queues that were full.
unfoldable pub put_all : Event → List ℕ → (ℕ → List Event) → List ℕ → (ℕ → List Event) × List ℕ
put_all event [] queues dead = (queues, dead)
put_all event (q ∷ rest) queues dead =
    put_all event rest (put_nowait event q queues)
      (if ltb (length (queues q)) maxsize then dead else dead ++ q ∷ [])

-- `_sse_subscribers.remove(q)`, of a queue that is there
unfoldable pub remove : ℕ → List ℕ → List ℕ
remove q [] = []
remove q (s ∷ rest) = if s == q then rest else s ∷ remove q rest

-- The second loop of `_sse_publish`.
unfoldable pub remove_all : List ℕ → List ℕ → List ℕ
unfolding remove
remove_all [] subscribers = subscribers
remove_all (q ∷ dead) subscribers = remove_all dead (remove q subscribers)

-- `_sse_publish` with no Redis
unfoldable pub publish : Event → Sse → Sse
unfolding put_all remove_all
publish event s =
    let (queues, dead) = put_all event s.subscribers s.queues [] in
    record s { queues = queues; subscribers = remove_all dead s.subscribers }

unfoldable pub subscribe : Sse → ℕ × Sse
subscribe s = (
  s.next_queue,
  record {
    queues = set_queue s.queues s.next_queue [];
    subscribers = s.subscribers ++ s.next_queue ∷ [];
    next_queue = s.next_queue + 1;
  },
)

unfoldable pub unsubscribe : ℕ → Sse → Sse
unfolding remove
unsubscribe q s =
    if contains s.subscribers q then record s { subscribers = remove q s.subscribers } else s

-- What one turn of the generator's loop sends: `q.get(timeout=30)`, or a keepalive if nothing came.
pub data Frame : Type 0 where
  message : Event → Frame
  keepalive : Frame

abbrev pub pop : List Event → Frame × List Event
pop [] = (keepalive, [])
pop (event ∷ rest) = (message event, rest)

unfoldable pub receive : ℕ → Sse → Frame × Sse
receive q s =
    let (frame, rest) = pop (s.queues q) in (frame, record s { queues = set_queue s.queues q rest })
