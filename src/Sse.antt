-- ===== src/Sse.antt =====
-- `SSEBroker` of src/sse/broker.py. A queue is known by its number, in the order of creation; an
-- unbounded `asyncio.Queue` takes what is put, unless it was shut down. No operation awaits anything
-- between its reads and writes, so each is one step. The text of a message is the JSON of its payload.
pub mod Subscribers
pub mod Clients
pub mod Delivery
use portfolio_cv_project.Common.{
  ℕ, ◌+◌, ◌==◌, Bool, true, false, List, [], ◌∷◌, ◌++◌, any, if◌then◌else◌, Text, ◌≡◌, Result, ok,
  raise, runtime_error,
}

pub record ServerSentEvent : Type 0 where
  pub event : Text
  pub payload : Text

pub record Queue : Type 0 where
  pub items : List ServerSentEvent
  pub is_shut : Bool

pub record Broker : Type 0 where
  pub subscribers : List ℕ
  pub queues : ℕ → Queue
  pub next_queue : ℕ

abbrev pub set_queue : ℕ → Queue → (ℕ → Queue) → ℕ → Queue
set_queue i q queues j = if i == j then q else queues j

abbrev pub is_subscribed : ℕ → List ℕ → Bool
is_subscribed i subscribers = any (λ j. j == i) subscribers

abbrev pub new_queue : Queue
new_queue = record { items = []; is_shut = false }

unfoldable pub connect : Broker → ℕ × Broker
connect b = (
  b.next_queue,
  record {
    subscribers = b.subscribers ++ (b.next_queue ∷ []);
    queues = set_queue b.next_queue new_queue b.queues;
    next_queue = b.next_queue + 1;
  },
)

-- `list.remove`: the first occurrence.
abbrev pub remove : ℕ → List ℕ → List ℕ
remove i [] = []
remove i (j ∷ js) = if j == i then js else j ∷ remove i js

unfoldable pub disconnect : ℕ → Broker → Broker
disconnect i b =
    if is_subscribed i b.subscribers then record b { subscribers = remove i b.subscribers } else b

abbrev pub put : ServerSentEvent → Queue → Result Queue
put m q = if q.is_shut then raise runtime_error else ok (record q { items = q.items ++ (m ∷ []) })

-- The loop of `publish`, over a copy of the subscribers: the queues, and those that raised.
abbrev pub put_all : ServerSentEvent → List ℕ → (ℕ → Queue) → (ℕ → Queue) × List ℕ
put_all m [] queues = (queues, [])
put_all m (i ∷ is) queues = elim (put m (queues i)) [
  | ok q ↦ put_all m is (set_queue i q queues)
  | raise _ ↦ let (queues', dead) = put_all m is queues in (queues', i ∷ dead)
]

unfoldable pub disconnect_all : List ℕ → Broker → Broker
disconnect_all [] b = b
disconnect_all (i ∷ is) b = disconnect_all is (disconnect i b)

unfoldable pub publish : ServerSentEvent → Broker → Broker
publish m b =
    let (queues, dead) = put_all m b.subscribers b.queues in
    disconnect_all dead (record b { queues = queues })

-- What happens to the broker: a client comes, with its queue's number; a message is published; a
-- stream takes the next item of its queue; a stream ends; a queue is shut down.
pub data Action : Type 0 where
  connected : ℕ → Action
  published : ServerSentEvent → Action
  received : ℕ → ServerSentEvent → Action
  disconnected : ℕ → Action
  shut : ℕ → Action

pub data Step : Broker → Action → Broker → Type 0 where
  connects : (b : Broker) → Step b (connected (connect b).0) (connect b).1
  publishes : (m : ServerSentEvent) (b : Broker) → Step b (published m) (publish m b)
  takes :
      (i : ℕ) (m : ServerSentEvent) (rest : List ServerSentEvent) (b : Broker)
      → (b.queues i).items ≡ m ∷ rest
      → Step b (received i m) (record b {
        queues = set_queue i (record { items = rest; is_shut = (b.queues i).is_shut }) b.queues;
      })
  leaves : (i : ℕ) (b : Broker) → Step b (disconnected i) (disconnect i b)
  shuts :
      (i : ℕ) (b : Broker)
      → Step b (shut i) (record b {
        queues = set_queue i (record { items = (b.queues i).items; is_shut = true }) b.queues;
      })

pub data Run : Broker → List Action → Broker → Type 0 where
  stop : (b : Broker) → Run b [] b
  next :
      (b : Broker) (a : Action) (b' : Broker) (later : List Action) (b'' : Broker)
      → Step b a b'
      → Run b' later b''
      → Run b (a ∷ later) b''
