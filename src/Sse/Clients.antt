-- ===== src/Sse/Clients.antt =====
-- What the broker is for one client: a machine of its own, on which the other clients have no effect.
use portfolio_cv_project.Common.{
  ℕ, ◌+◌, ◌<◌, ◌==◌, Bool, true, false, not, ◌&&◌, ◌||◌, List, [], ◌∷◌, ◌++◌, if◌then◌else◌, ◌≡◌,
  refl, ap, ◌∙◌, inl, inr, All-append, arith, Bool-cases, ==→eq,
}
use portfolio_cv_project.Sse.{
  ServerSentEvent, Queue, Broker, set_queue, is_subscribed, new_queue, connect, disconnect, put_all,
  publish, Action, connected, published, received, disconnected, shut, Step, connects, publishes,
  takes, leaves, shuts, Run, stop, next,
}
use portfolio_cv_project.Sse.Subscribers.{
  IsSound, is_subscribed-append, Distinct-append, below-suc, is_subscribed-disconnect,
  disconnect-queues, disconnect-IsSound, disconnect_all-client, after_put, put_all-queue,
}

pub record Client : Type 0 where
  pub is_connected : Bool
  pub queue : Queue

abbrev pub rest_of : List ServerSentEvent → List ServerSentEvent
rest_of [] = []
rest_of (m ∷ ms) = ms

-- The promise to one client: it starts with an empty queue, gets every message while it is connected,
-- in order and once, and loses its place when it leaves, or when a message comes to its shut queue.
abbrev pub offered : ServerSentEvent → Client → Client
offered m k =
    if k.is_connected
    then (if k.queue.is_shut
        then record k { is_connected = false }
        else record k { queue = record { items = k.queue.items ++ (m ∷ []); is_shut = false } })
    else k

abbrev pub client_step : ℕ → Action → Client → Client
client_step i (connected j) k =
    if j == i then record { is_connected = true; queue = new_queue } else k
client_step i (published m) k = offered m k
client_step i (received j m) k =
    if j == i
    then record k { queue = record { items = rest_of k.queue.items; is_shut = k.queue.is_shut } }
    else k
client_step i (disconnected j) k = if j == i then record k { is_connected = false } else k
client_step i (shut j) k =
    if j == i then record k { queue = record { items = k.queue.items; is_shut = true } } else k

abbrev pub client_run : ℕ → List Action → Client → Client
client_run i [] k = k
client_run i (a ∷ later) k = client_run i later (client_step i a k)

-- The client of a queue, as the broker's state has it.
abbrev pub client : ℕ → Broker → Client
client i b = record { is_connected = is_subscribed i b.subscribers; queue = b.queues i }

offered_as :
    (m : ServerSentEvent) (listed gone shut_now : Bool) (items : List ServerSentEvent) (q : Queue)
    → q ≡ after_put m listed (record { items = items; is_shut = shut_now })
    → gone ≡ (listed && shut_now)
    → record { is_connected = listed && not gone; queue = q }
      ≡ offered m
          (record { is_connected = listed; queue = record { items = items; is_shut = shut_now } })
offered_as m false gone shut_now items q e k =
    ap (λ r. record { is_connected = false; queue = r }) e
offered_as m true gone true items q e k = rw (e, k)
offered_as m true gone false items q e k = rw (e, k)

client-publish :
    (i : ℕ) (m : ServerSentEvent) (b : Broker)
    → IsSound b
    → (client i (publish m b) ≡ offered m (client i b)) × IsSound (publish m b)
unfolding publish
client-publish i m b h =
    let (q, gone) = put_all-queue m i b.subscribers b.queues h.distinct in
    let (listed, queues, sound) =
      disconnect_all-client i (put_all m b.subscribers b.queues).1
        (record b { queues = (put_all m b.subscribers b.queues).0 })
        (record { distinct = h.distinct; given = h.given }) in
    (
      rw (listed, queues)
          (offered_as m (is_subscribed i b.subscribers)
            (is_subscribed i (put_all m b.subscribers b.queues).1) (b.queues i).is_shut
            (b.queues i).items ((put_all m b.subscribers b.queues).0 i) q gone),
      sound,
    )

client-set_queue :
    (i j : ℕ) (q : Queue) (b : Broker)
    → client i (record b { queues = set_queue j q b.queues }) ≡ (
        if j == i
        then record { is_connected = is_subscribed i b.subscribers; queue = q }
        else client i b)
client-set_queue i j q b = elim (Bool-cases (j == i)) [ inl e ↦ rw e | inr e ↦ rw e ]

-- One queue changed, in a way that a client sees in its own queue.
client-change :
    (i j : ℕ) (q : Queue) (change : Queue → Queue) (b : Broker)
    → q ≡ change (b.queues j)
    → client i (record b { queues = set_queue j q b.queues })
      ≡ (if j == i then record (client i b) { queue = change (b.queues i) } else client i b)
client-change i j q change b e = client-set_queue i j q b ∙ elim (Bool-cases (j == i)) [
  | inl same ↦
      rw (same, e)
        (ap
          (λ n. record {
            is_connected = is_subscribed i b.subscribers;
            queue = change (b.queues n);
          })
          (==→eq j i same))
  | inr other ↦ rw other refl
]

or_true : (x : Bool) → (x || true) ≡ true
or_true x = ground arith

or_false : (x : Bool) → (x || false) ≡ x
or_false x = ground arith

client-connect :
    (i : ℕ) (b : Broker)
    → client i (connect b).1 ≡ client_step i (connected b.next_queue) (client i b)
unfolding connect
client-connect i b = elim (Bool-cases (b.next_queue == i)) [
  | inl e ↦
      rw (is_subscribed-append i b.next_queue b.subscribers, e)
        (ap (λ x. record { is_connected = x; queue = new_queue })
          (or_true (is_subscribed i b.subscribers)))
  | inr e ↦
      rw (is_subscribed-append i b.next_queue b.subscribers, e)
        (ap (λ x. record { is_connected = x; queue = b.queues i })
          (or_false (is_subscribed i b.subscribers)))
]

client-disconnect :
    (i j : ℕ) (b : Broker)
    → IsSound b
    → client i (disconnect j b) ≡ client_step i (disconnected j) (client i b)
client-disconnect i j b h = elim (Bool-cases (j == i)) [
  | inl e ↦ rw (is_subscribed-disconnect i j b h.distinct, disconnect-queues j b, e) refl
  | inr e ↦ rw (is_subscribed-disconnect i j b h.distinct, disconnect-queues j b, e) refl
]

-- Every step of the broker is, for each client, the step that the client's own machine takes.
pub client-Step :
    (i : ℕ) (b : Broker) (a : Action) (b' : Broker)
    → Step b a b'
    → IsSound b
    → (client i b' ≡ client_step i a (client i b)) × IsSound b'
unfolding connect
client-Step i _ _ _ (connects b) h = (
  client-connect i b,
  record {
    distinct = Distinct-append b.next_queue b.subscribers h.given h.distinct;
    given =
        All-append (λ j. j < b.next_queue + 1) b.subscribers _
          (below-suc b.next_queue b.subscribers h.given) (omega arith, tt);
  },
)
client-Step i _ _ _ (publishes m b) h = client-publish i m b h
client-Step i _ _ _ (takes j m rest b e) h = (
  client-change i j (record { items = rest; is_shut = (b.queues j).is_shut })
      (λ q. record { items = rest_of q.items; is_shut = q.is_shut }) b (rw e refl),
  record { distinct = h.distinct; given = h.given },
)
client-Step i _ _ _ (leaves j b) h = (client-disconnect i j b h, disconnect-IsSound j b h)
client-Step i _ _ _ (shuts j b) h = (
  client-change i j (record { items = (b.queues j).items; is_shut = true })
      (λ q. record { items = q.items; is_shut = true }) b refl,
  record { distinct = h.distinct; given = h.given },
)

-- From a broker whose subscribers are distinct and were numbered by it: whatever clients come, take
-- messages, leave or are shut, and whatever is published, in any order, each client's place and queue
-- are those of its own machine run on the same actions; and the broker stays as it has to be.
pub client-Run :
    (i : ℕ) (b : Broker) (later : List Action) (b' : Broker)
    → Run b later b'
    → IsSound b
    → (client i b' ≡ client_run i later (client i b)) × IsSound b'
client-Run i _ _ _ (stop b) h = (refl, h)
client-Run i _ _ _ (next b a b' later b'' s r) h =
    let (one, sound) = client-Step i b a b' s h in
    let (rest, last) = client-Run i b' later b'' r sound in
    (rest ∙ ap (client_run i later) one, last)
