-- ===== src/Sse/Delivery.antt =====
-- A stream that stays connected loses nothing.
use portfolio_cv_project.Common.{
  ℕ, ◌==◌, Bool, true, false, not, List, [], ◌∷◌, ◌++◌, if◌then◌else◌, ◌≡◌, refl, sym, ap, ◌∙◌, inl,
  inr, All, arith, Bool-cases, ==→eq,
}
use portfolio_cv_project.Sse.{
  ServerSentEvent, Broker, connect, Action, connected, published, received, disconnected, shut,
  Step, connects, publishes, takes, leaves, shuts, Run, stop, next,
}
use mathlib.Core.List.{append_assoc, append-nil}
use portfolio_cv_project.Sse.Subscribers.{IsSound}
use portfolio_cv_project.Sse.Clients.{Client, client, client_step, client-Step}

-- Whether an action leaves a client's place alone.
abbrev pub stays : ℕ → Action → Bool
stays i (connected j) = not (j == i)
stays i (disconnected j) = not (j == i)
stays i (shut j) = not (j == i)
stays i (published m) = true
stays i (received j m) = true

abbrev pub all_published : List Action → List ServerSentEvent
all_published [] = []
all_published (published m ∷ later) = m ∷ all_published later
all_published (_ ∷ later) = all_published later

abbrev pub taken : ℕ → List Action → List ServerSentEvent
taken i [] = []
taken i (received j m ∷ later) = if j == i then m ∷ taken i later else taken i later
taken i (_ ∷ later) = taken i later

abbrev pub listening : List ServerSentEvent → Client
listening items = record { is_connected = true; queue = record { items = items; is_shut = false } }

-- One action on a client that listens.
listening-step :
    (i : ℕ) (b : Broker) (a : Action) (b' : Broker) (items : List ServerSentEvent)
    → Step b a b'
    → client i b ≡ listening items
    → stays i a ≡ true
    → (pending : List ServerSentEvent) × (client_step i a (listening items) ≡ listening pending)
      × (items ++ all_published (a ∷ []) ≡ taken i (a ∷ []) ++ pending)
listening-step i _ _ _ items (connects b) k calm =
    let other : (connect b).0 == i ≡ false = ground arith in (items, rw other, append-nil items)
listening-step i _ _ _ items (publishes m b) k calm = (items ++ (m ∷ []), refl, refl)
listening-step i _ _ _ items (takes j m rest b e) k calm = elim (Bool-cases (j == i)) [
  | inl same ↦
      let head : items ≡ m ∷ rest =
        sym (ap (λ l. l.queue.items) k) ∙ sym (ap (λ n. (b.queues n).items) (==→eq j i same)) ∙ e in
      (rest, rw same (rw head), rw same (append-nil items ∙ head))
  | inr other ↦ (items, rw other, rw other (append-nil items))
]
listening-step i _ _ _ items (leaves j b) k calm =
    let other : j == i ≡ false = ground arith in (items, rw other, append-nil items)
listening-step i _ _ _ items (shuts j b) k calm =
    let other : j == i ≡ false = ground arith in (items, rw other, append-nil items)

all_published-one :
    (a : Action) (later : List Action)
    → all_published (a ∷ later) ≡ all_published (a ∷ []) ++ all_published later
all_published-one (connected j) later = refl
all_published-one (published m) later = refl
all_published-one (received j m) later = refl
all_published-one (disconnected j) later = refl
all_published-one (shut j) later = refl

taken-one :
    (i : ℕ) (a : Action) (later : List Action)
    → taken i (a ∷ later) ≡ taken i (a ∷ []) ++ taken i later
taken-one i (connected j) later = refl
taken-one i (published m) later = refl
taken-one i (received j m) later = ground arith
taken-one i (disconnected j) later = refl
taken-one i (shut j) later = refl

-- A client that listens, with some messages pending: through any actions that leave its place alone,
-- it goes on listening, and what was pending followed by all that is published is, in order, what its
-- stream took followed by what is pending then.
pub delivered :
    (i : ℕ) (b : Broker) (later : List Action) (b' : Broker) (items : List ServerSentEvent)
    → Run b later b'
    → IsSound b
    → client i b ≡ listening items
    → All (λ a. stays i a ≡ true) later
    → (pending : List ServerSentEvent) × (client i b' ≡ listening pending)
      × (items ++ all_published later ≡ taken i later ++ pending)
delivered i _ _ _ items (stop b) h k calm = (items, k, append-nil items)
delivered i _ _ _ items (next b a b' later b'' s r) h k calm =
    let (one, sound) = client-Step i b a b' s h in
    let (middle, listens, moved) = listening-step i b a b' items s k calm.0 in
    let (last, still, rest) =
      delivered i b' later b'' middle r sound (one ∙ ap (client_step i a) k ∙ listens) calm.1 in
    (
      last,
      still,
      ap (λ ms. items ++ ms) (all_published-one a later)
          ∙ sym (append_assoc items (all_published (a ∷ [])) (all_published later))
          ∙ ap (λ ms. ms ++ all_published later) moved
          ∙ append_assoc (taken i (a ∷ [])) middle (all_published later)
          ∙ ap (λ ms. taken i (a ∷ []) ++ ms) rest
          ∙ sym (append_assoc (taken i (a ∷ [])) (taken i later) last)
          ∙ ap (λ ms. ms ++ last) (sym (taken-one i a later)),
    )
