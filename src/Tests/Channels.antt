-- ===== src/Tests/Channels.antt =====
-- Two clients of a channel, and two messages.
use portfolio_cv_project.Common.{◌==◌, if◌then◌else◌, arith, ◌≡◌, refl, false, List, [], ◌∷◌, ◌++◌}
use portfolio_cv_project.Sse.{
  ServerSentEvent, Broker, connect, disconnect, publish, disconnect_all, Action, connected,
  published, received, disconnected, connects, publishes, takes, leaves, Run, stop, next, new_queue,
}
use portfolio_cv_project.Sse.Subscribers.{IsSound}
use portfolio_cv_project.Sse.Clients.{client, client_run, client-Run}
use portfolio_cv_project.Sse.Delivery.{listening, delivered}

abbrev message : ServerSentEvent
message = record { event = b'm' ∷ []; payload = b'1' ∷ [] }

abbrev other : ServerSentEvent
other = record { event = b'm' ∷ []; payload = b'2' ∷ [] }

abbrev channel : Broker
channel = record { subscribers = 0 ∷ []; queues = λ i. new_queue; next_queue = 1 }

abbrev actions : List Action
actions =
    published message ∷ connected 1 ∷ published other ∷ received 0 message ∷ disconnected 1 ∷ []

abbrev b1 : Broker
b1 = publish message channel

abbrev b2 : Broker
b2 = (connect b1).1

abbrev b3 : Broker
b3 = publish other b2

abbrev b4 : Broker
b4 = record b3 {
  queues = λ i. if 0 == i then record { items = other ∷ []; is_shut = false } else b3.queues i;
}

channel-IsSound : IsSound channel
channel-IsSound = record { distinct = (refl, tt); given = (omega arith, tt) }

ran : Run channel actions (disconnect 1 b4)
unfolding publish connect disconnect disconnect_all
ran = next channel _ b1 _ _ (publishes message channel) (
    next b1 _ b2 _ _ (connects b1) (
      next b2 _ b3 _ _ (publishes other b2) (
        next b3 _ b4 _ _ (takes 0 message (other ∷ []) b3 refl)
          (next b4 _ _ _ _ (leaves 1 b4) (stop _)))))

client-Run_example :
    (client 1 (disconnect 1 b4) ≡ client_run 1 actions (client 1 channel))
    × IsSound (disconnect 1 b4)
client-Run_example = client-Run 1 channel actions (disconnect 1 b4) ran channel-IsSound

delivered_example :
    (pending : List ServerSentEvent) × (client 0 (disconnect 1 b4) ≡ listening pending)
    × (message ∷ other ∷ [] ≡ (message ∷ []) ++ pending)
delivered_example =
    delivered 0 channel actions (disconnect 1 b4) [] ran channel-IsSound refl
      (refl, (refl, (refl, (refl, (refl, tt)))))
