-- ===== src/Sse/Subscribers.antt =====
-- The list of subscribers: no operation puts a queue in it twice, and a message goes once to each.
use portfolio_cv_project.Common.{
  ℕ, ◌+◌, ◌<◌, ◌==◌, Bool, true, false, not, ◌&&◌, ◌||◌, List, [], ◌∷◌, ◌++◌, if◌then◌else◌, ◌≡◌,
  refl, ap, ◌∙◌, inl, inr, All, arith, Bool-cases, ==→eq,
}
use mathlib.Core.Path.{subst}
use portfolio_cv_project.Sse.{
  ServerSentEvent, Queue, Broker, set_queue, is_subscribed, remove, disconnect, put_all,
  disconnect_all,
}

-- Every subscriber stands once in the list, and was given its number by `connect`.
abbrev pub Distinct : List ℕ → Type 0
Distinct [] = Unit
Distinct (i ∷ is) = (is_subscribed i is ≡ false) × Distinct is

pub record IsSound (b : Broker) : Type 0 where
  pub distinct : Distinct b.subscribers
  pub given : All (λ i. i < b.next_queue) b.subscribers

pub is_subscribed-remove :
    (i j : ℕ) (is : List ℕ)
    → Distinct is
    → is_subscribed i (remove j is) ≡ (if j == i then false else is_subscribed i is)
is_subscribed-remove i j [] h = ground arith
is_subscribed-remove i j (k ∷ is) h = elim (Bool-cases (k == j)) [
  | inr e ↦ rw e (ground (arith, is_subscribed-remove i j is h.1))
  | inl e ↦ elim (Bool-cases (j == i)) [
    | inl same ↦
        let one : k ≡ i = ==→eq k j e ∙ ==→eq j i same in
        rw (e, same) (subst (λ n. is_subscribed n is ≡ false) one h.0)
    | inr other ↦ rw e (ground arith)
  ]
]

pub is_subscribed-append :
    (i j : ℕ) (is : List ℕ) → is_subscribed i (is ++ (j ∷ [])) ≡ (is_subscribed i is || j == i)
is_subscribed-append i j [] = ground arith
is_subscribed-append i j (k ∷ is) = ground (arith, is_subscribed-append i j is)

unused : (n : ℕ) (is : List ℕ) → All (λ i. i < n) is → is_subscribed n is ≡ false
unused n [] h = refl
unused n (i ∷ is) h = ground (arith, unused n is)

pub Distinct-append :
    (n : ℕ) (is : List ℕ) → All (λ i. i < n) is → Distinct is → Distinct (is ++ (n ∷ []))
Distinct-append n [] below h = (refl, tt)
Distinct-append n (i ∷ is) below h =
    (ground (arith, is_subscribed-append i n is, below.0, h.0), Distinct-append n is below.1 h.1)

pub below-suc : (n : ℕ) (is : List ℕ) → All (λ i. i < n) is → All (λ i. i < n + 1) is
below-suc n [] h = tt
below-suc n (i ∷ is) h = (omega arith, below-suc n is h.1)

pub Distinct-remove : (i : ℕ) (is : List ℕ) → Distinct is → Distinct (remove i is)
Distinct-remove i [] h = tt
Distinct-remove i (j ∷ is) h = elim (Bool-cases (j == i)) [
  | inl e ↦ rw e h.1
  | inr e ↦ rw e (ground (arith, is_subscribed-remove j i is, h), Distinct-remove i is h.1)
]

pub below-remove : (n i : ℕ) (is : List ℕ) → All (λ i. i < n) is → All (λ i. i < n) (remove i is)
below-remove n i [] h = tt
below-remove n i (j ∷ is) h = elim (Bool-cases (j == i)) [
  | inl e ↦ rw e h.1
  | inr e ↦ rw e (h.0, below-remove n i is h.1)
]

pub is_subscribed-disconnect :
    (i j : ℕ) (b : Broker)
    → Distinct b.subscribers
    → is_subscribed i (disconnect j b).subscribers
      ≡ (if j == i then false else is_subscribed i b.subscribers)
unfolding disconnect
is_subscribed-disconnect i j b h = elim (Bool-cases (is_subscribed j b.subscribers)) [
  | inl e ↦ rw e (is_subscribed-remove i j b.subscribers h)
  | inr e ↦ elim (Bool-cases (j == i)) [
    | inl same ↦
        rw (e, same) (subst (λ n. is_subscribed n b.subscribers ≡ false) (==→eq j i same) e)
    | inr other ↦ rw (e, other)
  ]
]

pub disconnect-queues : (j : ℕ) (b : Broker) → (disconnect j b).queues ≡ b.queues
unfolding disconnect
disconnect-queues j b = elim (Bool-cases (is_subscribed j b.subscribers)) [
  | inl e ↦ rw e
  | inr e ↦ rw e
]

pub disconnect-IsSound : (j : ℕ) (b : Broker) → IsSound b → IsSound (disconnect j b)
unfolding disconnect
disconnect-IsSound j b h = elim (Bool-cases (is_subscribed j b.subscribers)) [
  | inr e ↦ rw e h
  | inl e ↦ rw e (record {
    distinct = Distinct-remove j b.subscribers h.distinct;
    given = below-remove b.next_queue j b.subscribers h.given;
  })
]

pub disconnect_all-client :
    (i : ℕ) (dead : List ℕ) (b : Broker)
    → IsSound b
    → (is_subscribed i (disconnect_all dead b).subscribers
        ≡ (is_subscribed i b.subscribers && not (is_subscribed i dead)))
      × ((disconnect_all dead b).queues ≡ b.queues)
      × IsSound (disconnect_all dead b)
unfolding disconnect_all
disconnect_all-client i [] b h = (ground arith, refl, h)
disconnect_all-client i (j ∷ dead) b h =
    let (rest, queues, sound) =
      disconnect_all-client i dead (disconnect j b) (disconnect-IsSound j b h) in
    (
      ground (arith, rest, is_subscribed-disconnect i j b h.distinct),
      queues ∙ disconnect-queues j b,
      sound,
    )

-- What `publish` leaves in a queue.
abbrev pub after_put : ServerSentEvent → Bool → Queue → Queue
after_put m subscribed q =
    if subscribed && not q.is_shut then record q { items = q.items ++ (m ∷ []) } else q

put_all_shut :
    (m : ServerSentEvent) (j : ℕ) (is : List ℕ) (queues : ℕ → Queue)
    → (queues j).is_shut ≡ true
    → put_all m (j ∷ is) queues ≡ ((put_all m is queues).0, j ∷ (put_all m is queues).1)
put_all_shut m j is queues e = rw (put_all, e)

put_all_open :
    (m : ServerSentEvent) (j : ℕ) (is : List ℕ) (queues : ℕ → Queue)
    → (queues j).is_shut ≡ false
    → put_all m (j ∷ is) queues
      ≡ put_all m is
          (set_queue j (record (queues j) { items = (queues j).items ++ (m ∷ []) }) queues)
put_all_open m j is queues e = rw (put_all, e)

pub put_all-queue :
    (m : ServerSentEvent) (i : ℕ) (is : List ℕ) (queues : ℕ → Queue)
    → Distinct is
    → ((put_all m is queues).0 i ≡ after_put m (is_subscribed i is) (queues i))
      × (is_subscribed i (put_all m is queues).1 ≡ (is_subscribed i is && (queues i).is_shut))
put_all-queue m i [] queues h = (refl, refl)
put_all-queue m i (j ∷ is) queues h = elim (Bool-cases (queues j).is_shut) [
  | inl e ↦
      let (q, dead) = put_all-queue m i is queues h.1 in
      rw (put_all_shut m j is queues e) (elim (Bool-cases (j == i)) [
        | inl same ↦
            let shut_i : (queues i).is_shut ≡ true =
              subst (λ n. (queues n).is_shut ≡ true) (==→eq j i same) e in
            (ground (arith, q, shut_i), rw (same, shut_i))
        | inr other ↦ rw other (q, dead)
      ])
  | inr e ↦
      let (q, dead) =
        put_all-queue m i is
          (set_queue j (record (queues j) { items = (queues j).items ++ (m ∷ []) }) queues) h.1 in
      rw (put_all_open m j is queues e) (elim (Bool-cases (j == i)) [
        | inl same ↦
            let open_i : (queues i).is_shut ≡ false =
              subst (λ n. (queues n).is_shut ≡ false) (==→eq j i same) e in
            let absent : is_subscribed i is ≡ false =
              subst (λ n. is_subscribed n is ≡ false) (==→eq j i same) h.0 in
            (
              q
                  ∙ rw (same, absent, open_i)
                      (rw e (
                        ap (λ n. record { items = (queues n).items ++ (m ∷ []); is_shut = false })
                          (==→eq j i same))),
              dead ∙ rw (same, absent, open_i),
            )
        | inr other ↦ (rw other (rw other at q), rw other (rw other at dead))
      ])
]
