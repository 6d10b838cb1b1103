-- ===== src/Mqtt/Backoff.antt =====
-- `MqttClient.run_forever` of src/services/mqtt_client.py: the loop around the connection. What the
-- broker and the stop event do is a list of rounds, one for each turn of the `while`. Delays are
-- whole microseconds.
use portfolio_cv_project.Common.{
  ℕ, zero, suc, ◌*◌, ◌^◌, ◌≤◌, min, max, ◌≡◌, refl, ap, Bool, true, false, List, [], ◌∷◌, ◌++◌,
  if◌then◌else◌, All, All-append, arith,
}
use native.Mathlib.Nat.{pow-suc}

-- What the loop over the messages meets: a delivery, or the stop event set before the next one.
pub data Item : Type 0 where
  deliver : ℕ → Item
  halt : Item

-- One turn. `refused`: connecting or subscribing raised. `dropped`: subscribed, and raised after the
-- items. `drained`: the messages ended. The flag says whether the stop event came during the wait.
pub data Round : Type 0 where
  refused : Bool → Round
  dropped : List Item → Bool → Round
  drained : List Item → Round

pub record Trace : Type 0 where
  pub handled : List ℕ
  pub slept : List ℕ
  pub returned : Bool

-- The messages handled, and whether the loop was left by `break`.
abbrev pub handle_items : List Item → List ℕ × Bool
handle_items [] = ([], false)
handle_items (halt ∷ items) = ([], true)
handle_items (deliver m ∷ items) = let (ms, stopped) = handle_items items in (m ∷ ms, stopped)

abbrev pub prefixed : List ℕ → List ℕ → Trace → Trace
prefixed ms ds t = record t { handled = ms ++ t.handled; slept = ds ++ t.slept }

abbrev pub returns : List ℕ → List ℕ → Trace
returns ms ds = record { handled = ms; slept = ds; returned = true }

-- The `while` loop from a delay. After a break the stop event is set, so the loop is left.
unfoldable pub run_from : ℕ → ℕ → ℕ → List Round → Trace
run_from initial_delay max_delay delay [] = record { handled = []; slept = []; returned = false }
run_from initial_delay max_delay delay (refused stop ∷ rounds) =
    let rest = run_from initial_delay max_delay (min (delay * 2) max_delay) rounds in
    if stop then returns [] (delay ∷ []) else prefixed [] (delay ∷ []) rest
run_from initial_delay max_delay delay (dropped items stop ∷ rounds) =
    let (ms, halted) = handle_items items in
    let again = min (initial_delay * 2) max_delay in
    let rest = run_from initial_delay max_delay again rounds in
    if halted
    then returns ms []
    else (if stop then returns ms (initial_delay ∷ []) else prefixed ms (initial_delay ∷ []) rest)
run_from initial_delay max_delay delay (drained items ∷ rounds) =
    let (ms, halted) = handle_items items in
    let rest = run_from initial_delay max_delay initial_delay rounds in
    if halted then returns ms [] else prefixed ms [] rest

unfoldable pub run_forever : ℕ → ℕ → List Round → Trace
unfolding run_from
run_forever initial_delay max_delay rounds = run_from initial_delay max_delay initial_delay rounds

abbrev pub IsAtMost : ℕ → ℕ → Type 0
IsAtMost bound d = d ≤ bound

All-prefixed :
    (b : ℕ) (ms ds : List ℕ) (t : Trace)
    → All (IsAtMost b) ds
    → All (IsAtMost b) t.slept
    → All (IsAtMost b) (prefixed ms ds t).slept
All-prefixed b ms ds t h k = All-append (IsAtMost b) ds t.slept h k

run_from_bounded :
    (i m d : ℕ) (rounds : List Round)
    → d ≤ max i m
    → All (IsAtMost (max i m)) (run_from i m d rounds).slept
unfolding run_from
run_from_bounded i m d [] h = tt
run_from_bounded i m d (refused true ∷ rounds) h = (h, tt)
run_from_bounded i m d (refused false ∷ rounds) h =
    (h, run_from_bounded i m (min (d * 2) m) rounds (omega arith))
run_from_bounded i m d (dropped items stop ∷ rounds) h =
    go (handle_items items).1 stop (run_from_bounded i m (min (i * 2) m) rounds (omega arith))
  where
    first : i ≤ max i m
    first = omega arith

    again : Trace
    again = run_from i m (min (i * 2) m) rounds

    go :
        (halted stop : Bool)
        → All (IsAtMost (max i m)) again.slept
        → All
            (IsAtMost (max i m))
            (if halted
              then returns (handle_items items).0 []
              else (if stop
                  then returns (handle_items items).0 (i ∷ [])
                  else prefixed (handle_items items).0 (i ∷ []) again)).slept
    go true stop k = tt
    go false true k = (first, tt)
    go false false k = (first, k)
run_from_bounded i m d (drained items ∷ rounds) h =
    go (handle_items items).1 (run_from_bounded i m i rounds (omega arith))
  where
    go :
        (halted : Bool)
        → All (IsAtMost (max i m)) (run_from i m i rounds).slept
        → All
            (IsAtMost (max i m))
            (if halted
              then returns (handle_items items).0 []
              else prefixed (handle_items items).0 [] (run_from i m i rounds)).slept
    go true k = tt
    go false k = k

-- The waits of an exponential back-off from the `j`-th on: the initial delay, doubled each time, up
-- to the largest delay.
abbrev pub exponential : ℕ → ℕ → ℕ → ℕ → List ℕ
exponential i m j zero = []
exponential i m j (suc n) = min (i * 2 ^ j) m ∷ exponential i m (suc j) n

abbrev pub refusals : ℕ → List Round → List Round
refusals zero rounds = rounds
refusals (suc n) rounds = refused false ∷ refusals n rounds

doubled : (i m j : ℕ) → min (min (i * 2 ^ j) m * 2) m ≡ min (i * 2 ^ suc j) m
doubled i m j =
    let power : i * 2 ^ suc j ≡ i * 2 ^ j * 2 = rw (pow-suc) (omega arith) in omega (arith, power)

run_from-refusals :
    (i m j n : ℕ) → (run_from i m (min (i * 2 ^ j) m) (refusals n [])).slept ≡ exponential i m j n
unfolding run_from
run_from-refusals i m j zero = refl
run_from-refusals i m j (suc n) =
    ap (◌∷◌ (min (i * 2 ^ j) m)) (rw (doubled i m j) (run_from-refusals i m (suc j) n))

-- While the broker refuses every connection, the wait after the (j+1)-th failure is the initial delay
-- times two to the j, capped by the largest delay, provided that the initial one is within it.
pub run_forever-exponential :
    (i m n : ℕ) → i ≤ m → (run_forever i m (refusals n [])).slept ≡ exponential i m 0 n
unfolding run_forever
run_forever-exponential i m n h =
    let start : min (i * 2 ^ 0) m ≡ i = omega arith in rw start at (run_from-refusals i m 0 n)

-- No wait between two connections is longer than the larger of the two configured delays, whatever
-- the broker does.
pub run_forever_bounded :
    (i m : ℕ) (rounds : List Round) → All (IsAtMost (max i m)) (run_forever i m rounds).slept
unfolding run_forever
run_forever_bounded i m rounds = run_from_bounded i m i rounds (omega arith)
