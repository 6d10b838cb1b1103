-- ===== src/Mqtt/Consumer.antt =====
-- `_forward_with_retries` and `_normalise_timestamps` of mqtt_consumer/main.py. The API's reply to
-- each attempt is an argument.
use portfolio_cv_project.Common.{
  ℕ, zero, suc, ◌+◌, ◌*◌, ◌-◌, ◌≤◌, leb, ltb, ◌==◌, ◌≡◌, refl, sym, ◌∙◌, Bool, true, false, ◌&&◌,
  ◌||◌, List, [], ◌∷◌, Option, none, some, if◌then◌else◌, arith, Bool-cases, ◌⊎◌, inl, inr,
}

-- What `post` does: raise an HTTPError, or answer with a status.
pub data Reply : Type 0 where
  http_error : Reply
  status : ℕ → Reply

pub data Forwarded : Type 0 where
  delivered rejected gave_up raised dropped : Forwarded

pub record Forwarding : Type 0 where
  pub result : Forwarded
  pub posts : ℕ
  pub slept : List ℕ

abbrev pub is_success : ℕ → Bool
is_success n = leb 200 n && ltb n 300

abbrev pub is_client_error : ℕ → Bool
is_client_error n = leb 400 n && ltb n 500

abbrev pub slept_first : ℕ → Forwarding → Forwarding
slept_first delay f = record f { posts = suc f.posts; slept = delay ∷ f.slept }

abbrev pub finished : Forwarded → Forwarding
finished r = record { result = r; posts = 1; slept = [] }

-- The body of the loop, at a reply, with what the next rounds do; `last` is whether this is the last
-- attempt.
abbrev pub on_reply : Reply → Bool → ℕ → Forwarding → Forwarding
on_reply http_error last delay rest = if last then finished raised else slept_first delay rest
on_reply (status n) last delay rest =
    if is_success n
    then finished delivered
    else (if is_client_error n
        then finished rejected
        else (if last then finished gave_up else slept_first delay rest))

-- `for attempt in range(attempt, attempt + left)`.
unfoldable pub forward_from : (ℕ → Reply) → ℕ → ℕ → ℕ → Forwarding
forward_from reply attempt zero delay = record { result = dropped; posts = 0; slept = [] }
forward_from reply attempt (suc left) delay =
    let rest = forward_from reply (attempt + 1) left (delay * 2) in
    on_reply (reply attempt) (left == 0) delay rest

unfoldable pub forward_with_retries : (ℕ → Reply) → ℕ → ℕ → Forwarding
unfolding forward_from
forward_with_retries reply max_retries retry_backoff =
    forward_from reply 1 max_retries retry_backoff

abbrev pub is_final : Reply → Bool
is_final http_error = false
is_final (status n) = is_success n || is_client_error n

-- The first attempt, of `left` from `attempt` on, whose reply ends the loop.
abbrev pub first_final : (ℕ → Reply) → ℕ → ℕ → Option ℕ
first_final reply attempt zero = none
first_final reply attempt (suc left) =
    let rest = first_final reply (attempt + 1) left in
    if is_final (reply attempt) then some attempt else rest

abbrev pub final_result : Reply → Forwarded
final_result http_error = raised
final_result (status n) = if is_success n then delivered else rejected

abbrev pub last_result : Reply → Forwarded
last_result http_error = raised
last_result (status n) = gave_up

-- The waits of the loop: the back-off, doubled each time.
abbrev pub doubling : ℕ → ℕ → List ℕ
doubling delay zero = []
doubling delay (suc n) = delay ∷ doubling (delay * 2) n

-- What the loop does, told by the first reply that ends it.
abbrev pub foretold : (ℕ → Reply) → ℕ → ℕ → ℕ → Option ℕ → Forwarding
foretold reply attempt left delay (some k) = record {
  result = final_result (reply k);
  posts = k - attempt + 1;
  slept = doubling delay (k - attempt);
}
foretold reply attempt zero delay none = record { result = dropped; posts = 0; slept = [] }
foretold reply attempt (suc left) delay none = record {
  result = last_result (reply (attempt + left));
  posts = suc left;
  slept = doubling delay left;
}

first_final-ge :
    (reply : ℕ → Reply) (attempt left k : ℕ) → first_final reply attempt left ≡ some k → attempt ≤ k
first_final-ge reply attempt zero k h = cc
first_final-ge reply attempt (suc left) k h =
    ground (arith, first_final-ge reply (attempt + 1) left k)

on_final :
    (r : Reply) (last : Bool) (delay : ℕ) (rest : Forwarding)
    → is_final r ≡ true
    → on_reply r last delay rest ≡ finished (final_result r)
on_final r last delay rest h = ground arith

on_retry :
    (r : Reply) (delay : ℕ) (rest : Forwarding)
    → is_final r ≡ false
    → (on_reply r false delay rest ≡ slept_first delay rest)
      × (on_reply r true delay rest ≡ finished (last_result r))
on_retry r delay rest h = (ground arith, ground arith)

foretold_now :
    (reply : ℕ → Reply) (attempt left delay : ℕ)
    → foretold reply attempt left delay (some attempt) ≡ finished (final_result (reply attempt))
foretold_now reply attempt left delay =
    let none_left : attempt - attempt ≡ 0 = omega arith in rw none_left

-- One more attempt before those already told.
foretold_later :
    (reply : ℕ → Reply) (attempt n delay : ℕ) (first : Option ℕ)
    → ((k : ℕ) → first ≡ some k → attempt + 1 ≤ k)
    → slept_first delay (foretold reply (attempt + 1) (suc n) (delay * 2) first)
      ≡ foretold reply attempt (suc (suc n)) delay first
foretold_later reply attempt n delay none ge =
    let shifted : attempt + 1 + n ≡ attempt + suc n = omega arith in rw shifted
foretold_later reply attempt n delay (some k) ge =
    let one_more : k - attempt ≡ suc (k - (attempt + 1)) = omega (arith, ge k refl) in
    let count : suc (k - (attempt + 1)) + 1 ≡ suc (k - (attempt + 1) + 1) = omega arith in
    rw (one_more, count)

forward_from-foretold :
    (reply : ℕ → Reply) (attempt left delay : ℕ)
    → forward_from reply attempt left delay
      ≡ foretold reply attempt left delay (first_final reply attempt left)
unfolding forward_from
forward_from-foretold reply attempt zero delay = refl
forward_from-foretold reply attempt (suc left) delay =
    go (Bool-cases (is_final (reply attempt))) left
      (forward_from reply (attempt + 1) left (delay * 2))
      (forward_from-foretold reply (attempt + 1) left (delay * 2))
  where
    go :
        (is_final (reply attempt) ≡ true) ⊎ (is_final (reply attempt) ≡ false)
        → (n : ℕ) (rest : Forwarding)
        → rest ≡ foretold reply (attempt + 1) n (delay * 2) (first_final reply (attempt + 1) n)
        → on_reply (reply attempt) (n == 0) delay rest
          ≡ foretold reply attempt
              (suc n)
              delay
              (if is_final (reply attempt) then some attempt else first_final reply (attempt + 1) n)
    go (inl h) n rest e =
        on_final (reply attempt) (n == 0) delay rest h
        ∙ sym (foretold_now reply attempt (suc n) delay)
        ∙ rw h
    go (inr h) zero rest e =
        let same : attempt + 0 ≡ attempt = omega arith in
        (on_retry (reply attempt) delay rest h).1 ∙ rw (h, same)
    go (inr h) (suc n) rest e =
        let more : (suc n == 0) ≡ false = ground arith in
        let first = first_final reply (attempt + 1) (suc n) in
        let ge = first_final-ge reply (attempt + 1) (suc n) in
        rw (
          more,
          (on_retry (reply attempt) delay rest h).0,
          e,
          foretold_later reply attempt n delay first ge,
          h,
        )

-- `_forward_with_retries` posts until the first reply that is a success or a 4xx and stops there,
-- delivered or rejected; when none of the `max_retries` replies is, it posts exactly `max_retries`
-- times and ends by the last reply, raising on an HTTPError and giving up on any other status. It
-- waits between two posts, the back-off doubled each time.
pub forward_with_retries-foretold :
    (reply : ℕ → Reply) (max_retries retry_backoff : ℕ)
    → forward_with_retries reply max_retries retry_backoff
      ≡ foretold reply 1 max_retries retry_backoff (first_final reply 1 max_retries)
unfolding forward_with_retries
forward_with_retries-foretold reply max_retries retry_backoff =
    forward_from-foretold reply 1 max_retries retry_backoff
