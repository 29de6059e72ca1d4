-- ===== src/Stellar/Retry.antt =====
-- backend/src/contracts/stellar.ts: `withRetry`, and the errors of `loadAccountSafe`.
use native.Mathlib.Nat.{one-le-pow}
use coop_lumen_index.Base.{
  ℕ, zero, suc, ◌+◌, ◌-◌, ◌*◌, ◌^◌, ◌≤◌, ◌<◌, min, ◌≡◌, refl, ◌⊎◌, inl, inr, Bool, true, false, not,
  ◌&&◌, ◌||◌, Option, none, some, List, [], ◌∷◌, length, arith, if◌then◌else◌, ◌==◌, ℤ, pos_part,
  ◌-ℤ◌, Bool-cases, Sum-cases,
}

-- What `Retry-After` says, as `parseRetryAfterMs` reads it: nothing, a finite number of seconds
-- that is not negative (rounded to milliseconds), a date by its `Date.parse`, or neither.
pub data RetryAfter : Type 0 where
  absent unreadable : RetryAfter
  milliseconds : ℕ → RetryAfter
  at_date : ℤ → RetryAfter

pub record HorizonError : Type 0 where
  pub status : Option ℕ
  pub retry_after : RetryAfter
  pub names_public_key : Bool

-- `HORIZON_RETRY_CONFIG`
abbrev pub max_attempts : ℕ
max_attempts = 4

abbrev pub base_delay_ms : ℕ
base_delay_ms = 100

abbrev pub max_delay_ms : ℕ
max_delay_ms = 5000

-- `status && RETRYABLE_HORIZON_STATUS_CODES.has(status)`
abbrev pub is_retryable : Option ℕ → Bool
is_retryable none = false
is_retryable (some s) = (s == 429) || (s == 503)

-- Math.max(0, targetTime - Date.now())
unfoldable pub parse_retry_after_ms : ℤ → RetryAfter → Option ℕ
parse_retry_after_ms now absent = none
parse_retry_after_ms now unreadable = none
parse_retry_after_ms now (milliseconds ms) = some ms
parse_retry_after_ms now (at_date target) = some (pos_part (target -ℤ now))

pub data Outcome (A : Type 0) : Type 0 where
  returned : A → Outcome A
  thrown : HorizonError → Outcome A
  exhausted : Outcome A

-- What a caller sees: the outcome, how often Horizon was called, and how long each sleep was.
pub record Run (A : Type 0) : Type 0 where
  pub outcome : Outcome A
  pub calls : ℕ
  pub delays : List ℕ

-- What the environment answers: the n-th call of the request, the clock after it, and
-- `Math.random() * base`, in whole milliseconds.
pub record Network (A : Type 0) : Type 0 where
  pub request : ℕ → HorizonError ⊎ A
  pub now : ℕ → ℤ
  pub jitter : ℕ → ℕ → ℕ

module _ {A : Type 0} (N : Network A) where
  unfoldable pub delay_ms : ℕ → HorizonError → ℕ
  delay_ms attempt error = elim (parse_retry_after_ms (N.now attempt) error.retry_after) [
    | some ms ↦ ms
    | none ↦ min max_delay_ms (N.jitter attempt (base_delay_ms * 2 ^ (attempt - 1)))
  ]

  abbrev pub slept : ℕ → Run A → Run A
  slept ms run = record run { delays = ms ∷ run.delays }

  -- The loop, with the number of attempts that are left.
  unfoldable pub attempts_from : ℕ → ℕ → Run A
  attempts_from zero attempt = record { outcome = exhausted; calls = attempt - 1; delays = [] }
  attempts_from (suc left) attempt =
      let rest = attempts_from left (attempt + 1) in
      elim (N.request attempt) [
        | inr a ↦ record { outcome = returned a; calls = attempt; delays = [] }
        | inl error ↦
            if not (is_retryable error.status)
            then record { outcome = thrown error; calls = attempt; delays = [] }
            else if attempt == max_attempts
            then record { outcome = thrown error; calls = attempt; delays = [] }
            else slept (delay_ms attempt error) rest
      ]

  unfoldable pub with_retry : Run A
  unfolding attempts_from
  with_retry = attempts_from max_attempts 1

  abbrev pub outcome_of : HorizonError ⊎ A → Outcome A
  outcome_of (inl error) = thrown error
  outcome_of (inr a) = returned a

  abbrev pub is_transient : HorizonError ⊎ A → Bool
  is_transient (inl error) = is_retryable error.status
  is_transient (inr a) = false

  -- The run from an attempt on: it ends with what its last call answered, every call before that
  -- failed with a status that is retried, the last did not unless it was the fourth, and there was
  -- one sleep between two calls.
  pub record Answers (attempt : ℕ) (run : Run A) : Type 0 where
    pub last : run.outcome ≡ outcome_of (N.request run.calls)
    pub from : attempt ≤ run.calls
    pub within : run.calls ≤ max_attempts
    pub earlier : (i : ℕ) → attempt ≤ i → i < run.calls → is_transient (N.request i) ≡ true
    pub stops : run.calls < max_attempts → is_transient (N.request run.calls) ≡ false
    pub sleeps : length run.delays + attempt ≡ run.calls

  abbrev ended : ℕ → Run A
  ended attempt = record { outcome = outcome_of (N.request attempt); calls = attempt; delays = [] }

  ends_here :
      (attempt : ℕ)
      → attempt ≤ max_attempts
      → is_transient (N.request attempt) ≡ false ⊎ (attempt ≡ max_attempts)
      → Answers attempt (ended attempt)
  ends_here attempt h k = record {
    last = refl;
    from = omega arith;
    within = h;
    earlier = λ i a b. absurd (omega arith);
    stops = λ b. ground arith;
    sleeps = omega arith;
  }

  attempts_from-Answers :
      (left attempt : ℕ)
      → left + attempt ≡ max_attempts + 1
      → 1 ≤ left
      → Answers attempt (attempts_from left attempt)
  unfolding attempts_from
  attempts_from-Answers zero attempt h k = absurd (omega arith)
  attempts_from-Answers (suc left) attempt h k = elim (Sum-cases (N.request attempt)) [
    | inr (a, e) ↦
        let same : attempts_from (suc left) attempt ≡ ended attempt = ground arith in
        rw same (ends_here attempt (omega arith) (inl (ground arith)))
    | inl (error, e) ↦ elim (Bool-cases (is_retryable error.status)) [
      | inr fatal ↦
          let same : attempts_from (suc left) attempt ≡ ended attempt = ground arith in
          rw same (ends_here attempt (omega arith) (inl (ground arith)))
      | inl transient ↦ elim (Bool-cases (attempt == max_attempts)) [
        | inl last ↦
            let same : attempts_from (suc left) attempt ≡ ended attempt = ground arith in
            rw same (ends_here attempt (omega arith) (inr (ground arith)))
        | inr more ↦
            let rest = attempts_from-Answers left (attempt + 1) (omega arith) (ground arith) in
            let same : attempts_from (suc left) attempt
                ≡ slept (delay_ms attempt error) (attempts_from left (attempt + 1)) =
              ground arith in
            rw same (record {
              last = rest.last;
              from = omega (arith, rest.from);
              within = rest.within;
              earlier = λ i a b. elim (Bool-cases (i == attempt)) [
                | inl this ↦ let now_i : i ≡ attempt = ground arith in rw now_i (ground arith)
                | inr later ↦ rest.earlier i (ground arith) b
              ];
              stops = rest.stops;
              sleeps = omega (arith, rest.sleeps);
            })
      ]
    ]
  ]

  -- A request is called one to four times. It ends with what the last call answered, every call
  -- before that failed with 429 or 503, the last did not unless it was the fourth, and there was
  -- one sleep between two calls; so the error after the loop is never thrown.
  pub with_retry-Answers : Answers 1 with_retry
  unfolding with_retry
  with_retry-Answers = attempts_from-Answers max_attempts 1 refl (omega arith)

  -- Without a readable Retry-After, and where the random part is below its base, a sleep lasts
  -- at most five seconds, and less than the exponential base of its attempt.
  pub delay_ms_bounds :
      (attempt : ℕ) (error : HorizonError)
      → ((a base : ℕ) → 0 < base → N.jitter a base < base)
      → parse_retry_after_ms (N.now attempt) error.retry_after ≡ none
      → (delay_ms attempt error ≤ max_delay_ms)
        × (delay_ms attempt error < base_delay_ms * 2 ^ (attempt - 1))
  unfolding delay_ms
  delay_ms_bounds attempt error below none_given =
      let power = one-le-pow (attempt - 1) 2 (omega arith) in
      let b = below attempt (base_delay_ms * 2 ^ (attempt - 1)) (omega (arith, power)) in
      ground arith

-- The errors of `loadAccountSafe`; a network error keeps its status.
pub data LoadError : Type 0 where
  unfunded_account invalid_public_key : LoadError
  network_error : Option ℕ → LoadError

-- `handleLoadAccountError`, less the texts of its messages.
unfoldable pub handle_load_account_error : HorizonError → LoadError
handle_load_account_error error = elim error.status [
  | none ↦ network_error none
  | some s ↦
      if s == 404
      then unfunded_account
      else if (s == 400) && error.names_public_key
      then invalid_public_key
      else if s == 0
      then network_error none
      else network_error (some s)
]

module _ {A : Type 0} (N : Network A) where
  abbrev pub load_result : Outcome A → LoadError ⊎ A
  load_result (returned a) = inr a
  load_result (thrown error) = inl (handle_load_account_error error)
  load_result exhausted = inl (network_error none)

  -- `loadAccountSafe`
  unfoldable pub load_account_safe : LoadError ⊎ A
  load_account_safe = load_result (with_retry N).outcome

  -- An account is reported as unfunded only if the last of at most four answers was a 404.
  pub load_account_safe_unfunded :
      load_account_safe ≡ inl unfunded_account
      → (error : HorizonError) × (N.request (with_retry N).calls ≡ inl error)
        × (error.status ≡ some 404)
  unfolding load_account_safe handle_load_account_error
  load_account_safe_unfunded h =
      let last = Answers.last (with_retry-Answers N) in
      elim (Sum-cases (N.request (with_retry N).calls)) [
        | inl (error, e) ↦ (error, e, ground arith)
        | inr (x, e) ↦ absurd (ground arith)
      ]
