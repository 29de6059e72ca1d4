-- ===== src/Stellar/Examples.antt =====
-- The theorems about the Stellar layer at concrete inputs.
use coop_lumen_index.Base.{
  ℕ, ◌+◌, ◌-◌, ◌<◌, ◌≡◌, ◌↔◌, refl, ◌⊎◌, inl, inr, false, none, some, [], ◌∷◌, arith, if◌then◌else◌,
  ◌==◌, pos, ◌+ℤ◌, sub_ℕ, true, List, ltb,
}
use coop_lumen_index.Stellar.TimeBounds.{
  Input, Options, ResolvedTimeBounds, IsUsable, digits, resolve_time_bounds, to_unix_seconds,
  in_range, window, min_seconds, max_seconds, resolve_time_bounds_sound, resolve_time_bounds_exact,
}
use coop_lumen_index.Stellar.Retry.{
  HorizonError, absent, Network, Answers, with_retry, with_retry-Answers, attempts_from,
}
use coop_lumen_index.Stellar.Sequence.{SubmitError, tx_bad_seq, CacheEntry, Horizon}
use coop_lumen_index.Stellar.Sequence.Turns.{
  Queue, Reach, here, next, enters, starts, empty, enter, set, running, waiting, settled,
  Reach-IsExclusive,
}
use coop_lumen_index.Stellar.Sequence.Turns.Progress.{Finished, Reach-Finished}
use coop_lumen_index.Stellar.Batch.{Sdk, BatchPaymentEntry}
use coop_lumen_index.Stellar.Trustlines.{
  Amount, seven_digits, to_stroops, subtract_amounts, worth, signed_worth, subtract_amounts_exact,
  BalanceLine, native_line, issued,
}

abbrev input : Input
input = record { min_time = some (digits 100); max_time = none }

abbrev options : Options
options = record { default_timeout_seconds = pos 30; now_seconds = pos 1000 }

abbrev bounds : ResolvedTimeBounds
bounds = record { min_time = pos 100; max_time = pos 1030 }

resolved : resolve_time_bounds input options ≡ inr bounds
unfolding resolve_time_bounds min_seconds max_seconds to_unix_seconds in_range window ◌+ℤ◌
resolved = refl

resolve_time_bounds_exact_example : (resolve_time_bounds input options ≡ inr bounds) ↔ (
    IsUsable (pos 1000) bounds
    × (min_seconds input ≡ inr (pos 100))
    × (max_seconds input options ≡ inr (pos 1030)))
resolve_time_bounds_exact_example = resolve_time_bounds_exact input options bounds

bounds-IsUsable : IsUsable (pos 1000) bounds
bounds-IsUsable = (resolve_time_bounds_sound input options bounds resolved).0

abbrev busy : HorizonError
busy = record { status = some 503; retry_after = absent; names_public_key = false }

abbrev missing : HorizonError
missing = record { status = some 404; retry_after = absent; names_public_key = false }

-- Two answers of 503, and then a 404.
abbrev network : Network ℕ
network = record {
  request = λ n. if n == 3 then inl missing else inl busy;
  now = λ _. pos 0;
  jitter = λ a base. base - 1;
}

with_retry-Answers_example : Answers network 1 (with_retry network)
with_retry-Answers_example = with_retry-Answers network

three_calls : (with_retry network).calls ≡ 3
unfolding with_retry attempts_from
three_calls = refl

-- Horizon knows the account at 40; the world is the number of submissions.
abbrev horizon : Horizon
horizon = record { World = ℕ; load = λ key w. (inr 40, w); now = λ w. 0 }

-- The network takes nothing but 41.
abbrev submit : ℕ → ℕ → (SubmitError ⊎ ℕ) × ℕ × ℕ
submit number w = (
  if number + 1 == 41 then inr 41 else inl (record { transaction = some tx_bad_seq }),
  number + 1,
  w + 1,
)

abbrev stale : CacheEntry
stale = record { public_key = 5; account = 30; cached_at = 0 }

abbrev two_callers : Queue
two_callers = enter (enter empty)

started : Reach (record two_callers { phase = set two_callers.phase 0 running })
unfolding enter
started =
    let one : Reach (enter empty) = next here enters in
    let two : Reach two_callers = next one enters in next two (starts 0 (omega arith) refl tt)

Reach-IsExclusive_example :
    (1 < 0 → set two_callers.phase 0 running 1 ≡ settled)
    × (0 < 1 → set two_callers.phase 0 running 1 ≡ waiting)
unfolding enter
Reach-IsExclusive_example = Reach-IsExclusive 0 1 started (omega arith) (omega arith) refl

-- 100.5 and 100.7500001
abbrev low : Amount
low = record { whole = 100; fraction = 5 ∷ [] }

abbrev high : Amount
high = record { whole = 100; fraction = 7 ∷ 5 ∷ 0 ∷ 0 ∷ 0 ∷ 0 ∷ 1 ∷ [] }

subtract_amounts_exact_example :
    signed_worth (subtract_amounts low high) ≡ sub_ℕ (worth low) (worth high)
subtract_amounts_exact_example = subtract_amounts_exact low high

less : subtract_amounts low high ≡ record {
  negative = true;
  magnitude = record { whole = 0; fraction = 2 ∷ 5 ∷ 0 ∷ 0 ∷ 0 ∷ 0 ∷ 1 ∷ [] };
}
unfolding subtract_amounts to_stroops seven_digits
less = refl

abbrev nothing : Amount
nothing = record { whole = 0; fraction = 0 ∷ 0 ∷ [] }

abbrev lines : List BalanceLine
lines = native_line ∷ issued 4 6 high nothing none (some nothing) none ∷ []

abbrev sdk : Sdk
sdk = record { is_public_key = λ key. ltb key 100; xlm = 0 }

-- 12.5 of the native asset, and 0.01 of another.
abbrev batch : List BatchPaymentEntry
batch =
    record {
      destination_public_key = 5;
      asset_code = 0;
      asset_issuer = none;
      amount = b'1' ∷ b'2' ∷ b'.' ∷ b'5' ∷ [];
    }
    ∷ record {
      destination_public_key = 6;
      asset_code = 4;
      asset_issuer = some 7;
      amount = b'0' ∷ b'.' ∷ b'0' ∷ b'1' ∷ [];
    }
    ∷ []

abbrev first : BatchPaymentEntry
first = record {
  destination_public_key = 5;
  asset_code = 0;
  asset_issuer = none;
  amount = b'1' ∷ [];
}

abbrev second : BatchPaymentEntry
second = record {
  destination_public_key = 6;
  asset_code = 0;
  asset_issuer = none;
  amount = b'2' ∷ [];
}

Reach-Finished_example : Finished (enter (enter empty))
Reach-Finished_example = Reach-Finished (next (next here enters) enters)
