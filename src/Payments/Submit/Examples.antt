-- ===== src/Payments/Submit/Examples.antt =====
-- Runs of `submitPayment`, with the cached balances of the accounts.
use coop_lumen_index.Base.{
  ℕ, ◌+◌, ◌-◌, inr, true, Option, none, some, [], ◌∷◌, ltb, pos, if◌then◌else◌,
}
use coop_lumen_index.Stellar.TimeBounds.{Options}
use coop_lumen_index.Balances.Examples.{OneEntry}
use coop_lumen_index.Payments.Submit.{PaymentNetwork, PaymentParams}

abbrev network : PaymentNetwork
network = record {
  Envelope = ℕ;
  from_secret = λ secret. if ltb secret 10 then none else some (secret - 10);
  load_account = λ key. inr key;
  operation_fits = λ destination asset amount. true;
  submit = λ tx key. inr (tx.destination + 100);
  to_xdr = λ tx. tx.account;
  decode = λ xdr. inr xdr;
  submit_envelope = λ envelope. inr envelope;
  lookup_hash = λ hash. inr hash;
  message = λ failure. "refused";
}

abbrev clock : Options
clock = record { default_timeout_seconds = pos 30; now_seconds = pos 1000 }

abbrev disbursal : PaymentParams
disbursal = record {
  payer = 17;
  destination_public_key = 3;
  asset_code = b'X' ∷ b'L' ∷ b'M' ∷ [];
  asset_issuer = 0;
  amount = b'5' ∷ [];
  memo = none;
  time_bounds = record { min_time = none; max_time = none };
}

-- Balances of the account 7 are cached.
abbrev before_payment : Option OneEntry
before_payment = some (record { key = 7; raw = 42; until = 9000 })
