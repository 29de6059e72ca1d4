-- ===== src/Operations/Sent.antt =====
-- backend/src/contracts/assets.ts, stellar.ts and sequenceCache.ts: what an operation puts on the
-- ledger, where each submission is tried again up to three times, and may be made under a second number.
use mathlib.Core.Path.{subst}
use coop_lumen_index.Base.{
  ℕ, zero, suc, ◌+◌, ◌≡◌, refl, sym, ap, ◌∙◌, ◌⊎◌, inl, inr, true, Option, none, List, ◌∷◌, arith,
  Bool-cases, Option-cases, Sum-cases,
}
use coop_lumen_index.Stellar.Retry.{is_retryable}
use coop_lumen_index.Stellar.Sequence.{
  Horizon, SubmitError, CacheEntry, is_bad_sequence_error, lookup, invalidate, is_fresh,
  load_and_run, with_account, retry_after, with_sequence_retry,
}
use coop_lumen_index.Balances.{BalanceRedis}
use coop_lumen_index.Balances.Recent.{KeepsForAWhile, Deletes}
use coop_lumen_index.Balances.Gone.{names_key, invalidated}
use coop_lumen_index.Operations.{
  Operation, NumberedTransaction, OperationFailure, SubmitNetwork, Extras, submit_attempts,
  submit_transaction, passed_on, build_and_submit, Shared, settled_for, submit_operation,
}

-- A transaction is on a ledger, of which the latest comes first.
pub data IsOn (tx : NumberedTransaction) : List NumberedTransaction → Type 0 where
  on_top : {ledger : List NumberedTransaction} → IsOn tx (tx ∷ ledger)
  below :
      {other : NumberedTransaction} {ledger : List NumberedTransaction}
      → IsOn tx ledger
      → IsOn tx (other ∷ ledger)

-- The transactions that Horizon has accepted: a call may add its transaction, whatever it answers, but
-- not twice; after a hash it is there.
pub record Ledger (H : Horizon) (N : SubmitNetwork H) : Type 0 where
  pub accepted : H.World → List NumberedTransaction
  pub load_keeps : (key : ℕ) (w : H.World) → accepted (H.load key w).1 ≡ accepted w
  pub may_add :
      (tx : NumberedTransaction) (w : H.World)
      → (accepted (N.post tx w).1 ≡ accepted w) ⊎ (accepted (N.post tx w).1 ≡ tx ∷ accepted w)
  pub never_twice :
      (tx : NumberedTransaction) (w : H.World)
      → IsOn tx (accepted w)
      → accepted (N.post tx w).1 ≡ accepted w
  pub answered :
      (tx : NumberedTransaction) (w : H.World) (hash : ℕ)
      → (N.post tx w).0 ≡ inr hash
      → IsOn tx (accepted (N.post tx w).1)

module _ (H : Horizon) (N : SubmitNetwork H) (L : Ledger H N) where
  open H use {World, load}
  open N use {post, status_of, operation_fits}
  open L use {accepted, load_keeps, may_add, never_twice, answered}

  -- The ledger is what it was, or has the transaction more.
  abbrev MayHave : NumberedTransaction → List NumberedTransaction → World → Type 0
  MayHave tx before w = (accepted w ≡ before) ⊎ (accepted w ≡ tx ∷ before)

  post-MayHave :
      (tx : NumberedTransaction) (before : List NumberedTransaction) (w : World)
      → MayHave tx before w
      → MayHave tx before (post tx w).1
  post-MayHave tx before w (inr e) = inr (never_twice tx w (subst (IsOn tx) (sym e) on_top) ∙ e)
  post-MayHave tx before w (inl e) = elim (may_add tx w) [
    | inl same ↦ inl (same ∙ e)
    | inr more ↦ inr (more ∙ ap (λ l. tx ∷ l) e)
  ]

  attempts-MayHave :
      (left : ℕ) (tx : NumberedTransaction) (before : List NumberedTransaction) (w : World)
      → MayHave tx before w
      → MayHave tx before (submit_attempts H N left tx w).1
  unfolding submit_attempts
  attempts-MayHave zero tx before w h = post-MayHave tx before w h
  attempts-MayHave (suc left) tx before w h =
      let once = post-MayHave tx before w h in
      elim (Sum-cases (post tx w).0) [
        | inr (hash, e) ↦ rw (e, submit_attempts) once
        | inl (error, e) ↦ elim (Bool-cases (is_retryable (status_of error))) [
          | inl again ↦
              rw (e, submit_attempts)
                (rw again (attempts-MayHave left tx before (post tx w).1 once))
          | inr final ↦ rw (e, submit_attempts) (rw final once)
        ]
      ]

  attempts_answered :
      (left : ℕ) (tx : NumberedTransaction) (w : World) (hash : ℕ)
      → (submit_attempts H N left tx w).0 ≡ inr hash
      → IsOn tx (accepted (submit_attempts H N left tx w).1)
  unfolding submit_attempts
  attempts_answered zero tx w hash h = answered tx w hash h
  attempts_answered (suc left) tx w hash h = elim (Sum-cases (post tx w).0) [
    | inr (n, e) ↦ rw (e, submit_attempts) (answered tx w n e)
    | inl (error, e) ↦ elim (Bool-cases (is_retryable (status_of error))) [
      | inl again ↦
          rw (e, submit_attempts)
            (rw again (
              attempts_answered left tx (post tx w).1 hash
                (rw again at (rw (e, submit_attempts) at h))))
      | inr final ↦
          rw (e, submit_attempts)
            (rw final (answered tx w hash (rw final at (rw (e, submit_attempts) at h))))
    ]
  ]

  -- A transaction of the source, of this operation, with a memo and bounds that it was given.
  pub record IsOf (source : ℕ) (operation : Operation) (extras : World → Extras)
      (tx : NumberedTransaction) : Type 0 where
    pub from_source : tx.source ≡ source
    pub of_operation : tx.operation ≡ operation
    pub at_world : World
    pub of_extras : extras at_world ≡ inr (tx.memo, tx.bounds)

  module _ (source : ℕ) (operation : Operation) (extras : World → Extras) where
    -- A ledger has at most so many transactions more, each of them one that was asked for.
    pub data Adds : ℕ → List NumberedTransaction → List NumberedTransaction → Type 0 where
      adds_none : {most : ℕ} {ledger : List NumberedTransaction} → Adds most ledger ledger
      adds_one :
          {most : ℕ} {before after : List NumberedTransaction} (tx : NumberedTransaction)
          → IsOf source operation extras tx
          → Adds most before after
          → Adds (suc most) before (tx ∷ after)

    Adds-more :
        {most : ℕ} {before after : List NumberedTransaction}
        → Adds most before after
        → Adds (suc most) before after
    Adds-more adds_none = adds_none
    Adds-more (adds_one tx asked more) = adds_one tx asked (Adds-more more)

    Adds-wider :
        (n : ℕ) {before after : List NumberedTransaction}
        → Adds 1 before after
        → Adds (suc n) before after
    Adds-wider zero adds = adds
    Adds-wider (suc n) adds = Adds-more (Adds-wider n adds)

    Adds-then :
        {n : ℕ} {before mid after : List NumberedTransaction}
        → Adds 1 before mid
        → Adds n mid after
        → Adds (suc n) before after
    Adds-then first (adds_none {most = n}) = Adds-wider n first
    Adds-then first (adds_one tx asked rest) = adds_one tx asked (Adds-then first rest)

    MayHave-Adds :
        (tx : NumberedTransaction) (before : List NumberedTransaction) (w : World)
        → IsOf source operation extras tx
        → MayHave tx before w
        → Adds 1 before (accepted w)
    MayHave-Adds tx before w asked (inl e) = subst (Adds 1 before) (sym e) adds_none
    MayHave-Adds tx before w asked (inr e) =
        subst (Adds 1 before) (sym e) (adds_one tx asked adds_none)

    -- A transaction that was asked for is on the ledger, after an answer with a hash.
    abbrev pub Landed : SubmitError ⊎ (OperationFailure ⊎ ℕ) → World → Type 0
    Landed (inl e) w = Unit
    Landed (inr (inl e)) w = Unit
    Landed (inr (inr hash)) w =
        (tx : NumberedTransaction) × IsOf source operation extras tx × IsOn tx (accepted w)

    -- What an answer says of the ledger between two worlds.
    abbrev pub Went :
        ℕ → List NumberedTransaction → SubmitError ⊎ (OperationFailure ⊎ ℕ) → World → Type 0
    Went most before r w = Adds most before (accepted w) × Landed r w

    passed_on_lem :
        (r : (SubmitError ⊎ ℕ) × World) (tx : NumberedTransaction)
        (before : List NumberedTransaction) (number : ℕ)
        → IsOf source operation extras tx
        → Adds 1 before (accepted r.1)
        → ((hash : ℕ) → r.0 ≡ inr hash → IsOn tx (accepted r.1))
        → Went 1 before (passed_on H N r number).0 (passed_on H N r number).2
    passed_on_lem (inl e, w) tx before number asked adds there = (adds, tt)
    passed_on_lem (inr hash, w) tx before number asked adds there =
        (adds, (tx, asked, there hash refl))

    abbrev pub job : ℕ → World → (SubmitError ⊎ (OperationFailure ⊎ ℕ)) × ℕ × World
    job = build_and_submit H N source operation extras

    pub job-Went : (number : ℕ) (w : World) → Went 1 (accepted w) (job number w).0 (job number w).2
    unfolding build_and_submit submit_transaction
    job-Went number w = elim (Bool-cases (operation_fits operation)) [
      | inr bad ↦ rw bad (adds_none, tt)
      | inl fits ↦ elim (Sum-cases (extras w)) [
        | inl (e, x) ↦ rw (fits, x) (adds_none, tt)
        | inr ((memo, bounds), x) ↦
            let tx : NumberedTransaction = record {
              source = source;
              sequence = number + 1;
              operation = operation;
              memo = memo;
              bounds = bounds;
            } in
            let asked : IsOf source operation extras tx = record {
              from_source = refl;
              of_operation = refl;
              at_world = w;
              of_extras = x;
            } in
            rw (fits, x)
              (passed_on_lem (submit_transaction H N tx w) tx (accepted w) (number + 1) asked
                (MayHave-Adds tx (accepted w) (submit_transaction H N tx w).1 asked
                  (attempts-MayHave 3 tx (accepted w) w (inl refl)))
                (attempts_answered 3 tx w))
      ]
    ]

    abbrev Run : Type 0
    Run = (SubmitError ⊎ (OperationFailure ⊎ ℕ)) × List CacheEntry × World

    load_and_run-Went :
        (key : ℕ) (cache : List CacheEntry) (w : World)
        → Went 1
            (accepted w)
            (load_and_run H _ key job cache w).0
            (load_and_run H _ key job cache w).2
    unfolding load_and_run
    load_and_run-Went key cache w = elim (Sum-cases (load key w).0) [
      | inl (e, l) ↦
          rw (l, load_and_run) (subst (Adds 1 (accepted w)) (sym (load_keeps key w)) adds_none, tt)
      | inr (number, l) ↦
          rw (l, load_and_run)
            (subst (λ b. Went 1 b (job number (load key w).1).0 (job number (load key w).1).2)
              (load_keeps key w) (job-Went number (load key w).1))
    ]

    with_account-Went :
        (key : ℕ) (cache : List CacheEntry) (w : World)
        → Went 1
            (accepted w)
            (with_account H _ key job cache w).0
            (with_account H _ key job cache w).2
    unfolding with_account
    with_account-Went key cache w = elim (Option-cases (lookup key cache)) [
      | inl none_cached ↦ rw (none_cached, with_account) (load_and_run-Went key cache w)
      | inr (entry, found) ↦ elim (Bool-cases (is_fresh H (OperationFailure ⊎ ℕ) entry w)) [
        | inl fresh ↦ rw (found, with_account) (rw fresh (job-Went entry.account w))
        | inr old ↦ rw (found, with_account) (rw old (load_and_run-Went key cache w))
      ]
    ]

    retry_after-Went :
        (key : ℕ) (before : List NumberedTransaction) (r : Run)
        → Went 1 before r.0 r.2
        → Went 2 before (retry_after H _ key job r).0 (retry_after H _ key job r).2
    unfolding retry_after
    retry_after-Went key before (inr a, cache, w) (adds, landed) = (Adds-more adds, landed)
    retry_after-Went key before (inl e, cache, w) (adds, landed) =
        elim (Bool-cases (is_bad_sequence_error e)) [
          | inr other ↦ rw other (Adds-more adds, tt)
          | inl bad ↦
              let again = with_account-Went key (invalidate key cache) w in
              rw bad (Adds-then adds again.0, again.1)
        ]

    sent-Went :
        (key : ℕ) (cache : List CacheEntry) (w : World)
        → Went 2
            (accepted w)
            (with_sequence_retry H _ key job cache w).0
            (with_sequence_retry H _ key job cache w).2
    unfolding with_sequence_retry
    sent-Went key cache w =
        retry_after-Went key (accepted w) (with_account H _ key job cache w)
          (with_account-Went key cache w)

  module _ (R : BalanceRedis) where
    -- At most so many transactions of the source are on the ledger more, and one that was asked for is
    -- there; nothing is found of the keys' cached balances if Redis could delete them.
    pub record IsSent (most source : ℕ) (operation : Operation) (extras : World → Extras)
        (keys : List (Option ℕ)) (s s' : Shared H N R) : Type 0 where
      pub tx : NumberedTransaction
      pub asked : IsOf source operation extras tx
      pub there : IsOn tx (accepted s'.world)
      pub adds : Adds source operation extras most (accepted s.world) (accepted s'.world)
      pub gone :
          KeepsForAWhile R
          → Deletes R
          → (key later : ℕ) → names_key key keys ≡ true
          → R.get key later s'.cached ≡ none

    pub settled-IsSent :
        (most source : ℕ) (operation : Operation) (extras : World → Extras) (keys : List (Option ℕ))
        (s s' : Shared H N R) (hash : ℕ)
        (r : (SubmitError ⊎ (OperationFailure ⊎ ℕ)) × List CacheEntry × World)
        → Went source operation extras most (accepted s.world) r.0 r.2
        → settled_for H N R keys r s.cached ≡ (inr hash, s')
        → IsSent most source operation extras keys s s'
    settled-IsSent most source operation extras keys s s' hash (inl e, c, w) went h =
        absurd (ground arith)
    settled-IsSent most source operation extras keys s s' hash (inr (inl e), c, w) went h =
        absurd (ground arith)
    settled-IsSent most source operation extras keys s s' hash (inr (inr n), c, w) went h =
        let (adds, (tx, asked, there)) = went in
        subst (IsSent most source operation extras keys s)
          (ap (λ (p : (OperationFailure ⊎ ℕ) × Shared H N R). p.1) h)
          (record {
            tx = tx;
            asked = asked;
            there = there;
            adds = adds;
            gone = λ laws deletes key later named.
                invalidated R laws deletes keys key (H.now w) later s.cached named;
          })

    pub submit_operation-IsSent :
        (source : ℕ) (operation : Operation) (extras : World → Extras) (keys : List (Option ℕ))
        (s s' : Shared H N R) (hash : ℕ)
        → submit_operation H N R source operation extras keys s ≡ (inr hash, s')
        → IsSent 2 source operation extras keys s s'
    unfolding submit_operation
    submit_operation-IsSent source operation extras keys s s' hash h =
        settled-IsSent 2 source operation extras keys s s' hash _
          (sent-Went source operation extras source s.sequences s.world) h
