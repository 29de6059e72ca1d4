-- ===== src/Http/Idempotency.antt =====
-- backend/src/api/middleware/idempotency.ts. Keys, endpoints and bodies are numbers; a handler takes
-- the state of the server to its answer and the state after it.
use coop_lumen_index.Base.{
  ℕ, ◌<◌, ◌≡◌, refl, Bool, true, false, ◌&&◌, Option, none, some, List, [], ◌∷◌, ◌++◌, arith, inl,
  inr, Bool-cases, if◌then◌else◌, ◌==◌, ltb, find, any,
}

pub record Answer : Type 0 where
  pub status_code : ℕ
  pub body : ℕ

pub record IdempotencyRow : Type 0 where
  pub key : ℕ
  pub endpoint : ℕ
  pub answer : Answer

-- SELECT … WHERE key = $1 AND endpoint = $2
abbrev pub replayed : ℕ → ℕ → List IdempotencyRow → Option IdempotencyRow
replayed key endpoint = find λ row. (row.key == key) && (row.endpoint == endpoint)

-- INSERT … ON CONFLICT (key) DO NOTHING
unfoldable pub remember : IdempotencyRow → List IdempotencyRow → List IdempotencyRow
remember row rows = if any (λ r. r.key == row.key) rows then rows else rows ++ row ∷ []

module _ (S : Type 0) where
  abbrev pub Handler : Type 0
  Handler = S → Answer × S

  pub record Server : Type 0 where
    pub rows : List IdempotencyRow
    pub state : S

  -- The wrapped `res.json`: of an answer below 500, an INSERT is sent that nobody waits for.
  abbrev pub sent_row : ℕ → ℕ → Answer → Option IdempotencyRow
  sent_row key endpoint answer =
      if ltb answer.status_code 500
      then some (record { key = key; endpoint = endpoint; answer = answer })
      else none

  -- What a request leaves: its answer, the INSERT that is on its way, if any, and the server.
  abbrev pub Served : Type 0
  Served = Answer × Option IdempotencyRow × Server

  abbrev pub run_handler : ℕ → ℕ → Handler → Server → Served
  run_handler key endpoint handler server =
      let (answer, state) = handler server.state in
      (answer, sent_row key endpoint answer, record server { state = state })

  -- The header is none if it is absent or empty.
  unfoldable pub idempotent : ℕ → Option ℕ → Handler → Server → Served
  idempotent endpoint none handler server =
      let (answer, state) = handler server.state in (answer, none, record server { state = state })
  idempotent endpoint (some key) handler server = elim (replayed key endpoint server.rows) [
    | some row ↦ (row.answer, none, server)
    | none ↦ run_handler key endpoint handler server
  ]

  -- The end of an INSERT, at any later time; of a failure nothing is heard: `.catch(() => undefined)`.
  unfoldable pub finish_insert : Bool → Option IdempotencyRow → Server → Server
  unfolding remember
  finish_insert true (some row) server = record server { rows = remember row server.rows }
  finish_insert _ _ server = server

  replayed-append :
      (key endpoint : ℕ) (answer : Answer) (rows : List IdempotencyRow)
      → any (λ r. r.key == key) rows ≡ false
      → replayed key endpoint
          (rows ++ record { key = key; endpoint = endpoint; answer = answer } ∷ [])
        ≡ some (record { key = key; endpoint = endpoint; answer = answer })
  replayed-append key endpoint answer [] h = ground arith
  replayed-append key endpoint answer (row ∷ rows) h =
      let rest = replayed-append key endpoint answer rows (ground arith) in ground arith

  unused_key :
      (key endpoint : ℕ) (rows : List IdempotencyRow)
      → any (λ r. r.key == key) rows ≡ false
      → replayed key endpoint rows ≡ none
  unused_key key endpoint [] h = refl
  unused_key key endpoint (row ∷ rows) h =
      let rest = unused_key key endpoint rows (ground arith) in ground arith

  first_run :
      (endpoint key : ℕ) (handler : Handler) (server : Server)
      → any (λ r. r.key == key) server.rows ≡ false
      → (handler server.state).0.status_code < 500
      → idempotent endpoint (some key) handler server ≡ (
        (handler server.state).0,
        some (record { key = key; endpoint = endpoint; answer = (handler server.state).0 }),
        record server { state = (handler server.state).1 },
      )
  unfolding idempotent
  first_run endpoint key handler server new success =
      let below : ltb (handler server.state).0.status_code 500 ≡ true = ground arith in
      rw (unused_key key endpoint server.rows new, idempotent) (rw below refl)

  remember_new :
      (key endpoint : ℕ) (answer : Answer) (rows : List IdempotencyRow)
      → any (λ r. r.key == key) rows ≡ false
      → remember (record { key = key; endpoint = endpoint; answer = answer }) rows
        ≡ rows ++ record { key = key; endpoint = endpoint; answer = answer } ∷ []
  unfolding remember
  remember_new key endpoint answer rows new = rw new refl

  remember_used :
      (key endpoint : ℕ) (answer : Answer) (rows : List IdempotencyRow)
      → any (λ r. r.key == key) rows ≡ true
      → remember (record { key = key; endpoint = endpoint; answer = answer }) rows ≡ rows
  unfolding remember
  remember_used key endpoint answer rows used = rw used refl

  -- A request with a new key that is answered below 500 sends an INSERT: once that has
  -- succeeded, whatever happened in between, the request sent again gets the same answer and
  -- changes nothing, whatever its handler would do now. If the INSERT failed, its handler runs
  -- again. Meanwhile the key is recorded by no other request.
  pub idempotent_replays :
      (endpoint key : ℕ) (handler again : Handler) (server later : Server)
      → any (λ r. r.key == key) server.rows ≡ false
      → (handler server.state).0.status_code < 500
      → any (λ r. r.key == key) later.rows ≡ false
      → let first = idempotent endpoint (some key) handler server in
        let kept = finish_insert true first.1 later in
        (idempotent endpoint (some key) again kept ≡ (first.0, none, kept))
        × (idempotent endpoint (some key) again (finish_insert false first.1 later)
            ≡ run_handler key endpoint again later)
  unfolding idempotent finish_insert
  idempotent_replays endpoint key handler again server later new success unused =
      let answer = (handler server.state).0 in
      let once = first_run endpoint key handler server new success in
      let stored = remember_new key endpoint answer later.rows unused in
      let found = replayed-append key endpoint answer later.rows unused in
      let missing = unused_key key endpoint later.rows unused in
      rw once (rw stored (rw (found, idempotent) refl), rw (missing, idempotent) refl)

  -- A request with a key that is recorded, but not at its own endpoint, runs its handler, and the INSERT
  -- that it sends changes nothing; so it runs each time it is sent.
  pub idempotent_other_endpoint :
      (endpoint key : ℕ) (handler : Handler) (server : Server)
      → any (λ r. r.key == key) server.rows ≡ true
      → replayed key endpoint server.rows ≡ none
      → let first = idempotent endpoint (some key) handler server in
        (first ≡ run_handler key endpoint handler server)
        × ((finish_insert true first.1 first.2).rows ≡ server.rows)
  unfolding idempotent remember finish_insert
  idempotent_other_endpoint endpoint key handler server used elsewhere =
      let first : idempotent endpoint (some key) handler server
          ≡ run_handler key endpoint handler server =
        rw (elsewhere, idempotent) refl in
      let answer = (handler server.state).0 in
      (
        first,
        rw first (elim (Bool-cases (ltb answer.status_code 500)) [
          | inl e ↦ rw e (remember_used key endpoint answer server.rows used)
          | inr e ↦ rw e refl
        ]),
      )
