-- ===== src/Stellar/Sequence/Turns.antt =====
-- backend/src/contracts/sequenceCache.ts: the queue of promises by which `withAccount` gives one
-- caller at a time the account of a key. Callers are numbered as they come; keys do not share a
-- queue, so this is the queue of one key.
pub mod Progress
use coop_lumen_index.Base.{
  ℕ, ◌+◌, ◌-◌, ◌≤◌, ◌<◌, ◌≡◌, ◌≢◌, refl, ap, ◌∙◌, ◌⊎◌, inl, inr, Bool, false, Option, none, some,
  arith, if◌then◌else◌, ◌==◌, Bool-cases, ltb, leb,
}

-- Whether a caller's `run` still waits for the promise before it, runs `fn`, or is settled.
pub data Phase : Type 0 where
  waiting running settled : Phase

-- `previous` of each caller is none for `Promise.resolve()`; `tail` is the entry of `queues`.
pub record Queue : Type 0 where
  pub callers : ℕ
  pub previous : ℕ → Option ℕ
  pub phase : ℕ → Phase
  pub tail : Option ℕ

abbrev pub set {ℓ} : {A : Type ℓ} → (ℕ → A) → ℕ → A → ℕ → A
set f i a j = if i == j then a else f j

-- A new caller: `this.queues.get(publicKey) ?? Promise.resolve()`, and `this.queues.set`.
unfoldable pub enter : Queue → Queue
enter q = record {
  callers = q.callers + 1;
  previous = set q.previous q.callers q.tail;
  phase = set q.phase q.callers waiting;
  tail = some q.callers;
}

abbrev pub IsFree : Queue → Option ℕ → Type 0
IsFree q none = Unit
IsFree q (some i) = q.phase i ≡ settled

abbrev pub is_tail : Option ℕ → ℕ → Bool
is_tail none i = false
is_tail (some t) i = t == i

-- `finally`: only the last caller takes the entry away.
unfoldable pub leave : ℕ → Queue → Queue
leave i q = record q { tail = if is_tail q.tail i then none else q.tail }

pub data Step (q : Queue) : Queue → Type 0 where
  enters : Step q (enter q)
  starts :
      (i : ℕ)
      → i < q.callers
      → q.phase i ≡ waiting
      → IsFree q (q.previous i)
      → Step q (record q { phase = set q.phase i running })
  settles :
      (i : ℕ)
      → i < q.callers
      → q.phase i ≡ running
      → Step q (record q { phase = set q.phase i settled })
  leaves : (i : ℕ) → i < q.callers → q.phase i ≡ settled → Step q (leave i q)

abbrev pub empty : Queue
empty = record { callers = 0; previous = λ _. none; phase = λ _. waiting; tail = none }

pub data Reach : Queue → Type 0 where
  here : Reach empty
  next : {q r : Queue} → Reach q → Step q r → Reach r

-- The callers before `turn` are settled; the one at `turn`, if there is one, has not been, and waits
-- for nothing or the one before it; those after it wait for the one before them; and the entry of the map is the last caller, or nothing
-- if all are settled.
pub record InTurn (q : Queue) : Type 0 where
  pub turn : ℕ
  pub bound : turn ≤ q.callers
  pub before : (i : ℕ) → i < turn → q.phase i ≡ settled
  pub current : turn < q.callers → q.phase turn ≢ settled
  pub ready :
      turn < q.callers
      → (q.previous turn ≡ none) ⊎ ((1 ≤ turn) × (q.previous turn ≡ some (turn - 1)))
  pub after :
      (i : ℕ) → turn < i → i < q.callers → (q.phase i ≡ waiting) × (q.previous i ≡ some (i - 1))
  pub last :
      ((1 ≤ q.callers) × (q.tail ≡ some (q.callers - 1))) ⊎ ((q.tail ≡ none) × (turn ≡ q.callers))

set_same {ℓ} : {A : Type ℓ} (f : ℕ → A) (i : ℕ) (a : A) → set f i a i ≡ a
set_same f i a = ground arith

set_other {ℓ} : {A : Type ℓ} (f : ℕ → A) (i j : ℕ) (a : A) → i ≢ j → set f i a j ≡ f j
set_other f i j a h = ground arith

pub not_settled :
    (q : Queue) (t : InTurn q) (i : ℕ) → InTurn.turn t ≤ i → i < q.callers → q.phase i ≢ settled
not_settled q t i a b = elim (Bool-cases (t.turn == i)) [
  | inl e ↦
      let this : t.turn ≡ i = ground arith in
      let c = t.current (omega arith) in λ s. c (ap q.phase this ∙ s)
  | inr d ↦ let later = t.after i (ground arith) b in λ s. ground arith
]

pub running_turn :
    (q : Queue) (t : InTurn q) (i : ℕ) → i < q.callers → q.phase i ≡ running → i ≡ InTurn.turn t
running_turn q t i h r = elim (Bool-cases (ltb i t.turn)) [
  | inl b ↦ let done = t.before i (ground arith) in absurd (ground arith)
  | inr a ↦ elim (Bool-cases (i == t.turn)) [
    | inl e ↦ ground arith
    | inr more ↦ let later = t.after i (ground arith) h in absurd (ground arith)
  ]
]

leaves-InTurn :
    (q : Queue) (t : InTurn q) (i : ℕ) → i < q.callers → q.phase i ≡ settled → InTurn (leave i q)
unfolding leave
leaves-InTurn q t i h s = record {
  turn = t.turn;
  bound = t.bound;
  before = t.before;
  current = t.current;
  ready = t.ready;
  after = t.after;
  last = elim (Bool-cases (leb t.turn i)) [
    | inl a ↦ absurd (not_settled q t i (ground arith) h s)
    | inr b ↦ let l = t.last in let le = t.bound in ground arith
  ];
}

-- Only the caller whose turn it is can start.
at_turn :
    (q : Queue) (t : InTurn q) (i : ℕ)
    → i < q.callers
    → q.phase i ≡ waiting
    → IsFree q (q.previous i)
    → i ≡ InTurn.turn t
at_turn q t i h w free = elim (Bool-cases (ltb i t.turn)) [
  | inl b ↦ let done = t.before i (ground arith) in absurd (ground arith)
  | inr a ↦ elim (Bool-cases (i == t.turn)) [
    | inl e ↦ ground arith
    | inr more ↦
        let later = t.after i (ground arith) h in
        let free' : q.phase (i - 1) ≡ settled = ground arith in
        absurd (not_settled q t (i - 1) (ground arith) (omega arith) free')
  ]
]

enters-InTurn : (q : Queue) → InTurn q → InTurn (enter q)
unfolding enter
enters-InTurn q t = record {
  turn = t.turn;
  bound = omega (arith, t.bound);
  before = λ i b. let old = t.before i b in let le = t.bound in ground arith;
  current = λ b. elim (Bool-cases (q.callers == t.turn)) [
    | inl e ↦ ground arith
    | inr d ↦ let old = t.current (let le = t.bound in ground arith) in λ s. old (ground arith)
  ];
  ready = λ b. elim (Bool-cases (q.callers == t.turn)) [
    | inl e ↦ let last = t.last in let le = t.bound in ground arith
    | inr d ↦ let old = t.ready (let le = t.bound in ground arith) in ground arith
  ];
  after = λ i a b. elim (Bool-cases (q.callers == i)) [
    | inl e ↦ let last = t.last in ground arith
    | inr d ↦ let old = t.after i a (ground arith) in ground arith
  ];
  last = inl (omega arith, ap some (omega arith));
}

pub Step-InTurn : {q r : Queue} → Step q r → InTurn q → InTurn r
Step-InTurn {q} enters t = enters-InTurn q t
Step-InTurn {q} (starts i h w free) t =
    let here = at_turn q t i h w free in
    record {
      turn = t.turn;
      bound = t.bound;
      before = λ j b. let old = t.before j b in ground arith;
      current = λ b s. ground arith;
      ready = t.ready;
      after = λ j a b. let old = t.after j a b in ground arith;
      last = t.last;
    }
Step-InTurn {q} (settles i h s) t =
    let here = running_turn q t i h s in
    record {
      turn = t.turn + 1;
      bound = omega arith;
      before = λ j b. elim (Bool-cases (i == j)) [
        | inl e ↦ ground arith
        | inr d ↦ let old = t.before j (ground arith) in ground arith
      ];
      current = λ b. let old = t.after (t.turn + 1) (omega arith) b in λ e. ground arith;
      ready = λ b. let old = t.after (t.turn + 1) (omega arith) b in ground arith;
      after = λ j a b. let old = t.after j (omega arith) b in ground arith;
      last = elim t.last [ inl l ↦ inl l | inr (n, e) ↦ absurd (omega arith) ];
    }
Step-InTurn {q} (leaves i h s) t = leaves-InTurn q t i h s

pub Reach-InTurn : {q : Queue} → Reach q → InTurn q
Reach-InTurn here = record {
  turn = 0;
  bound = omega arith;
  before = λ i b. absurd (omega arith);
  current = λ b. absurd (omega arith);
  ready = λ b. absurd (omega arith);
  after = λ i a b. absurd (omega arith);
  last = inr (refl, refl);
}
Reach-InTurn (next r s) = Step-InTurn s (Reach-InTurn r)

-- However callers of one key come, start, settle and leave: the callers before one that runs fn
-- have settled, and those after it wait. So two never run at once, and they run in the order
-- they came.
pub Reach-IsExclusive :
    {q : Queue} (i j : ℕ)
    → Reach q
    → i < q.callers
    → j < q.callers
    → q.phase i ≡ running
    → (j < i → q.phase j ≡ settled) × (i < j → q.phase j ≡ waiting)
Reach-IsExclusive {q} i j r h k runs =
    let t = Reach-InTurn r in
    let here = running_turn q t i h runs in
    (λ b. t.before j (omega arith), λ a. (t.after j (omega arith) k).0)
