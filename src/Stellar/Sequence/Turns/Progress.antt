-- ===== src/Stellar/Sequence/Turns/Progress.antt =====
-- backend/src/contracts/sequenceCache.ts: whether the callers of a queue get their turns.
use coop_lumen_index.Base.{ℕ, zero, suc, ◌+◌, ◌-◌, ◌<◌, ◌≡◌, refl, ◌⊎◌, inl, inr, arith}
use coop_lumen_index.Stellar.Sequence.Turns.{
  Phase, waiting, running, settled, Queue, set, IsFree, starts, settles, InTurn, Reach,
  Reach-InTurn, Step-InTurn,
}

-- Steps of the callers that are in the queue, each of which has only to start and to settle.
pub data Runs : Queue → Queue → Type 0 where
  stop : {q : Queue} → Runs q q
  start_next :
      {q r : Queue} (i : ℕ)
      → i < q.callers
      → q.phase i ≡ waiting
      → IsFree q (q.previous i)
      → Runs (record q { phase = set q.phase i running }) r
      → Runs q r
  settle_next :
      {q r : Queue} (i : ℕ)
      → i < q.callers
      → q.phase i ≡ running
      → Runs (record q { phase = set q.phase i settled }) r
      → Runs q r

pub record Finished (q : Queue) : Type 0 where
  pub final : Queue
  pub runs : Runs q final
  pub same : final.callers ≡ q.callers
  pub done : (i : ℕ) → i < q.callers → final.phase i ≡ settled

phase_cases : (p : Phase) → (p ≡ waiting) ⊎ (p ≡ running) ⊎ (p ≡ settled)
phase_cases waiting = inl refl
phase_cases running = inr (inl refl)
phase_cases settled = inr (inr refl)

turn-IsFree : (q : Queue) (t : InTurn q) → t.turn < q.callers → IsFree q (q.previous t.turn)
turn-IsFree q t h = elim (t.ready h) [
  | inl e ↦ rw e tt
  | inr (b, e) ↦ rw e (t.before (t.turn - 1) (omega arith))
]

-- All callers before the end of the queue can be settled, by the number of those left.
finish : (left : ℕ) (q : Queue) (t : InTurn q) → q.callers ≡ left + t.turn → Finished q
unfolding Step-InTurn
finish zero q t e = record {
  final = q;
  runs = stop;
  same = refl;
  done = λ i h. t.before i (omega arith);
}
finish (suc left) q t e =
    let inside : t.turn < q.callers = omega arith in
    elim (phase_cases (q.phase t.turn)) [
      | inr (inr s) ↦ absurd (t.current inside s)
      | inr (inl p) ↦
          let rest =
            finish left (record q { phase = set q.phase t.turn settled })
              (Step-InTurn (settles t.turn inside p) t) (omega arith) in
          record {
            final = rest.final;
            runs = settle_next t.turn inside p rest.runs;
            same = rest.same;
            done = rest.done;
          }
      | inl w ↦
          let free = turn-IsFree q t inside in
          let started : Queue = record q { phase = set q.phase t.turn running } in
          let p : started.phase t.turn ≡ running = ground arith in
          let rest =
            finish left (record started { phase = set started.phase t.turn settled })
              (Step-InTurn (settles t.turn inside p) (Step-InTurn (starts t.turn inside w free) t))
              (omega arith) in
          record {
            final = rest.final;
            runs = start_next t.turn inside w free (settle_next t.turn inside p rest.runs);
            same = rest.same;
            done = rest.done;
          }
    ]

-- However callers of one key have come, started, settled and left: if no more come, those in the
-- queue can each start in turn and settle, so none waits for ever behind another as long as
-- every fn settles.
pub Reach-Finished : {q : Queue} → Reach q → Finished q
Reach-Finished {q} r =
    let t = Reach-InTurn r in let bound = t.bound in finish (q.callers - t.turn) q t (omega arith)
