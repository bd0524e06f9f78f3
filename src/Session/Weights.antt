-- ===== src/Session/Weights.antt =====
-- Sums over the outstanding operations, and the rule for invariants that count them.
use market_bridge.Base.{ℕ, ◌+◌, ◌≤◌, ◌≡◌, ap, List, [], ◌∷◌, ◌++◌, map, arith}
use market_bridge.Session.ErrorCode.{operation_aborted}
use market_bridge.Session.Defs.{
  Op, starting, stopping, reading_header, timer_running, timer_handler, timing_out, rejecting,
  answering_health, writing, outgoing_starting, resolving, connecting, handshaking, sending,
  receiving, Session,
}
use market_bridge.Session.Handlers.{stop, cancelled}
use market_bridge.Session.Steps.{Completion, complete, Step, completes, stops, Reach, here, next}

abbrev pub total : (Op → ℕ) → List Op → ℕ
total weight [] = 0
total weight (op ∷ ops) = weight op + total weight ops

pub total-append :
    (weight : Op → ℕ) (xs ys : List Op)
    → total weight (xs ++ ys) ≡ total weight xs + total weight ys
total-append weight [] ys = omega arith
total-append weight (op ∷ xs) ys = omega (arith, total-append weight xs ys)

-- An operation taken out of the list.
pub total_remove :
    (weight : Op → ℕ) (ops before : List Op) (op : Op) (after : List Op)
    → ops ≡ before ++ op ∷ after
    → total weight ops ≡ total weight (before ++ after) + weight op
total_remove weight ops before op after e = omega (
  arith,
  ap (total weight) e,
  total-append weight before (op ∷ after),
  total-append weight before after,
)

weight-cancelled :
    (weight : Op → ℕ) (op : Op)
    → weight (timer_handler operation_aborted) ≤ weight timer_running
    → weight (cancelled op) ≤ weight op
weight-cancelled weight timer_running h = h
weight-cancelled weight starting h = omega arith
weight-cancelled weight stopping h = omega arith
weight-cancelled weight reading_header h = omega arith
weight-cancelled weight (timer_handler ec) h = omega arith
weight-cancelled weight (timing_out ec) h = omega arith
weight-cancelled weight rejecting h = omega arith
weight-cancelled weight answering_health h = omega arith
weight-cancelled weight (writing b) h = omega arith
weight-cancelled weight outgoing_starting h = omega arith
weight-cancelled weight resolving h = omega arith
weight-cancelled weight connecting h = omega arith
weight-cancelled weight handshaking h = omega arith
weight-cancelled weight sending h = omega arith
weight-cancelled weight receiving h = omega arith

-- Cancelling the timer adds nothing.
pub total-cancelled :
    (weight : Op → ℕ) (ops : List Op)
    → weight (timer_handler operation_aborted) ≤ weight timer_running
    → total weight (map cancelled ops) ≤ total weight ops
total-cancelled weight [] h = omega arith
total-cancelled weight (op ∷ ops) h =
    omega (arith, weight-cancelled weight op h, total-cancelled weight ops h)

-- `Holds s n`: an invariant of a session with weight `n` beside what is outstanding. It holds on every
-- run if it holds as an operation is taken out, with its weight, and is kept as that completes.
module _ (Holds : Session → ℕ → Type 0) (weight : Op → ℕ)
    (take_out : (s : Session) (before : List Op) (op : Op) (after : List Op)
      → s.pending ≡ before ++ op ∷ after
      → Holds s 0
      → Holds (record s { pending = before ++ after }) (weight op))
    (complete_keeps : (op : Op) (k : Completion) (s : Session)
      → Holds s (weight op)
      → Holds (complete op k s) 0)
    (stop_keeps : (s : Session) → Holds s 0 → Holds (stop s) 0) where
  pub Step-keeps : (s t : Session) → Step s t → Holds s 0 → Holds t 0
  Step-keeps s t (completes before op after k e q) h = rw q (
      complete_keeps op k (record s { pending = before ++ after }) (take_out s before op after e h))
  Step-keeps s t (stops q) h = rw q (stop_keeps s h)

  pub Reach-keeps : (s t : Session) → Reach s t → Holds s 0 → Holds t 0
  Reach-keeps s t here h = h
  Reach-keeps s u (next {t} r st) h = Step-keeps t u st (Reach-keeps s t r h)
