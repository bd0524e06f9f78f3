-- ===== src/Server/Loop/Ends.antt =====
-- The event loop of the server comes to its end.
use market_bridge.Base.{
  ℕ, ◌+◌, ◌≤◌, ◌≡◌, ◌≢◌, ◌⊎◌, inl, inr, refl, Bool, true, false, Option, none, some, arith,
  if◌then◌else◌, Bool-cases, ap, ◌∙◌,
}
use market_bridge.Config.{ServerRunningMode}
use market_bridge.Session.ErrorCode.{ErrorCode, success, failure, is_aborted, check_ec}
use market_bridge.Server.Loop.{
  Place, absent, testing, calling, waiting, leaving, ended, faulted, Signals, idle, awaiting,
  queued, Port, on_http, on_https, Loop, place_at, acceptor_at, move, set_up, test_flag,
  begin_accept, on_accept, uninstall_signals_handler, leave, begin_shutdown, on_signal, is_open,
  Step, tests, calls, accepts, leaves, signalled, handles, closes, Reach, here, next,
}
use market_bridge.Server.Loop.Tidy.{Reach-IsTidy, set_up-IsTidy, IsShut, Step-IsShut}

-- How many steps are left at a place once the acceptors are closed, for the signals, and in all.
abbrev pub left_at : Place → ℕ
left_at testing = 4
left_at calling = 3
left_at waiting = 2
left_at leaving = 1
left_at _ = 0

abbrev pub left_for : Signals → ℕ
left_for idle = 0
left_for awaiting = 3
left_for (queued ec) = 2

abbrev pub left : Loop → ℕ
left s = left_at s.http + left_at s.https + left_for s.signals + (if s.closing then 1 else 0)

move-left :
    (p : Port) (place : Place) (s : Loop)
    → left (move p place s) + left_at (place_at p s) ≡ left s + left_at place
move-left on_http place s = omega arith
move-left on_https place s = omega arith

acceptor_at-shut : (p : Port) (s : Loop) → IsShut s → is_open (acceptor_at p s.acceptors) ≡ false
acceptor_at-shut on_http s h = h.http
acceptor_at-shut on_https s h = h.https

test_flag-left : (b : Bool) → left_at (test_flag b) ≤ 3
unfolding test_flag
test_flag-left b = ground arith

begin_accept-left : (a : Option Bool) → left_at (begin_accept a) ≤ 2
unfolding begin_accept
begin_accept-left none = omega arith
begin_accept-left (some b) = omega arith

on_accept-left :
    (mode : ServerRunningMode) (ec : ErrorCode) (b : Bool)
    → b ≡ false
    → (b ≡ true) ⊎ (ec ≢ success)
    → left_at (on_accept mode ec) ≤ 1
unfolding on_accept is_aborted check_ec
on_accept-left mode ec b e o = ground (arith, o)

leave-left :
    (p : Port) (s : Loop) → (left (leave s) ≤ left s) × (place_at p (leave s) ≡ place_at p s)
unfolding leave uninstall_signals_handler
leave-left on_http s = (ground arith, refl)
leave-left on_https s = (ground arith, refl)

on_signal-left :
    (ec : ErrorCode) (s : Loop) → s.signals ≡ queued ec → left (on_signal ec s) + 1 ≤ left s
unfolding on_signal begin_shutdown
on_signal-left ec s e = ground (arith, ap left_for e)

pub Step-left : (s t : Loop) → Step s t → IsShut s → left t + 1 ≤ left s
Step-left s t (tests p e q) h = rw q (
    omega (
      arith,
      move-left p (test_flag s.shutdown_pending) s,
      ap left_at e,
      test_flag-left s.shutdown_pending,
    ))
Step-left s t (calls p e q) h = rw q (
    omega (
      arith,
      move-left p (begin_accept (acceptor_at p s.acceptors)) s,
      ap left_at e,
      begin_accept-left (acceptor_at p s.acceptors),
    ))
Step-left s t (accepts p ec e o q) h = rw q (
    omega (
      arith,
      move-left p (on_accept s.mode ec) s,
      ap left_at e,
      on_accept-left s.mode ec _ (acceptor_at-shut p s h) o,
    ))
Step-left s t (leaves p e q) h =
    let (fewer, same) = leave-left p s in
    rw q (omega (arith, move-left p ended (leave s), ap left_at (same ∙ e), fewer))
Step-left s t (signalled e q) h = rw q (omega (arith, ap left_for e))
Step-left s t (handles ec e q) h = rw q (on_signal-left ec s e)
Step-left s t (closes e q) h = rw q (ground arith)

-- The number of steps of a run.
abbrev pub steps : {s t : Loop} → Reach s t → ℕ
steps here = 0
steps (next r st) = steps r + 1

pub Reach-left : (s t : Loop) (r : Reach s t) → IsShut s → (left t + steps r ≤ left s) × IsShut t
Reach-left s t here h = (omega arith, h)
Reach-left s u (next {t} r st) h =
    let (a, b) = Reach-left s t r h in (omega (arith, a, Step-left t u st b), Step-IsShut t u st b)

-- Where something is left, there is a step for which no signal and no connection is needed.
place-progress :
    (p : Port) (place : Place) (s : Loop)
    → place_at p s ≡ place
    → (left_at place ≡ 0) ⊎ ((u : Loop) × Step s u)
place-progress p absent s e = inl refl
place-progress p testing s e = inr (_, tests p e refl)
place-progress p calling s e = inr (_, calls p e refl)
place-progress p waiting s e = inr (_, accepts p (failure 0) e (inr (λ c. cc)) refl)
place-progress p leaving s e = inr (_, leaves p e refl)
place-progress p ended s e = inl refl
place-progress p faulted s e = inl refl

signals-progress :
    (g : Signals) (s : Loop)
    → s.signals ≡ g
    → g ≢ awaiting
    → (left_for g ≡ 0) ⊎ ((u : Loop) × Step s u)
signals-progress idle s e h = inl refl
signals-progress awaiting s e h = absurd (h refl)
signals-progress (queued ec) s e h = inr (_, handles ec e refl)

closing-progress : (s : Loop) → (s.closing ≡ false) ⊎ ((u : Loop) × Step s u)
closing-progress s = elim (Bool-cases s.closing) [ inl e ↦ inr (_, closes e refl) | inr e ↦ inl e ]

pub progress : (s : Loop) → s.signals ≢ awaiting → (left s ≡ 0) ⊎ ((u : Loop) × Step s u)
progress s h = elim (place-progress on_http s.http s refl) [
  | inr u ↦ inr u
  | inl a ↦ elim (place-progress on_https s.https s refl) [
    | inr u ↦ inr u
    | inl b ↦ elim (signals-progress s.signals s refl h) [
      | inr u ↦ inr u
      | inl c ↦ elim (closing-progress s) [
        | inr u ↦ inr u
        | inl d ↦ inl (ground (arith, a, b, c, d))
      ]
    ]
  ]
]

left-le : (s : Loop) → left s ≤ 12
left-le s = ground arith

-- The event loop comes to its end. Once the HTTP acceptor of a server that was set up is closed, be it
-- by a listener that leaves its loop on an error or behind its single request, or by the shutdown that
-- a signal schedules, then at most twelve further steps are possible, no signal is awaited any more,
-- and until nothing is left to do, neither listener, handler nor shutdown, a step is possible.
pub server_loop_ends :
    (mode : ServerRunningMode) (http_port https_port : ℕ) (s t : Loop)
    → Reach (set_up mode http_port https_port) s
    → is_open s.acceptors.http ≡ false
    → (r : Reach s t)
    → (steps r + left t ≤ 12) × (t.signals ≢ awaiting) × ((left t ≡ 0) ⊎ ((u : Loop) × Step t u))
server_loop_ends mode http_port https_port s t before shut r =
    let tidy = Reach-IsTidy _ s before (set_up-IsTidy mode http_port https_port) in
    let (fewer, closed) = Reach-left s t r (record { http = shut; https = tidy.both shut }) in
    let quiet = (Reach-IsTidy s t r tidy).quiet closed.http in
    (omega (arith, fewer, left-le s), quiet, progress t quiet)
