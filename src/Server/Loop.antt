-- ===== src/Server/Loop.antt =====
-- Server::run, install_listeners, the signal handler and the listeners: what keeps io_.run() busy
-- besides the sessions. Each step is what one thread does before another can see it.
pub mod Tidy
pub mod Ends
pub mod Destroyed
use market_bridge.Base.{ℕ, ◌≡◌, ◌≢◌, ◌⊎◌, Bool, true, false, not, Option, none, some, if◌then◌else◌}
use market_bridge.Config.{ServerRunningMode}
use market_bridge.Session.ErrorCode.{ErrorCode, success, operation_aborted, is_aborted, check_ec}
use market_bridge.Server.Registry.{Acceptors, init_acceptors, uninstall_listeners, close_acceptors}
use market_bridge.Server.Listener.{is_single}

-- Where a listener stands: not spawned, before the test of shutdown_pending_, behind it, waiting for
-- async_accept, out of the loop, at its end; `faulted` if it has used a destroyed acceptor.
pub data Place : Type 0 where
  absent testing calling waiting leaving ended faulted : Place

-- signals_.async_wait: no handler, waiting, or queued with an error code.
pub data Signals : Type 0 where
  idle awaiting : Signals
  queued : ErrorCode → Signals

pub data Port : Type 0 where
  on_http on_https : Port

pub record Loop : Type 0 where
  pub mode : ServerRunningMode
  pub shutdown_pending : Bool
  pub acceptors : Acceptors
  pub http : Place
  pub https : Place
  pub signals : Signals
  -- schedule_shutdown has set the flag and has not closed the acceptors yet
  pub closing : Bool

abbrev pub place_at : Port → Loop → Place
place_at on_http s = s.http
place_at on_https s = s.https

abbrev pub acceptor_at : Port → Acceptors → Option Bool
acceptor_at on_http a = a.http
acceptor_at on_https a = a.https

abbrev pub move : Port → Place → Loop → Loop
move on_http place s = record s { http = place }
move on_https place s = record s { https = place }

-- if (acceptor) co_spawn(listener(*acceptor))
abbrev pub spawned : Option Bool → Place
spawned none = absent
spawned (some is_open) = testing

-- run, up to the threads: install_signals_handler, init_acceptors, install_listeners.
unfoldable pub set_up : ServerRunningMode → ℕ → ℕ → Loop
unfolding init_acceptors
set_up mode http_port https_port =
    let acceptors = init_acceptors http_port https_port in
    record {
      mode = mode;
      shutdown_pending = false;
      acceptors = acceptors;
      http = spawned acceptors.http;
      https = spawned acceptors.https;
      signals = awaiting;
      closing = false;
    }

-- while (!shutdown_pending_)
unfoldable pub test_flag : Bool → Place
test_flag shutdown_pending = if not shutdown_pending then calling else leaving

-- acceptor.async_accept, through a reference to what the unique_ptr has held.
unfoldable pub begin_accept : Option Bool → Place
begin_accept none = faulted
begin_accept (some is_open) = waiting

-- Behind async_accept.
unfoldable pub on_accept : ServerRunningMode → ErrorCode → Place
unfolding is_aborted check_ec is_single
on_accept mode ec =
    if is_aborted ec
    then ended
    else if not (check_ec ec)
    then leaving
    else if is_single mode
    then leaving
    else testing

-- signals_.cancel(): a handler that waits is queued with operation_aborted.
unfoldable pub uninstall_signals_handler : Signals → Signals
uninstall_signals_handler idle = idle
uninstall_signals_handler awaiting = queued operation_aborted
uninstall_signals_handler (queued ec) = queued ec

-- Behind the loop of a listener.
unfoldable pub leave : Loop → Loop
unfolding uninstall_signals_handler uninstall_listeners
leave s = record s {
  signals = uninstall_signals_handler s.signals;
  acceptors = uninstall_listeners s.acceptors;
}

-- schedule_shutdown up to stop_sessions.
unfoldable pub begin_shutdown : Loop → Loop
begin_shutdown s =
    if s.shutdown_pending then s else record s { shutdown_pending = true; closing = true }

-- The handler of install_signals_handler.
unfoldable pub on_signal : ErrorCode → Loop → Loop
unfolding check_ec begin_shutdown
on_signal ec s =
    let s' = record s { signals = idle } in if check_ec ec then begin_shutdown s' else s'

-- Whether the acceptor exists and is open.
abbrev pub is_open : Option Bool → Bool
is_open none = false
is_open (some open_) = open_

pub data Step (s : Loop) (t : Loop) : Type 0 where
  tests :
      (p : Port) → place_at p s ≡ testing → t ≡ move p (test_flag s.shutdown_pending) s → Step s t
  calls :
      (p : Port)
      → place_at p s ≡ calling
      → t ≡ move p (begin_accept (acceptor_at p s.acceptors)) s
      → Step s t
  -- an acceptor that is not open accepts nothing
  accepts :
      (p : Port) (ec : ErrorCode)
      → place_at p s ≡ waiting
      → ((is_open (acceptor_at p s.acceptors) ≡ true) ⊎ (ec ≢ success))
      → t ≡ move p (on_accept s.mode ec) s
      → Step s t
  leaves : (p : Port) → place_at p s ≡ leaving → t ≡ move p ended (leave s) → Step s t
  -- SIGINT or SIGTERM
  signalled : s.signals ≡ awaiting → t ≡ record s { signals = queued success } → Step s t
  handles : (ec : ErrorCode) → s.signals ≡ queued ec → t ≡ on_signal ec s → Step s t
  closes :
      s.closing ≡ true
      → t ≡ record s { acceptors = close_acceptors s.acceptors; closing = false }
      → Step s t

pub data Reach (s : Loop) : Loop → Type 0 where
  here : Reach s s
  next : {t u : Loop} → Reach s t → Step t u → Reach s u
