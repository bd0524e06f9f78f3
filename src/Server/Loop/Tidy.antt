-- ===== src/Server/Loop/Tidy.antt =====
-- The acceptors are closed together, and behind that no signal is awaited.
use market_bridge.Base.{
  ℕ, ◌≡◌, ◌≢◌, inl, inr, refl, Bool, true, false, Option, none, some, arith, Bool-cases, ap, ◌∙◌,
}
use market_bridge.Config.{ServerRunningMode}
use market_bridge.Session.ErrorCode.{ErrorCode, success, operation_aborted, check_ec}
use market_bridge.Server.Registry.{
  Acceptors, init_acceptors, close_open, uninstall_listeners, close_acceptors,
}
use market_bridge.Server.Loop.{
  Place, ended, Signals, idle, awaiting, queued, Port, on_http, on_https, Loop, move, set_up,
  uninstall_signals_handler, leave, begin_shutdown, on_signal, is_open, Step, tests, calls, accepts,
  leaves, signalled, handles, closes, Reach, here, next,
}

-- The HTTP acceptor is closed only together with the other, and with the signals attended to.
pub record IsTidy (s : Loop) : Type 0 where
  pub both : is_open s.acceptors.http ≡ false → is_open s.acceptors.https ≡ false
  pub quiet : is_open s.acceptors.http ≡ false → s.signals ≢ awaiting
  pub late : s.closing ≡ true → s.signals ≢ awaiting

queued-ne : (ec : ErrorCode) → queued ec ≢ awaiting
queued-ne ec e = cc

idle-ne : idle ≢ awaiting
idle-ne e = cc

uninstall_signals_handler-ne : (s : Signals) → uninstall_signals_handler s ≢ awaiting
unfolding uninstall_signals_handler
uninstall_signals_handler-ne idle = idle-ne
uninstall_signals_handler-ne awaiting = queued-ne operation_aborted
uninstall_signals_handler-ne (queued ec) = queued-ne ec

close_open-shut : (a : Option Bool) → is_open (close_open a) ≡ false
close_open-shut none = refl
close_open-shut (some b) = refl

move-IsTidy : (p : Port) (place : Place) (s : Loop) → IsTidy s → IsTidy (move p place s)
move-IsTidy on_http place s h = record { both = h.both; quiet = h.quiet; late = h.late }
move-IsTidy on_https place s h = record { both = h.both; quiet = h.quiet; late = h.late }

leave-IsTidy : (s : Loop) → IsTidy (leave s)
unfolding leave uninstall_listeners
leave-IsTidy s = record {
  both = λ _. close_open-shut s.acceptors.https;
  quiet = λ _. uninstall_signals_handler-ne s.signals;
  late = λ _. uninstall_signals_handler-ne s.signals;
}

on_signal-IsTidy : (ec : ErrorCode) (s : Loop) → IsTidy s → IsTidy (on_signal ec s)
unfolding on_signal begin_shutdown check_ec
on_signal-IsTidy success s h = elim (Bool-cases s.shutdown_pending) [
  | inl e ↦ rw e (record { both = h.both; quiet = λ _. idle-ne; late = λ _. idle-ne })
  | inr e ↦ rw e (record { both = h.both; quiet = λ _. idle-ne; late = λ _. idle-ne })
]
on_signal-IsTidy _ s h = record { both = h.both; quiet = λ _. idle-ne; late = λ _. idle-ne }

Step-IsTidy : (s t : Loop) → Step s t → IsTidy s → IsTidy t
unfolding close_acceptors
Step-IsTidy s t (tests p e q) h = rw q (move-IsTidy p _ s h)
Step-IsTidy s t (calls p e q) h = rw q (move-IsTidy p _ s h)
Step-IsTidy s t (accepts p ec e o q) h = rw q (move-IsTidy p _ s h)
Step-IsTidy s t (leaves p e q) h = rw q (move-IsTidy p ended (leave s) (leave-IsTidy s))
Step-IsTidy s t (signalled e q) h =
    rw q (record { both = h.both; quiet = λ _. queued-ne success; late = λ _. queued-ne success })
Step-IsTidy s t (handles ec e q) h = rw q (on_signal-IsTidy ec s h)
Step-IsTidy s t (closes e q) h =
    rw q (record { both = λ _. refl; quiet = λ _. h.late e; late = λ _. h.late e })

pub Reach-IsTidy : (s t : Loop) → Reach s t → IsTidy s → IsTidy t
Reach-IsTidy s t here h = h
Reach-IsTidy s u (next {t} r st) h = Step-IsTidy t u st (Reach-IsTidy s t r h)

pub set_up-IsTidy :
    (mode : ServerRunningMode) (http_port https_port : ℕ)
    → IsTidy (set_up mode http_port https_port)
unfolding set_up init_acceptors
set_up-IsTidy mode http_port https_port = record { both = λ e. cc; quiet = λ e. cc; late = λ e. cc }

-- Neither acceptor is open.
pub record IsShut (s : Loop) : Type 0 where
  pub http : is_open s.acceptors.http ≡ false
  pub https : is_open s.acceptors.https ≡ false

move-IsShut : (p : Port) (place : Place) (s : Loop) → IsShut s → IsShut (move p place s)
move-IsShut on_http place s h = record { http = h.http; https = h.https }
move-IsShut on_https place s h = record { http = h.http; https = h.https }

leave-IsShut : (s : Loop) → IsShut (leave s)
unfolding leave uninstall_listeners
leave-IsShut s = record {
  http = close_open-shut s.acceptors.http;
  https = close_open-shut s.acceptors.https;
}

on_signal-acceptors : (ec : ErrorCode) (s : Loop) → (on_signal ec s).acceptors ≡ s.acceptors
unfolding on_signal begin_shutdown
on_signal-acceptors ec s = ground arith

pub Step-IsShut : (s t : Loop) → Step s t → IsShut s → IsShut t
unfolding close_acceptors
Step-IsShut s t (tests p e q) h = rw q (move-IsShut p _ s h)
Step-IsShut s t (calls p e q) h = rw q (move-IsShut p _ s h)
Step-IsShut s t (accepts p ec e o q) h = rw q (move-IsShut p _ s h)
Step-IsShut s t (leaves p e q) h = rw q (move-IsShut p ended (leave s) (leave-IsShut s))
Step-IsShut s t (signalled e q) h = rw q (record { http = h.http; https = h.https })
Step-IsShut s t (handles ec e q) h = rw q (record {
  http = ap (λ (a : Acceptors). is_open a.http) (on_signal-acceptors ec s) ∙ h.http;
  https = ap (λ (a : Acceptors). is_open a.https) (on_signal-acceptors ec s) ∙ h.https;
})
Step-IsShut s t (closes e q) h = rw q (record { http = refl; https = refl })
