-- ===== src/Server/Listener.antt =====
-- Server::listener: the loop that accepts connections.
use market_bridge.Base.{
  ℕ, ◌≤◌, ◌≡◌, ◌≢◌, ◌⊎◌, refl, Bool, true, false, not, List, [], ◌∷◌, ◌++◌, All, length, arith,
  if◌then◌else◌,
}
use market_bridge.Config.{ServerRunningMode, persistent, single_request}
use market_bridge.Session.ErrorCode.{ErrorCode, success, is_aborted, check_ec}

-- One round of the loop: shutdown_pending_ as the test reads it, and how async_accept completes.
pub record Round : Type 0 where
  pub shutdown_pending : Bool
  pub ec : ErrorCode
  pub socket : ℕ

-- The coroutine waits for a connection, has returned as its acceptor was closed, or has left the loop
-- and removed the signal handler and the listeners.
pub data Ending : Type 0 where
  accepting returned uninstalled : Ending

unfoldable pub is_single : ServerRunningMode → Bool
is_single single_request = true
is_single persistent = false

-- The sockets handed to the completion handler, and where the coroutine ends.
unfoldable pub listener : ServerRunningMode → List Round → List ℕ × Ending
unfolding is_aborted check_ec is_single
listener mode [] = ([], accepting)
listener mode (r ∷ rounds) =
    let rest = listener mode rounds in
    if r.shutdown_pending
    then ([], uninstalled)
    else if is_aborted r.ec
    then ([], returned)
    else if not (check_ec r.ec)
    then ([], uninstalled)
    else if is_single mode
    then (r.socket ∷ [], uninstalled)
    else (r.socket ∷ rest.0, rest.1)

-- A connection that is accepted while no shutdown is pending.
pub record IsAccepted (r : Round) : Type 0 where
  pub free : r.shutdown_pending ≡ false
  pub accepted : r.ec ≡ success

-- In the mode for a single request the first round decides: whatever may follow it, at most one
-- connection is handed on and the coroutine leaves the loop.
pub listener_single :
    (r : Round) (rounds : List Round)
    → (listener single_request (r ∷ rounds) ≡ listener single_request (r ∷ []))
      × (length (listener single_request (r ∷ rounds)).0 ≤ 1)
      × ((listener single_request (r ∷ rounds)).1 ≢ accepting)
unfolding listener
listener_single r rounds = (ground arith, ground arith, λ e. ground arith)

abbrev pub sockets : List Round → List ℕ
sockets [] = []
sockets (r ∷ rounds) = r.socket ∷ sockets rounds

-- In the persistent mode every connection accepted in a row is handed on, in order, and the loop goes
-- on behind them.
listener_persistent :
    (good rounds : List Round)
    → All IsAccepted good
    → listener persistent (good ++ rounds)
      ≡ (sockets good ++ (listener persistent rounds).0, (listener persistent rounds).1)
unfolding listener
listener_persistent [] rounds h = refl
listener_persistent (r ∷ good) rounds h =
    ground (arith, h.0.free, h.0.accepted, listener_persistent good rounds h.1)

-- A round that brings no connection ends the loop in every mode: an aborted accept returns at once,
-- any other error or a pending shutdown removes the listeners; nothing more is handed on.
listener_stops :
    (mode : ServerRunningMode) (r : Round) (rounds : List Round)
    → (r.shutdown_pending ≡ true) ⊎ (r.ec ≢ success)
    → listener mode (r ∷ rounds) ≡ (
      [],
      if r.shutdown_pending then uninstalled else if is_aborted r.ec then returned else uninstalled,
    )
unfolding listener
listener_stops mode r rounds h = ground arith
