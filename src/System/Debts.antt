-- ===== src/System/Debts.antt =====
-- What the limiter has admitted and the upstream has not seen yet, per session and over all sessions.
use market_bridge.Base.{
  ℕ, ◌+◌, ◌≤◌, ◌≡◌, ◌∙◌, refl, ap, Bool, ◌&&◌, List, [], ◌∷◌, ◌++◌, length, length-append, arith,
  if◌then◌else◌,
}
use market_bridge.Http.Message.{generate_request}
use market_bridge.Session.Defs.{
  Op, starting, stopping, reading_header, timer_running, timer_handler, timing_out, rejecting,
  answering_health, writing, outgoing_starting, resolving, connecting, handshaking, sending,
  receiving, Session,
}
use market_bridge.Session.Handlers.{
  run_stop, start_impl, on_timer, on_header_timeout, on_header_read, write_response, on_written,
  outgoing_start_impl, on_resolved, on_connected, send_request, on_sent, on_received,
}
use market_bridge.Session.Steps.{Completion, complete}
use market_bridge.Session.Weights.{total, total_remove, total-cancelled}
use market_bridge.System.{asks_limiter}

-- The operations of an admitted request before it is sent.
abbrev pub owes : Op → ℕ
owes outgoing_starting = 1
owes resolving = 1
owes connecting = 1
owes handshaking = 1
owes _ = 0

-- The requests that a session has sent upstream or is about to send.
abbrev pub debt : Session → ℕ
debt x = length x.forwarded + total owes x.pending

abbrev pub debts : List Session → ℕ
debts [] = 0
debts (x ∷ xs) = debt x + debts xs

pub debts-append : (xs ys : List Session) → debts (xs ++ ys) ≡ debts xs + debts ys
debts-append [] ys = omega arith
debts-append (x ∷ xs) ys = omega (arith, debts-append xs ys)

abbrev IsPaid : Op → Completion → Session → Type 0
IsPaid op k x =
    debt (complete op k x) ≤ debt x + owes op + (if asks_limiter op k x && k.allowed then 1 else 0)

complete-IsPaid : (op : Op) (k : Completion) (x : Session) → IsPaid op k x
unfolding complete asks_limiter
complete-IsPaid starting k x = unfold start_impl in ground arith
complete-IsPaid stopping k x = unfold run_stop in ground arith
complete-IsPaid reading_header k x =
    unfold on_header_read in ground (arith, total-cancelled owes x.pending (omega arith))
complete-IsPaid timer_running k x = ground arith
complete-IsPaid (timer_handler ec) k x = unfold on_timer in ground arith
complete-IsPaid (timing_out ec) k x = unfold on_header_timeout in ground arith
complete-IsPaid rejecting k x = unfold write_response in ground arith
complete-IsPaid answering_health k x = unfold write_response in ground arith
complete-IsPaid (writing then_shutdown) k x = unfold on_written in ground arith
complete-IsPaid outgoing_starting k x = unfold outgoing_start_impl in ground arith
complete-IsPaid resolving k x = unfold on_resolved in ground arith
complete-IsPaid connecting k x = unfold on_connected in ground arith
complete-IsPaid handshaking k x =
    unfold send_request in
    ground (arith, length-append x.forwarded (generate_request x.request x.upstream_info.host ∷ []))
complete-IsPaid sending k x = unfold on_sent in ground arith
complete-IsPaid receiving k x = unfold on_received in ground arith

-- One session of several moves on.
pub debts_replace :
    (all before : List Session) (x y : Session) (after : List Session)
    → all ≡ before ++ x ∷ after
    → debts (before ++ y ∷ after) + debt x ≡ debts all + debt y
debts_replace all before x y after e =
    omega (arith, ap debts e, debts-append before (x ∷ after), debts-append before (y ∷ after))

asks-allowed :
    (op : Op) (k : Completion) (allowed : Bool) (x : Session)
    → asks_limiter op (record k { allowed = allowed }) x ≡ asks_limiter op k x
unfolding asks_limiter
asks-allowed reading_header k allowed x = refl
asks-allowed _ k allowed x = refl

-- The debts behind one completion.
pub debts-advance :
    (all before after : List Session) (x : Session) (first : List Op) (op : Op) (rest : List Op)
    (k : Completion) (allowed asked : Bool)
    → all ≡ before ++ x ∷ after
    → x.pending ≡ first ++ op ∷ rest
    → asks_limiter op k (record x { pending = first ++ rest }) ≡ asked
    → debts (
        before
        ++ complete op (record k { allowed = allowed }) (record x { pending = first ++ rest })
          ∷ after)
      ≤ debts all + (if asked && allowed then 1 else 0)
debts-advance all before after x first op rest k allowed asked e p a =
    let x' = record x { pending = first ++ rest } in
    let k' = record k { allowed = allowed } in
    let same : asks_limiter op k' x' ≡ asked = asks-allowed op k allowed x' ∙ a in
    let one : debt (complete op k' x') ≤ debt x' + owes op + (if asked && allowed then 1 else 0) =
      rw (← same) (complete-IsPaid op k' x') in
    omega (
      arith,
      one,
      total_remove owes x.pending first op rest p,
      debts_replace all before x (complete op k' x') after e,
    )
