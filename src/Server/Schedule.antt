-- ===== src/Server/Schedule.antt =====
-- Server::schedule_shutdown and stop_sessions as one call, with no other thread between.
use market_bridge.Base.{
  ℕ, ◌≡◌, refl, ap, sym, subst, ◌∙◌, Bool, true, false, List, [], ◌∷◌, if◌then◌else◌, ◌&&◌, none,
  arith,
}
use market_bridge.Server.Registry.{Registry, lock_sessions, close_acceptors}
use market_bridge.Server.Shutdown.{
  Server, flagged, stopping, stopped, closed, update, flags, locks, stops, all_stopped, closes,
  Reach, here, next, member, lock_sessions_lem,
}

-- for (auto session : active_sessions) session->stop();
unfoldable stop_all : List ℕ → Server → Server
stop_all [] s = s
stop_all (id ∷ ids) s = stop_all ids (record s { was_stopped = update s.was_stopped id true })

unfoldable stop_sessions : Server → Server
unfolding stop_all
stop_sessions s =
    let (active, kept) = lock_sessions s.alive s.sessions in
    stop_all active (record s { registry = record s.registry { sessions = kept } })

-- Behind the exchange. The phase is what the call has come to as it returns.
unfoldable carry_out : Server → Server
unfolding stop_sessions
carry_out s =
    let s' =
      stop_sessions (record s { registry = record s.registry { shutdown_pending = true } }) in
    record s' { acceptors = close_acceptors s'.acceptors; phase = closed }

unfoldable pub schedule_shutdown : Server → Server
unfolding carry_out
schedule_shutdown s = if s.shutdown_pending then s else carry_out s

-- The loop over the locked sessions, from its phase on.
stop_all-Reach :
    (origin : Server) (ids : List ℕ) (s : Server)
    → Reach origin (record s { phase = stopping ids })
    → Reach origin (record (stop_all ids s) { phase = stopped })
unfolding stop_all
stop_all-Reach origin [] s r = next r (all_stopped refl)
stop_all-Reach origin (id ∷ ids) s r =
    stop_all-Reach origin ids (record s { was_stopped = update s.was_stopped id true })
      (next r (stops id ids refl))

stop_all-registry : (ids : List ℕ) (s : Server) → (stop_all ids s).registry ≡ s.registry
unfolding stop_all
stop_all-registry [] s = refl
stop_all-registry (id ∷ ids) s =
    stop_all-registry ids (record s { was_stopped = update s.was_stopped id true })

schedule_shutdown_first :
    (s : Server) → s.shutdown_pending ≡ false → schedule_shutdown s ≡ carry_out s
unfolding schedule_shutdown
schedule_shutdown_first s h = ap (λ (b : Bool). if b then s else carry_out s) h

schedule_shutdown_again : (s : Server) → s.shutdown_pending ≡ true → schedule_shutdown s ≡ s
unfolding schedule_shutdown
schedule_shutdown_again s h = ap (λ (b : Bool). if b then s else carry_out s) h

carry_out-Reach : (s : Server) → s.shutdown_pending ≡ false → Reach s (carry_out s)
unfolding carry_out
carry_out-Reach s free =
    let flag : Server = record s { registry = record s.registry { shutdown_pending = true } } in
    let (active, kept) = lock_sessions s.alive s.sessions in
    let locked : Server = record flag { registry = record flag.registry { sessions = kept } } in
    let r1 : Reach s (record flag { phase = flagged }) = next here (flags free) in
    let r2 : Reach s (record locked { phase = stopping active }) = next r1 (locks refl) in
    next (stop_all-Reach s active locked r2) (closes refl)

carry_out-pending : (s : Server) → (carry_out s).shutdown_pending ≡ true
unfolding carry_out
carry_out-pending s =
    let (active, kept) = lock_sessions s.alive s.sessions in
    ap (λ (r : Registry). r.shutdown_pending)
      (stop_all-registry active
        (record s { registry = record { shutdown_pending = true; sessions = kept } }))

-- A call of schedule_shutdown that nothing interrupts is a run of its steps, so that what holds of every
-- interleaving holds of it.
schedule_shutdown-Reach : (s : Server) → s.shutdown_pending ≡ false → Reach s (schedule_shutdown s)
schedule_shutdown-Reach s free =
    subst (Reach s) (sym (schedule_shutdown_first s free)) (carry_out-Reach s free)

stop_all_lem :
    (ids : List ℕ) (id : ℕ) (s : Server)
    → (stop_all ids s).was_stopped id ≡ (if member id ids then true else s.was_stopped id)
unfolding stop_all
stop_all_lem [] id s = refl
stop_all_lem (j ∷ ids) id s =
    ground (arith, stop_all_lem ids id (record s { was_stopped = update s.was_stopped j true }))

-- What one call has done as it returns: the flag is set, both acceptors are closed, and of the sessions
-- exactly those that were registered and alive have been stopped by it and are registered still.
pub record IsShutDown (s t : Server) (id : ℕ) : Type 0 where
  pub flagged : t.shutdown_pending ≡ true
  pub http : t.acceptors.http ≡ none
  pub https : t.acceptors.https ≡ none
  pub stopped :
      t.was_stopped id ≡ (if member id s.sessions && s.alive id then true else s.was_stopped id)
  pub registered : member id t.sessions ≡ (member id s.sessions && s.alive id)

carry_out-IsShutDown : (s : Server) (id : ℕ) → IsShutDown s (carry_out s) id
unfolding carry_out close_acceptors
carry_out-IsShutDown s id =
    let (active, kept) = lock_sessions s.alive s.sessions in
    let from : Server = record s {
      registry = record { shutdown_pending = true; sessions = kept };
    } in
    let (locked, same) = lock_sessions_lem s.alive s.sessions id in
    let registry = stop_all-registry active from in
    record {
      flagged = carry_out-pending s;
      http = refl;
      https = refl;
      stopped = ground (arith, stop_all_lem active id from, locked);
      registered = ground (
        arith,
        ap (λ (r : Registry). member id r.sessions) registry,
        ap (member id) same,
        locked,
      );
    }

-- A call of schedule_shutdown that nothing interrupts does all of its work and does it once: where the
-- flag was not set it is set, both acceptors are closed, and a session, by whatever identifier, is
-- stopped by it, and stays registered, exactly if it was registered and alive; and a second call changes
-- nothing.
pub schedule_shutdown_complete :
    (s : Server) (id : ℕ)
    → s.shutdown_pending ≡ false
    → IsShutDown s (schedule_shutdown s) id
      × (schedule_shutdown (schedule_shutdown s) ≡ schedule_shutdown s)
schedule_shutdown_complete s id free =
    let first = schedule_shutdown_first s free in
    (
      subst (λ (t : Server). IsShutDown s t id) (sym first) (carry_out-IsShutDown s id),
      ap schedule_shutdown first
          ∙ schedule_shutdown_again (carry_out s) (carry_out-pending s)
          ∙ sym first,
    )
