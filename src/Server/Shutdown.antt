-- ===== src/Server/Shutdown.antt =====
-- The shutdown of the server against the threads that register sessions. Each step is what one thread
-- does atomically: an exchange of shutdown_pending_, a section under session_mtx_, a call of stop.
use market_bridge.Base.{
  ℕ, ◌≡◌, ◌⊎◌, refl, ap, Bool, true, false, ◌||◌, List, [], ◌∷◌, ◌++◌, arith, ◌==◌, if◌then◌else◌,
  inl, inr, Bool-cases,
}
use market_bridge.Server.Registry.{
  Registry, register_session, lock_sessions, Acceptors, close_acceptors,
}

-- Where schedule_shutdown stands: not called, past the exchange, going through the locked sessions,
-- past stop_sessions, done.
pub data Phase : Type 0 where
  running flagged : Phase
  stopping : List ℕ → Phase
  stopped closed : Phase

pub record Server : Type 0 where
  pub registry : Registry
  pub open registry use *
  -- the sessions whose objects are alive, and those whose stop was called
  pub alive : ℕ → Bool
  pub was_stopped : ℕ → Bool
  pub phase : Phase
  pub acceptors : Acceptors

abbrev pub update : (ℕ → Bool) → ℕ → Bool → ℕ → Bool
update f i b j = if i == j then b else f j

abbrev pub member : ℕ → List ℕ → Bool
member id [] = false
member id (j ∷ ids) = id == j || member id ids

pub data Step (s : Server) : Server → Type 0 where
  -- a thread registers a session that it holds
  registers :
      (id : ℕ)
      → s.alive id ≡ true
      → Step s (record s { registry = (register_session s.registry id).0 })
  -- a session object is created, under an identifier that is not in use, or destroyed
  creates :
      (id : ℕ)
      → s.alive id ≡ false
      → member id s.sessions ≡ false
      → Step s (record s { alive = update s.alive id true })
  dies : (id : ℕ) → Step s (record s { alive = update s.alive id false })
  -- schedule_shutdown wins the exchange; a call that does not returns at once
  flags :
      s.shutdown_pending ≡ false
      → Step s
          (record s { registry = record s.registry { shutdown_pending = true }; phase = flagged })
  -- the section of stop_sessions under the mutex
  locks :
      s.phase ≡ flagged
      → Step s (record s {
        registry = record s.registry { sessions = (lock_sessions s.alive s.sessions).1 };
        phase = stopping (lock_sessions s.alive s.sessions).0;
      })
  -- the loop that stops the locked sessions, which keeps them alive
  stops :
      (id : ℕ) (ids : List ℕ)
      → s.phase ≡ stopping (id ∷ ids)
      → Step s (record s { was_stopped = update s.was_stopped id true; phase = stopping ids })
  all_stopped : s.phase ≡ stopping [] → Step s (record s { phase = stopped })
  closes :
      s.phase ≡ stopped
      → Step s (record s { acceptors = close_acceptors s.acceptors; phase = closed })

pub data Reach (s : Server) : Server → Type 0 where
  here : Reach s s
  next : {t u : Server} → Reach s t → Step t u → Reach s u

member-append : (id j : ℕ) (ids : List ℕ) → member id (ids ++ j ∷ []) ≡ (member id ids || id == j)
member-append id j [] = ground arith
member-append id j (i ∷ ids) = ground (arith, member-append id j ids)

-- What is locked is what was alive; the rest of the list is gone.
pub lock_sessions_lem :
    (alive : ℕ → Bool) (ids : List ℕ) (id : ℕ)
    → (member id (lock_sessions alive ids).0 ≡ (if member id ids then alive id else false))
      × ((lock_sessions alive ids).1 ≡ (lock_sessions alive ids).0)
unfolding lock_sessions
lock_sessions_lem alive [] id = (refl, refl)
lock_sessions_lem alive (j ∷ ids) id =
    let (a, b) = lock_sessions_lem alive ids id in
    elim (Bool-cases (alive j)) [
      | inl e ↦ rw e (ground (arith, a, e, λ (p : id ≡ j). ap alive p), rw b)
      | inr e ↦ rw e (ground (arith, a, e, λ (p : id ≡ j). ap alive p), b)
    ]

-- What is known of one session at each stage of the shutdown.
abbrev Covered : ℕ → Phase → Server → Type 0
Covered id running s = s.shutdown_pending ≡ false
Covered id flagged s = s.shutdown_pending ≡ true
Covered id (stopping ids) s =
    (s.shutdown_pending ≡ true)
    × (member id s.sessions ≡ true
        → s.alive id ≡ true
        → (s.was_stopped id ≡ true) ⊎ (member id ids ≡ true))
Covered id stopped s =
    (s.shutdown_pending ≡ true)
    × (member id s.sessions ≡ true → s.alive id ≡ true → s.was_stopped id ≡ true)
Covered id closed s =
    (s.shutdown_pending ≡ true)
    × (member id s.sessions ≡ true → s.alive id ≡ true → s.was_stopped id ≡ true)

Step-Covered : (id : ℕ) {s t : Server} → Step s t → Covered id s.phase s → Covered id t.phase t
unfolding register_session
Step-Covered id {s} (registers j live) h = ground (arith, member-append id j s.sessions)
Step-Covered id {s} (creates j live fresh) h =
    ground (arith, λ (p : j ≡ id). ap (λ i. member i s.sessions) p)
Step-Covered id {s} (dies j) h = ground arith
Step-Covered id {s} (flags free) h = refl
Step-Covered id {s} (locks e) h = ground (arith, lock_sessions_lem s.alive s.sessions id)
Step-Covered id {s} (stops j ids e) h = ground arith
Step-Covered id {s} (all_stopped e) h = ground arith
Step-Covered id {s} (closes e) h = ground arith

Reach-Covered : (id : ℕ) {s t : Server} → Covered id s.phase s → Reach s t → Covered id t.phase t
Reach-Covered id h here = h
Reach-Covered id h (next r st) = Step-Covered id st (Reach-Covered id h r)

-- The session is alive in every state of the run.
abbrev pub IsAliveAlong : ℕ → {s t : Server} → Reach s t → Type 0
IsAliveAlong id {s} here = s.alive id ≡ true
IsAliveAlong id (next {u} r st) = IsAliveAlong id r × (u.alive id ≡ true)

-- What is known of a session that was registered, as long as it is alive.
abbrev Held : ℕ → Phase → Server → Type 0
Held id running s = member id s.sessions ≡ true
Held id flagged s = member id s.sessions ≡ true
Held id (stopping ids) s = (s.was_stopped id ≡ true) ⊎ (member id ids ≡ true)
Held id stopped s = s.was_stopped id ≡ true
Held id closed s = s.was_stopped id ≡ true

Covered-Held :
    (id : ℕ) (phase : Phase) (s : Server)
    → Covered id phase s
    → member id s.sessions ≡ true
    → s.alive id ≡ true
    → Held id phase s
Covered-Held id running s c m live = m
Covered-Held id flagged s c m live = m
Covered-Held id (stopping ids) s c m live = c.1 m live
Covered-Held id stopped s c m live = c.1 m live
Covered-Held id closed s c m live = c.1 m live

-- The flag is not set before schedule_shutdown.
flag_unset :
    (id : ℕ) (s : Server) (phase : Phase)
    → s.shutdown_pending ≡ false
    → Covered id phase s
    → Held id phase s
    → member id s.sessions ≡ true
flag_unset id s running free c h = h
flag_unset id s flagged free c h = h
flag_unset id s (stopping ids) free c h = ground (arith, c.0)
flag_unset id s stopped free c h = ground (arith, c.0)
flag_unset id s closed free c h = ground (arith, c.0)

Step-Held :
    (id : ℕ) {s t : Server}
    → Step s t
    → Covered id s.phase s
    → s.alive id ≡ true
    → Held id s.phase s
    → Held id t.phase t
unfolding register_session
Step-Held id {s} (registers j live) c a h = ground (arith, member-append id j s.sessions)
Step-Held id {s} (creates j live fresh) c a h = ground arith
Step-Held id {s} (dies j) c a h = ground arith
Step-Held id {s} (flags free) c a h = flag_unset id s s.phase free c h
Step-Held id {s} (locks e) c a h = ground (arith, lock_sessions_lem s.alive s.sessions id)
Step-Held id {s} (stops j ids e) c a h = ground arith
Step-Held id {s} (all_stopped e) c a h = ground arith
Step-Held id {s} (closes e) c a h = ground arith

alive_at_end : (id : ℕ) {s t : Server} (r : Reach s t) → IsAliveAlong id r → t.alive id ≡ true
alive_at_end id here a = a
alive_at_end id (next r st) a = a.1

Reach-Held :
    (id : ℕ) {s t : Server} (r : Reach s t)
    → Covered id s.phase s
    → IsAliveAlong id r
    → Held id s.phase s
    → Held id t.phase t
Reach-Held id here c a h = h
Reach-Held id (next r st) c a h =
    Step-Held id st (Reach-Covered id c r) (alive_at_end id r a.0) (Reach-Held id r c a.0 h)

alive_at_start : (id : ℕ) {s t : Server} (r : Reach s t) → IsAliveAlong id r → s.alive id ≡ true
alive_at_start id here a = a
alive_at_start id (next r st) a = alive_at_start id r a.0

-- No session escapes the shutdown, however registration, the end of sessions and the steps of
-- schedule_shutdown interleave: a session that was registered at some time and has been alive ever
-- since has had stop called on it once stop_sessions is through, and from then on an attempt to
-- register a session is refused.
pub shutdown_stops_all :
    (s u t : Server) (id other : ℕ)
    → s.phase ≡ running
    → s.shutdown_pending ≡ false
    → Reach s u
    → member id u.sessions ≡ true
    → (r : Reach u t) → IsAliveAlong id r
    → (t.phase ≡ stopped) ⊎ (t.phase ≡ closed)
    → (t.was_stopped id ≡ true) × (register_session t.registry other ≡ (t.registry, false))
unfolding register_session
shutdown_stops_all s u t id other e f before m r live ended =
    let c : Covered id u.phase u = Reach-Covered id {s = s} {t = u} (rw (e, Covered) f) before in
    let d : Covered id t.phase t = Reach-Covered id c r in
    let h = Reach-Held id r c live (Covered-Held id u.phase u c m (alive_at_start id r live)) in
    (ground (arith, h, ended), ground (arith, d, ended))

prepend : {a b c : Server} → Step a b → Reach b c → Reach a c
prepend st here = next here st
prepend st (next r st') = next (prepend st r) st'

-- The loop over the locked sessions comes to its end.
stop_loop :
    (ids : List ℕ) (s : Server)
    → s.phase ≡ stopping ids
    → (t : Server) × Reach s t × (t.phase ≡ stopped)
stop_loop [] s e = (_, next here (all_stopped e), refl)
stop_loop (id ∷ ids) s e =
    let s' : Server = record s {
      was_stopped = update s.was_stopped id true;
      phase = stopping ids;
    } in
    let (t, r, h) = stop_loop ids s' refl in (t, prepend (stops id ids e) r, h)

-- A shutdown that has been scheduled can always be carried through to closed acceptors.
shutdown_completes :
    (s : Server) → s.phase ≡ flagged → (t : Server) × Reach s t × (t.phase ≡ closed)
shutdown_completes s e =
    let locked : Server = record s {
      registry = record s.registry { sessions = (lock_sessions s.alive s.sessions).1 };
      phase = stopping (lock_sessions s.alive s.sessions).0;
    } in
    let (t, r, h) = stop_loop (lock_sessions s.alive s.sessions).0 locked refl in
    (_, prepend (locks e) (next r (closes h)), refl)
