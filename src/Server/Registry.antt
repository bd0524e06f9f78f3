-- ===== src/Server/Registry.antt =====
-- The registry of sessions, the identifiers and the acceptors of the server.
use market_bridge.Base.{
  All, ◌≢◌, ℕ, ◌+◌, ◌%◌, ◌^◌, ◌≤◌, ◌<◌, ◌≡◌, Bool, true, false, not, List, [], ◌∷◌, ◌++◌, Option,
  none, some, arith, min, max, zero, suc, ltb, ◌==◌, if◌then◌else◌,
}

-- A session by its identifier. `alive` says whether the weak pointer can still be locked.
pub record Registry : Type 0 where
  pub shutdown_pending : Bool
  pub sessions : List ℕ

-- register_session, under session_mtx_: whether the session may start.
unfoldable pub register_session : Registry → ℕ → Registry × Bool
register_session r id =
    if not r.shutdown_pending
    then (record r { sessions = r.sessions ++ id ∷ [] }, true)
    else (r, false)

-- The loop of stop_sessions, under session_mtx_: the sessions that could be locked, and the list
-- without those that could not.
unfoldable pub lock_sessions : (ℕ → Bool) → List ℕ → List ℕ × List ℕ
lock_sessions alive [] = ([], [])
lock_sessions alive (id ∷ ids) =
    let (active, kept) = lock_sessions alive ids in
    if alive id then (id ∷ active, id ∷ kept) else (active, kept)

-- session_id_gen.fetch_add(1): the identifier, and the counter behind it.
unfoldable pub generate_session_id : ℕ → ℕ × ℕ
generate_session_id counter = (counter, (counter + 1) % 2 ^ 64)

-- std::clamp(v, lo, hi)
unfoldable pub clamp : ℕ → ℕ → ℕ → ℕ
clamp v lo hi = if ltb v lo then lo else if ltb hi v then hi else v

-- run: the number of threads.
unfoldable pub num_threads : ℕ → ℕ → ℕ
unfolding clamp
num_threads worker_threads hardware_concurrency = clamp worker_threads 1 hardware_concurrency

-- If the hardware reports any threads, the server runs on the configured number of threads, but on
-- one at least and on no more than the hardware has.
num_threads_bounds :
    (worker_threads hardware_concurrency : ℕ)
    → 1 ≤ hardware_concurrency
    → (num_threads worker_threads hardware_concurrency
        ≡ max 1 (min worker_threads hardware_concurrency))
      × (1 ≤ num_threads worker_threads hardware_concurrency)
      × (num_threads worker_threads hardware_concurrency ≤ hardware_concurrency)
unfolding num_threads
num_threads_bounds w h p = (ground arith, ground arith, ground arith)

-- The identifiers of `n` calls of generate_session_id in a row.
unfoldable pub identifiers : ℕ → ℕ → List ℕ
unfolding generate_session_id
identifiers zero counter = []
identifiers (suc n) counter =
    let (id, counter') = generate_session_id counter in id ∷ identifiers n counter'

-- The acceptors: none, or whether it is open.
pub record Acceptors : Type 0 where
  pub http : Option Bool
  pub https : Option Bool

unfoldable pub init_acceptors : ℕ → ℕ → Acceptors
init_acceptors http_port https_port = record {
  http = some true;
  https = if not (https_port == http_port) then some true else none;
}

abbrev pub close_open : Option Bool → Option Bool
close_open none = none
close_open (some is_open) = some false

unfoldable pub uninstall_listeners : Acceptors → Acceptors
uninstall_listeners a = record { http = close_open a.http; https = close_open a.https }

-- The acceptors are moved out and closed.
unfoldable pub close_acceptors : Acceptors → Acceptors
close_acceptors a = record { http = none; https = none }

abbrev pub IsDistinct : List ℕ → Type 0
IsDistinct [] = Unit
IsDistinct (id ∷ ids) = All (λ other. other ≢ id) ids × IsDistinct ids

-- What a counter that has gone on from `id` hands out before it comes round to it.
identifiers-ne :
    (n id counter : ℕ)
    → id < 2 ^ 64
    → counter < 2 ^ 64
    → (if ltb id counter then counter + n else 2 ^ 64 + counter + n) ≤ 2 ^ 64 + id
    → All (λ other. other ≢ id) (identifiers n counter)
unfolding identifiers
identifiers-ne zero id counter a b room = tt
identifiers-ne (suc n) id counter a b room =
    (ground arith, identifiers-ne n id ((counter + 1) % 2 ^ 64) a (omega arith) (ground arith))

-- A session identifier is handed out once: those of up to 2^64 calls in a row are distinct, also where
-- the 64-bit counter wraps around between them.
pub identifiers-IsDistinct :
    (n counter : ℕ) → n ≤ 2 ^ 64 → counter < 2 ^ 64 → IsDistinct (identifiers n counter)
unfolding identifiers
identifiers-IsDistinct zero counter h b = tt
identifiers-IsDistinct (suc n) counter h b = (
  identifiers-ne n counter ((counter + 1) % 2 ^ 64) b (omega arith) (ground arith),
  identifiers-IsDistinct n ((counter + 1) % 2 ^ 64) (omega arith) (omega arith),
)
