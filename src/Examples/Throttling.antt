-- ===== src/Examples/Throttling.antt =====
-- The token bucket and the rate limiter at concrete times.
use market_bridge.Base.{◌*◌, ◌≡◌, refl, true, [], ◌∷◌, arith}
use market_bridge.Config.{ThrottlingConfig}
use market_bridge.TokenBucket.Floats.{exact, exact-IsOrdered, billion}
use market_bridge.TokenBucket.{allows, resets, make, run}
use market_bridge.TokenBucket.Bounds.{IsBounded, make-run-IsBounded}
use market_bridge.Server.Limiter.{init_rate_limiter, admitted, throttled_burst_admitted}

make-run-IsBounded_example : IsBounded exact exact-IsOrdered (
    run exact
      (make exact (2 * billion) (3 * billion) 0)
      (allows 1 ∷ allows 2 ∷ resets 3 ∷ allows 4 ∷ []))
make-run-IsBounded_example =
    make-run-IsBounded exact exact-IsOrdered 2 3 0 (allows 1 ∷ allows 2 ∷ resets 3 ∷ allows 4 ∷ [])

abbrev pub settings : ThrottlingConfig
settings = record { enabled = true; requests_per_second = 2; burst_size = 3 }

throttled_burst_admitted_example :
    admitted exact (init_rate_limiter exact settings 0) (1 ∷ 2 ∷ 3 ∷ []) ≡ 3
throttled_burst_admitted_example =
    throttled_burst_admitted settings 0 (1 ∷ 2 ∷ 3 ∷ []) refl (omega arith)
