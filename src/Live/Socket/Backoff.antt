-- ===== src/Live/Socket/Backoff.antt =====
-- The delay before a new attempt in web/src/ws.ts.
use mc_carto_live.Prelude.{ℕ, zero, suc, ◌+◌, ◌≤◌, ◌<◌, min, ◌≡◌, refl, arith}
use mc_carto_live.Live.Socket.{reconnect_delay_ms}

-- The delay without the jitter: from the fifth attempt on it is 15 s.
abbrev backoff : ℕ → ℕ
backoff zero = 800
backoff (suc zero) = 1600
backoff (suc (suc zero)) = 3200
backoff (suc (suc (suc zero))) = 6400
backoff (suc (suc (suc (suc zero)))) = 12800
backoff (suc (suc (suc (suc (suc n))))) = 15000

min_five : (n : ℕ) → min (suc (suc (suc (suc (suc n))))) 5 ≡ 5
min_five n = omega arith

reconnect_delay_ms-backoff :
    (attempts jitter : ℕ) → reconnect_delay_ms attempts jitter ≡ backoff attempts + jitter
unfolding reconnect_delay_ms
reconnect_delay_ms-backoff zero jitter = refl
reconnect_delay_ms-backoff (suc zero) jitter = refl
reconnect_delay_ms-backoff (suc (suc zero)) jitter = refl
reconnect_delay_ms-backoff (suc (suc (suc zero))) jitter = refl
reconnect_delay_ms-backoff (suc (suc (suc (suc zero)))) jitter = refl
reconnect_delay_ms-backoff (suc (suc (suc (suc (suc n))))) jitter = rw (min_five n) refl

backoff_bounds : (n : ℕ) → (800 ≤ backoff n) × (backoff n ≤ 15000) × (backoff n ≤ backoff (suc n))
backoff_bounds zero = (omega arith, omega arith, omega arith)
backoff_bounds (suc zero) = (omega arith, omega arith, omega arith)
backoff_bounds (suc (suc zero)) = (omega arith, omega arith, omega arith)
backoff_bounds (suc (suc (suc zero))) = (omega arith, omega arith, omega arith)
backoff_bounds (suc (suc (suc (suc zero)))) = (omega arith, omega arith, omega arith)
backoff_bounds (suc (suc (suc (suc (suc n))))) = (omega arith, omega arith, omega arith)

-- The delay before an attempt lies between the base of 800 ms and 15.5 s, and the next attempt waits at
-- least as long for the same jitter, where the jitter is below 500 ms.
pub reconnect_delay_ms-bounds :
    (attempts jitter : ℕ)
    → jitter < 500
    → (800 ≤ reconnect_delay_ms attempts jitter)
      × (reconnect_delay_ms attempts jitter < 15500)
      × (reconnect_delay_ms attempts jitter ≤ reconnect_delay_ms (suc attempts) jitter)
reconnect_delay_ms-bounds attempts jitter h =
    rw
      (reconnect_delay_ms-backoff attempts jitter, reconnect_delay_ms-backoff (suc attempts) jitter)
      (
        omega (arith, backoff_bounds attempts),
        omega (arith, backoff_bounds attempts, h),
        omega (arith, backoff_bounds attempts),
      )
