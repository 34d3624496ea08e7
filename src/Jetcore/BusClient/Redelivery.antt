-- ===== src/Jetcore/BusClient/Redelivery.antt =====
-- The delays between redeliveries (bus_client.py, `nak` and REDELIVERY_BACKOFF_SECONDS).
use jet_core_service_bus.Prelude.{
  ℕ, zero, suc, ◌≤◌, ◌≡◌, refl, some, min, arith, if◌then◌else◌, ◌==◌,
}
use jet_core_service_bus.Jetcore.BusClient.{redelivery_delay}

-- The delay before the next delivery, written as a table
delay_of : ℕ → ℕ
delay_of n =
    if n == 0 then 2 else if n == 1 then 5 else if n == 2 then 15 else if n == 3 then 30 else 60

redelivery_delay-suc : (n : ℕ) → redelivery_delay (suc n) ≡ some (delay_of n)
unfolding redelivery_delay delay_of
redelivery_delay-suc zero = refl
redelivery_delay-suc (suc zero) = refl
redelivery_delay-suc (suc (suc zero)) = refl
redelivery_delay-suc (suc (suc (suc zero))) = refl
redelivery_delay-suc (suc (suc (suc (suc n)))) =
    let last : min (suc (suc (suc (suc n)))) 4 ≡ 4 = omega arith in rw last (ground arith)

delay_of-bounds : (n : ℕ) → (2 ≤ delay_of n) × (delay_of n ≤ 60)
unfolding delay_of
delay_of-bounds n = ground arith

-- For every delivery count the place in the list exists: there is a delay, of 2 to 60 seconds.
pub redelivery_delay_bounds : (n : ℕ) → (d : ℕ) × (redelivery_delay n ≡ some d) × (2 ≤ d) × (d ≤ 60)
redelivery_delay_bounds zero = (60, unfold redelivery_delay in refl, omega arith, omega arith)
redelivery_delay_bounds (suc n) =
    let (low, high) = delay_of-bounds n in (delay_of n, redelivery_delay-suc n, low, high)
