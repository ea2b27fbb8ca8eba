-- ===== src/System.antt =====
-- The clock, the delays and the random source: rust/joinstr/src/utils.rs, and `Backoff` of
-- rust/backoff/src/lib.rs. `W` is the state of all that is outside of the program.
use joinstr.Prelude.{ℕ, ◌+◌, ◌-◌, ◌*◌, ◌/◌, ◌^◌, ltb, leb, if◌then◌else◌}

pub record System (W : Type 0) : Type 0 where
  -- seconds since the epoch
  pub now : W → ℕ × W
  -- `thread::sleep`, in microseconds
  pub sleep : ℕ → W → W
  pub yield_now : W → W
  -- `rng().random_range(a..b)`
  pub random_range : (a b : ℕ) → W → ℕ × W

-- Durations are in microseconds.
pub record Backoff : Type 0 where
  pub current_step : ℕ
  pub max_sleep : ℕ

unfoldable pub min : ℕ → ℕ → ℕ
min a b = if leb a b then a else b

unfoldable pub new_us : ℕ → Backoff
new_us max_sleep = record { current_step = 0; max_sleep = max_sleep }

unfoldable pub new_ms : ℕ → Backoff
new_ms max_sleep = record { current_step = 0; max_sleep = max_sleep * 1000 }

unfoldable pub reset : Backoff → Backoff
reset b = record b { current_step = 0 }

-- 2^(n - 10) * 10 microseconds, with n - 10 at most 10
unfoldable pub base_sleep : ℕ → ℕ
unfolding min
base_sleep step = 2 ^ min (step - 10) 10 * 10

unfoldable pub total_sleep : Backoff → (jitter : ℕ) → ℕ
unfolding base_sleep
total_sleep b jitter = min (base_sleep b.current_step + jitter) b.max_sleep

-- `saturating_add(1)` on a `u32`
unfoldable pub next_step : ℕ → ℕ
unfolding min
next_step step = min (step + 1) (2 ^ 32 - 1)

module _ {W : Type 0} (system : System W) where
  unfoldable pub snooze : Backoff → W → Backoff × W
  unfolding base_sleep total_sleep next_step
  snooze b w =
      let b' = record b { current_step = next_step b.current_step } in
      if ltb b.current_step 10
      then (b', system.yield_now w)
      else let (jitter, w') = system.random_range 0 (base_sleep b.current_step / 2) w in
        (b', system.sleep (total_sleep b jitter) w')

  unfoldable pub rand_delay : W → W
  rand_delay w =
      let (millis, w') = system.random_range 200 5000 w in system.sleep (millis * 1000) w'
