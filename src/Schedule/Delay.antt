-- ===== src/Schedule/Delay.antt =====
-- When the first backup after a start is due.
use backr.Base.{ℕ, ◌+◌, ◌*◌, ◌^◌, ◌≤◌, ◌<◌, ◌≡◌, ◌⊎◌, Option, none, some, arith}
use backr.Schedule.{second, min_initial_delay_secs, compute_initial_delay, period_secs}

-- A delay from `now` on, for a last backup at `last`, keeps to the interval.
pub record IsDue (last interval now delay : ℕ) : Type 0 where
  -- a backup that is overdue runs at once
  pub overdue : last + interval ≤ now → delay ≡ 0
  -- one that is not runs no earlier than the interval asks
  pub early : last ≤ now → now < last + interval → last + interval ≤ now + delay
  -- and less than a second later, but for the settling time of a minute
  pub late :
      last ≤ now
      → (now + delay < last + interval + second) ⊎ (delay ≤ min_initial_delay_secs * second)
  -- and no earlier than the settling time
  pub settles : last ≤ now → now < last + interval → min_initial_delay_secs * second ≤ delay
  -- a last backup that is a second or more ahead of the clock costs a whole interval
  pub ahead : now + second ≤ last → delay ≡ interval

-- A delay is at most the interval.
pub compute_initial_delay_bound :
    (last : Option ℕ) (secs now : ℕ)
    → min_initial_delay_secs ≤ secs
    → compute_initial_delay last (secs * second) now ≤ secs * second
unfolding compute_initial_delay
compute_initial_delay_bound none secs now h = omega arith
compute_initial_delay_bound (some t) secs now h = ground arith

-- For an interval of whole seconds, a minute or more: an overdue backup runs at once; another one runs no
-- earlier than the interval after the last backup and than a minute from now, and less than a second later
-- than the interval asks or within the first minute; one whose last backup is a second or more ahead of the
-- clock runs after a whole interval, and the first one ever after a minute.
pub compute_initial_delay-IsDue :
    (last secs now : ℕ)
    → min_initial_delay_secs ≤ secs
    → IsDue last (secs * second) now (compute_initial_delay (some last) (secs * second) now)
      × (compute_initial_delay none (secs * second) now ≡ 60000000000)
unfolding compute_initial_delay
compute_initial_delay-IsDue last secs now long = (
  record {
    overdue = λ h. ground arith;
    early = λ h k. ground arith;
    late = λ h. ground arith;
    settles = λ h k. ground arith;
    ahead = λ h. ground arith;
  },
  omega arith,
)

-- The period is at least a minute, and that of a configured number of hours, which fits 32 bits, is
-- exact.
pub period_secs-eq :
    (hours : ℕ)
    → hours < 2 ^ 32
    → (period_secs hours ≡ hours * 3600) ⊎ ((hours ≡ 0) × (period_secs hours ≡ 60))
unfolding period_secs
period_secs-eq hours h = ground arith
