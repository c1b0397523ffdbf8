-- ===== src/Tests/Schedule.antt =====
-- A daemon with a backup every six hours.
use backr.Base.{ℕ, ◌*◌, ◌≡◌, refl, none, some, [], ◌∷◌, arith}
use backr.Schedule.{second, Settings, compute_initial_delay, restart_scheduler, new_scheduler}
use backr.Schedule.Delay.{IsDue, compute_initial_delay-IsDue}
use backr.Schedule.Single.{running, restarted, run_restarts, restart_scheduler-run_restarts}

abbrev hours : ℕ → ℕ
hours n = n * 3600 * second

abbrev six : ℕ
six = 6

abbrev six_hours : Settings
six_hours = record { interval_hours = 6; last_backup_at = some (hours 10) }

compute_initial_delay-IsDue_example :
    IsDue
      (hours 10)
      (21600 * second)
      (hours 12)
      (compute_initial_delay (some (hours 10)) (21600 * second) (hours 12))
    × (compute_initial_delay none (21600 * second) (hours 12) ≡ 60000000000)
compute_initial_delay-IsDue_example =
    compute_initial_delay-IsDue (hours 10) 21600 (hours 12) (omega arith)

restart_scheduler-run_restarts_example :
    running (
      restart_scheduler
        (some six_hours)
        (hours 12)
        (run_restarts ((some six_hours, hours 11) ∷ (none, hours 11) ∷ []) new_scheduler))
    ≡ restarted (some six_hours) (hours 12)
restart_scheduler-run_restarts_example =
    restart_scheduler-run_restarts ((some six_hours, hours 11) ∷ (none, hours 11) ∷ [])
      (some six_hours) (hours 12)

-- two hours after the last backup, four are left; after eight, none
delay_left : compute_initial_delay (some (hours 10)) (hours 6) (hours 12) ≡ hours 4
unfolding compute_initial_delay
delay_left = refl

delay_over : compute_initial_delay (some (hours 10)) (hours 6) (hours 18) ≡ 0
unfolding compute_initial_delay
delay_over = refl
