-- ===== src/Messaging/Cron/Tests.antt =====
-- Jobs, run.
use mathlib.Core.List.{Memᴰ}
use ringclaw.Prelude.{ℕ, ◌+◌, ◌*◌, ◌≡◌, refl, true, false, none, some, List, [], ◌∷◌, map}
use ringclaw.Prelude.Text.{codes, text_eq, has_prefix, trim_prefix, trim_space}
use ringclaw.Prelude.Assoc.{lookup, insert, remove}
use ringclaw.Prelude.Time.{minute, pos}
use ringclaw.Messaging.Cron.{
  CronJob, CronScheduler, Clockwork, Event, ticks, finishes, success, tick_loop, tick, update_state,
  compute_next_run, record_result, set_enabled, execute_job, finish, step, run,
}
use ringclaw.Messaging.Cron.Running.{OnceEach, run-OnceEach}

abbrev job : CronJob
job = record {
  id = codes "j";
  name = codes "daily";
  enabled = true;
  schedule = codes "every:5m";
  message = codes "report";
  chat_id = [];
  agent = [];
  state = record {
    next_run_at = 100;
    last_run_at = 0;
    last_status = [];
    last_error = [];
    run_count = 0;
    error_count = 0;
    delete_after = false;
  };
}

abbrev scheduler : CronScheduler
scheduler = record { store = job ∷ []; running = []; in_flight = [] }

abbrev clockwork : Clockwork
clockwork = record {
  parse_at = λ t. none;
  parse_duration = λ t. some (pos (5 * minute));
  cron_next = λ t now. none;
}

-- The second tick comes while the job still runs.
abbrev events : List Event
events = ticks 100 ∷ ticks (100 + 6 * minute) ∷ finishes (100 + 7 * minute) 0 success ∷ []

abbrev counts : CronScheduler → List ℕ
counts s = map (λ (j : CronJob). j.state.run_count) s.store

ran_once : counts (run clockwork events scheduler) ≡ 1 ∷ []
unfolding run step tick tick_loop update_state compute_next_run record_result set_enabled
    execute_job finish lookup insert remove text_eq has_prefix trim_prefix trim_space
ran_once = refl

once_each : OnceEach scheduler
unfolding lookup
once_each key = refl

run-OnceEach_example : OnceEach (run clockwork events scheduler)
run-OnceEach_example = run-OnceEach clockwork events scheduler once_each

started : Memᴰ job (tick clockwork 100 scheduler).in_flight
unfolding tick tick_loop update_state compute_next_run lookup insert text_eq has_prefix trim_prefix
    trim_space
started = Memᴰ.head refl
