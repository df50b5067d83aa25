-- ===== src/Messaging/Heartbeat/Tests.antt =====
-- The heartbeat, checked.
use ringclaw.Prelude.{
  ℕ, ◌+◌, ◌*◌, ◌≡◌, ◌≢◌, ◌||◌, not, refl, true, none, some, [], ◌∷◌, if◌then◌else◌, ltb, arith,
}
use ringclaw.Prelude.Text.{
  codes, text_eq, has_prefix, trim_space, trim_left, trim_right, is_space, equal_fold,
}
use ringclaw.Prelude.Assoc.{lookup}
use ringclaw.Prelude.Time.{pos, hour, minute, is_positive}
use ringclaw.Messaging.Heartbeat.{
  HeartbeatRunner, HeartbeatConfig, Library, new_heartbeat_runner, with_interval, interval_of,
  with_hours, parse_active_hours, hours_of, split_at_dash, parse_time_of_day, in_day, both,
  is_active_time, Turn, tick, run, read, ask, reply_to, report, is_duplicate, seen_at, is_all_clear,
  upper, is_effectively_empty, no_line_says, split_lines,
}
use ringclaw.Messaging.Heartbeat.Hours.{since, is_active_time-circular}
use ringclaw.Messaging.Heartbeat.Ticks.{tried}
use ringclaw.Messaging.Heartbeat.Repeats.{run-tried_once}

-- A night shift.
abbrev lib : Library
lib = record {
  parse_duration = λ _. none;
  load_location = λ _. true;
  sscanf = λ s. if text_eq s (codes "22:00") then some (pos 22, pos 0) else some (pos 6, pos 0);
}

abbrev cfg : HeartbeatConfig
cfg = record { interval = []; timezone = []; active_hours = codes "22:00-06:00" }

abbrev runner : HeartbeatRunner
runner = record {
  interval = pos (30 * minute);
  has_active_hours = true;
  active_start = 1320;
  active_end = 360;
  recent_hash = [];
}

runner_is_made : new_heartbeat_runner lib cfg ≡ some runner
unfolding new_heartbeat_runner with_interval interval_of with_hours parse_active_hours hours_of
    split_at_dash parse_time_of_day in_day both text_eq trim_space trim_left trim_right is_space
runner_is_made = refl

abbrev at : ℕ → Turn
at now = record {
  now = now;
  mins = 60;
  content = some (codes "# plan\ncheck the queue");
  answer = some (some (codes " the queue is full "));
  accepted = true;
}

is_active_time-circular_example :
    (is_positive runner.interval ≡ true)
    × (is_active_time 60 (run (λ s. s) (at 5 ∷ []) runner)
        ≡ (not true || ltb (since 1320 60) (since 1320 360)))
is_active_time-circular_example =
    is_active_time-circular lib cfg runner (λ s. s) (at 5 ∷ []) 60 runner_is_made (omega arith)

first_is_sent : tried (tick (λ s. s) (at 5) runner).1 ≡ some (codes "the queue is full")
unfolding tick is_active_time read ask reply_to report is_duplicate seen_at is_all_clear upper
    is_effectively_empty no_line_says split_lines text_eq has_prefix trim_space trim_left trim_right
    is_space equal_fold lookup
first_is_sent = refl

run-tried_once_example :
    tried
      (tick
        (λ s. s)
        (at (6 + 20 * hour))
        (run (λ s. s) (at 9 ∷ []) (tick (λ s. s) (at 5) runner).0)).1
    ≢ some (codes "the queue is full")
run-tried_once_example =
    run-tried_once (λ s. s) (at 5) (at (6 + 20 * hour)) (at 9 ∷ []) runner
      (codes "the queue is full") first_is_sent (omega arith, tt) (omega arith)
