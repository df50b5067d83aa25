-- ===== src/Messaging/Heartbeat/Hours.antt =====
-- The hours in which the runner is active.
use mathlib.Core.Path.{subst}
use ringclaw.Prelude.{
  ℕ, ◌+◌, ◌-◌, ◌<◌, Bool, true, false, not, ◌&&◌, ◌||◌, Option, none, some, List, [], ◌∷◌, if_intro,
  if◌then◌else◌, ltb, leb, ◌≡◌, refl, ap, ◌∙◌, arith,
}
use ringclaw.Prelude.Text.{Text, is_empty, trim_space}
use ringclaw.Prelude.Assoc.{Assoc}
use ringclaw.Prelude.Int.{ℤ}
use ringclaw.Prelude.Time.{Time, Duration, pos, negsuc, is_positive}
use ringclaw.Messaging.Heartbeat.Ticks.{tick_cases}
use ringclaw.Messaging.Heartbeat.{
  HeartbeatRunner, in_day, positive, parse_time_of_day, both, hours_of, split_at_dash,
  parse_active_hours, HeartbeatConfig, Library, interval_of, with_hours, with_interval,
  new_heartbeat_runner, is_active_time, remember, seen_at, is_duplicate, Turn, report, tick, run,
  heartbeat_dedup_window,
}

abbrev day : ℕ
day = 1440

-- What holds of a value, if there is one.
OnSome : {A : Type 0} → (A → Type 0) → Option A → Type 0
OnSome P none = Unit
OnSome P (some a) = P a

abbrev Daytime : ℕ → Type 0
Daytime n = n < day

abbrev Hours : ℕ × ℕ → Type 0
Hours (start, end) = (start < day) × (end < day)

abbrev InDay : HeartbeatRunner → Type 0
InDay r = (is_positive r.interval ≡ true) × Hours (r.active_start, r.active_end)

in_day-Daytime : (o : Option (ℤ × ℤ)) → OnSome Daytime (in_day o)
unfolding OnSome in_day
in_day-Daytime none = tt
in_day-Daytime (some (pos h, pos m)) =
    if_intro (OnSome Daytime) (ltb 23 h || ltb 59 m) (λ _. tt) (λ e. ground arith)
in_day-Daytime (some (pos h, negsuc m)) = tt
in_day-Daytime (some (negsuc h, m)) = tt

both-Hours : (a b : Option ℕ) → OnSome Daytime a → OnSome Daytime b → OnSome Hours (both a b)
unfolding OnSome both
both-Hours none b p q = tt
both-Hours (some start) none p q = tt
both-Hours (some start) (some end) p q = (p, q)

hours_of-Hours :
    (sscanf : Text → Option (ℤ × ℤ)) (o : Option (Text × Text)) → OnSome Hours (hours_of sscanf o)
unfolding hours_of OnSome parse_time_of_day
hours_of-Hours sscanf none = tt
hours_of-Hours sscanf (some (a, b)) =
    both-Hours _ _ (in_day-Daytime (sscanf (trim_space a))) (in_day-Daytime (sscanf (trim_space b)))

abbrev Positive : Duration → Type 0
Positive d = is_positive d ≡ true

positive-Positive : (o : Option Duration) → OnSome Positive (positive o)
unfolding OnSome positive
positive-Positive none = tt
positive-Positive (some d) = if_intro (OnSome Positive) (is_positive d) (λ e. e) (λ _. tt)

interval_of-Positive : (lib : Library) (s : Text) → OnSome Positive (interval_of lib s)
unfolding interval_of OnSome
interval_of-Positive lib s =
    if_intro (OnSome Positive) (is_empty s) (λ _. refl)
      (λ _. positive-Positive (lib.parse_duration s))

with_hours-InDay :
    (d : Duration) (o : Option (ℕ × ℕ))
    → is_positive d ≡ true
    → OnSome Hours o
    → OnSome InDay (with_hours d o)
unfolding with_hours OnSome
with_hours-InDay d none p h = tt
with_hours-InDay d (some (start, end)) p h = (p, h)

with_interval-InDay :
    (lib : Library) (cfg : HeartbeatConfig) (o : Option Duration)
    → OnSome Positive o
    → OnSome InDay (with_interval lib cfg o)
unfolding with_interval OnSome parse_active_hours
with_interval-InDay lib cfg none p = tt
with_interval-InDay lib cfg (some d) p =
    if_intro (OnSome InDay) (not (is_empty cfg.timezone) && not (lib.load_location cfg.timezone))
      (λ _. tt)
      (λ _.
        if_intro (OnSome InDay) (is_empty cfg.active_hours) (λ _. (p, (omega arith, omega arith)))
          (λ _.
            with_hours-InDay d (hours_of lib.sscanf (split_at_dash cfg.active_hours)) p
              (hours_of-Hours lib.sscanf (split_at_dash cfg.active_hours))))

new_heartbeat_runner-InDay :
    (lib : Library) (cfg : HeartbeatConfig) → OnSome InDay (new_heartbeat_runner lib cfg)
unfolding new_heartbeat_runner
new_heartbeat_runner-InDay lib cfg =
    with_interval-InDay lib cfg (interval_of lib cfg.interval)
      (interval_of-Positive lib cfg.interval)

-- The minutes from the start to a time of the day, around midnight where that is earlier.
abbrev pub since : ℕ → ℕ → ℕ
since start mins = if leb start mins then mins - start else mins + day - start

around_the_clock :
    (mins start end : ℕ)
    → mins < day
    → start < day
    → end < day
    → (if leb start end then leb start mins && ltb mins end else leb start mins || ltb mins end)
      ≡ ltb (since start mins) (since start end)
around_the_clock mins start end m s e = ground arith

-- What a tick leaves.
abbrev Same : HeartbeatRunner → HeartbeatRunner → Type 0
Same r next = (m : Assoc Time) × (next ≡ record r { recent_hash = m })

seen_at-Same :
    (h : Text) (now : Time) (o : Option Time) (r : HeartbeatRunner) → Same r (seen_at h now o r).0
unfolding seen_at remember
seen_at-Same h now none r = (_, refl)
seen_at-Same h now (some t) r =
    if_intro (λ (p : HeartbeatRunner × Bool). Same r p.0) (ltb now (t + heartbeat_dedup_window))
      (λ _. (_, refl)) (λ _. (_, refl))

report-Same :
    (u : Turn) (reply : Text) (r : HeartbeatRunner) (p : HeartbeatRunner × Bool)
    → Same r p.0
    → Same r (report u reply p).0
unfolding report
report-Same u reply r (next, true) h = h
report-Same u reply r (next, false) h = h

tick-Same : (hash : Text → Text) (u : Turn) (r : HeartbeatRunner) → Same r (tick hash u r).0
unfolding is_duplicate
tick-Same hash u r =
    tick_cases hash u r (λ p. Same r p.0) (λ _ _. (r.recent_hash, refl))
      (λ reply. report-Same u reply r _ (seen_at-Same (hash reply) u.now _ r))

run-Same :
    (hash : Text → Text) (turns : List Turn) (r : HeartbeatRunner) → Same r (run hash turns r)
unfolding run
run-Same hash [] r = (r.recent_hash, refl)
run-Same hash (u ∷ turns) r =
    let (m, e) = tick-Same hash u r in
    let (k, f) = run-Same hash turns (tick hash u r).0 in
    (k, f ∙ ap (λ (s : HeartbeatRunner). record s { recent_hash = k }) e)

circular :
    (mins : ℕ) (r : HeartbeatRunner)
    → mins < day
    → InDay r
    → is_active_time mins r ≡ (
        not r.has_active_hours
        || ltb (since r.active_start mins) (since r.active_start r.active_end))
unfolding is_active_time
circular mins r m (p, (s, e)) =
    if_intro
      (λ b. b ≡ (
        not r.has_active_hours
        || ltb (since r.active_start mins) (since r.active_start r.active_end)))
      (not r.has_active_hours) (λ h. ground arith)
      (λ h. around_the_clock mins r.active_start r.active_end m s e ∙ ground arith)

-- A runner that `NewHeartbeatRunner` makes waits a positive interval between its ticks, and at any
-- minute of the day, whatever ticks have passed, it is active exactly if no hours are configured or
-- the minute comes before the end of the hours on the way around the clock from their start, which
-- covers hours past midnight.
pub is_active_time-circular :
    (lib : Library) (cfg : HeartbeatConfig) (r : HeartbeatRunner) (hash : Text → Text)
    (turns : List Turn) (mins : ℕ)
    → new_heartbeat_runner lib cfg ≡ some r
    → mins < day
    → (is_positive r.interval ≡ true)
      × (is_active_time mins (run hash turns r) ≡ (
          not r.has_active_hours
          || ltb (since r.active_start mins) (since r.active_start r.active_end)))
unfolding OnSome is_active_time
is_active_time-circular lib cfg r hash turns mins e m =
    let within : InDay r = subst (OnSome InDay) e (new_heartbeat_runner-InDay lib cfg) in
    let (k, f) = run-Same hash turns r in
    (within.0, ap (is_active_time mins) f ∙ circular mins r m within)
