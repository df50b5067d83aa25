-- ===== src/Messaging/Cron/Running.antt =====
-- Which jobs run, and that none runs twice at a time.
use mathlib.Core.List.{Memᴰ}
use mathlib.Core.Path.{subst}
use ringclaw.Prelude.{
  ℕ, zero, suc, ◌+◌, ◌∙◌, ap, ◌≡◌, ◌⊎◌, inl, inr, refl, true, false, not, ◌&&◌, Bool-cases,
  Option-cases, some, List, [], ◌∷◌, if◌then◌else◌, get_elem?, arith,
}
use ringclaw.Prelude.Text.{Text, text_eq, text_eq_iff}
use ringclaw.Prelude.Assoc.{insert, flag, lookup-insert, lookup-remove}
use ringclaw.Prelude.Time.{Time}
use ringclaw.Messaging.Cron.{
  CronJob, CronScheduler, Clockwork, due, tick_loop, tick, record_result, Outcome, no_agent,
  failure, success, execute_job, drop_at, finish, Event, ticks, finishes, edits, step, run,
}

-- How many goroutines run the job with an identifier.
abbrev pub count : Text → List CronJob → ℕ
count key [] = 0
count key (j ∷ js) = (if text_eq j.id key then 1 else 0) + count key js

-- One goroutine runs a job that is marked as running, and none another.
abbrev pub OnceEach : CronScheduler → Type 0
OnceEach s = (key : Text) → count key s.in_flight ≡ (if flag key s.running then 1 else 0)

-- One turn of the loop of `tick`.
turn : Clockwork → Time → CronJob → CronScheduler → CronScheduler
unfolding tick_loop
turn k now job s = tick_loop k now (job ∷ []) s

tick_loop-turn :
    (k : Clockwork) (now : Time) (job : CronJob) (jobs : List CronJob) (s : CronScheduler)
    → tick_loop k now (job ∷ jobs) s ≡ tick_loop k now jobs (turn k now job s)
unfolding turn tick_loop
tick_loop-turn k now job jobs s = refl

-- A turn does nothing, or starts a job that is due and not running.
turn_cases :
    (k : Clockwork) (now : Time) (job : CronJob) (s : CronScheduler)
    → (turn k now job s ≡ s)
      ⊎ ((due now job ≡ true)
          × (flag job.id s.running ≡ false)
          × ((turn k now job s).running ≡ insert job.id true s.running)
          × ((turn k now job s).in_flight ≡ job ∷ s.in_flight))
unfolding turn tick_loop
turn_cases k now job s = elim (Bool-cases (due now job && not (flag job.id s.running))) [
  | inl starts ↦ inr (ground arith, ground arith, ground arith, ground arith)
  | inr skips ↦ inl (ground arith)
]

turn-OnceEach :
    (k : Clockwork) (now : Time) (job : CronJob) (s : CronScheduler)
    → OnceEach s
    → OnceEach (turn k now job s)
turn-OnceEach k now job s once key = elim (turn_cases k now job s) [
  | inl same ↦ rw same (once key)
  | inr (time, free, a, b) ↦
      ground (
        arith,
        once key,
        a,
        b,
        free,
        lookup-insert job.id key true s.running,
        text_eq_iff job.id key,
      )
]

tick_loop-OnceEach :
    (k : Clockwork) (now : Time) (jobs : List CronJob) (s : CronScheduler)
    → OnceEach s
    → OnceEach (tick_loop k now jobs s)
unfolding tick_loop turn
tick_loop-OnceEach k now [] s once = once
tick_loop-OnceEach k now (job ∷ jobs) s once =
    tick_loop-OnceEach k now jobs (turn k now job s) (turn-OnceEach k now job s once)

count-drop_at :
    (key : Text) (n : ℕ) (j : CronJob) (js : List CronJob)
    → get_elem? js n ≡ some j
    → count key (drop_at n js) + (if text_eq j.id key then 1 else 0) ≡ count key js
unfolding drop_at
count-drop_at key n j [] e = absurd (cc)
count-drop_at key zero j (i ∷ js) e = ground arith
count-drop_at key (suc n) j (i ∷ js) e = omega (arith, count-drop_at key n j js e)

execute_job_same :
    (k : Clockwork) (now : Time) (job : CronJob) (o : Outcome) (s : CronScheduler)
    → ((execute_job k now job o s).running ≡ s.running)
      × ((execute_job k now job o s).in_flight ≡ s.in_flight)
unfolding execute_job record_result
execute_job_same k now job no_agent s = (refl, refl)
execute_job_same k now job (failure err) s = (refl, refl)
execute_job_same k now job success s = (refl, refl)

finish-OnceEach :
    (k : Clockwork) (now : Time) (n : ℕ) (o : Outcome) (s : CronScheduler)
    → OnceEach s
    → OnceEach (finish k now n o s)
unfolding finish
finish-OnceEach k now n o s once key = elim (Option-cases (get_elem? s.in_flight n)) [
  | inl gone ↦ ground (arith, once key)
  | inr (job, at) ↦
      let (a, b) = execute_job_same k now job o s in
      ground (
        arith,
        once key,
        a,
        b,
        count-drop_at key n job s.in_flight at,
        lookup-remove job.id key s.running,
      )
]

-- Whatever ticks, ends of runs and edits of the store follow each other, in whatever way the runs
-- end: the job with an identifier is run by one goroutine while it is marked as running, and by
-- none otherwise. So no job runs twice at a time, and none stays blocked after its run.
pub run-OnceEach :
    (k : Clockwork) (es : List Event) (s : CronScheduler) → OnceEach s → OnceEach (run k es s)
unfolding run step tick
run-OnceEach k [] s once = once
run-OnceEach k (ticks now ∷ es) s once =
    run-OnceEach k es (tick k now s) (tick_loop-OnceEach k now s.store s once)
run-OnceEach k (finishes now n o ∷ es) s once =
    run-OnceEach k es (finish k now n o s) (finish-OnceEach k now n o s once)
run-OnceEach k (edits jobs ∷ es) s once = run-OnceEach k es (record s { store = jobs }) once

-- A job that a tick starts.
abbrev pub Started : Time → CronJob → CronScheduler → Type 0
Started now j s = (Memᴰ j s.store) × (due now j ≡ true) × (flag j.id s.running ≡ false)

in_cons : (j x : CronJob) (xs : List CronJob) → Memᴰ j (x ∷ xs) → (j ≡ x) ⊎ Memᴰ j xs
in_cons j x xs (Memᴰ.head same) = inl same
in_cons j x xs (Memᴰ.tail m) = inr m

turn-free :
    (k : Clockwork) (now : Time) (job : CronJob) (s : CronScheduler) (id : Text)
    → flag id (turn k now job s).running ≡ false
    → flag id s.running ≡ false
turn-free k now job s id free = elim (turn_cases k now job s) [
  | inl same ↦ rw⁻¹ same free
  | inr (time, idle, a, b) ↦
      ground (arith, ap (flag id) a, lookup-insert job.id id true s.running, free)
]

turn-due :
    (k : Clockwork) (now : Time) (job : CronJob) (s : CronScheduler) (j : CronJob)
    → Memᴰ j (turn k now job s).in_flight
    → Memᴰ j s.in_flight ⊎ ((j ≡ job) × (due now job ≡ true) × (flag job.id s.running ≡ false))
turn-due k now job s j m = elim (turn_cases k now job s) [
  | inl same ↦ inl (subst (λ (t : CronScheduler). Memᴰ j t.in_flight) same m)
  | inr (time, idle, a, b) ↦ elim (in_cons j job s.in_flight (subst (λ l. Memᴰ j l) b m)) [
    | inl here ↦ inr (here, time, idle)
    | inr old ↦ inl old
  ]
]

tick_loop-due :
    (k : Clockwork) (now : Time) (jobs : List CronJob) (s : CronScheduler) (j : CronJob)
    → Memᴰ j (tick_loop k now jobs s).in_flight
    → Memᴰ j s.in_flight ⊎ ((Memᴰ j jobs) × (due now j ≡ true) × (flag j.id s.running ≡ false))
unfolding tick_loop turn
tick_loop-due k now [] s j m = inl m
tick_loop-due k now (job ∷ jobs) s j m = elim (tick_loop-due k now jobs (turn k now job s) j m) [
  | inr (listed, time, free) ↦ inr (Memᴰ.tail listed, time, turn-free k now job s j.id free)
  | inl before ↦ elim (turn-due k now job s j before) [
    | inl old ↦ inl old
    | inr (here, time, idle) ↦ inr (
      Memᴰ.head here,
      ap (due now) here ∙ time,
      ap (λ (x : CronJob). flag x.id s.running) here ∙ idle,
    )
  ]
]

-- Whatever a tick starts stood in the store as an enabled job whose time had come, and was not
-- running.
tick-Started :
    (k : Clockwork) (now : Time) (s : CronScheduler) (j : CronJob)
    → Memᴰ j (tick k now s).in_flight
    → Memᴰ j s.in_flight ⊎ Started now j s
unfolding tick
tick-Started k now s j = tick_loop-due k now s.store s j
