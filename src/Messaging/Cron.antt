-- ===== src/Messaging/Cron.antt =====
-- Scheduled jobs: messaging/cron_store.go, and the scheduler of messaging/cron.go. The file is not
-- kept: each call leaves the jobs that it writes. The zero time is 0. What the time package and the
-- parser of cron expressions make of a schedule are arguments, and so is how a run ends.
pub mod Running
mod Tests
use ringclaw.Prelude.{
  ℕ, zero, suc, ◌+◌, ◌*◌, ◌==◌, Bool, true, false, not, ◌&&◌, ◌||◌, Option, none, some, List, [],
  ◌∷◌, ◌++◌, if◌then◌else◌, ltb, get_elem?,
}
use ringclaw.Prelude.Text.{Text, codes, text_eq, has_prefix, trim_prefix, trim_space, is_empty}
use ringclaw.Prelude.Assoc.{Assoc, insert, remove, flag}
use ringclaw.Prelude.Time.{Time, Duration, second, is_positive, add, is_zero}

pub record JobState : Type 0 where
  pub next_run_at : Time
  pub last_run_at : Time
  pub last_status : Text
  pub last_error : Text
  pub run_count : ℕ
  pub error_count : ℕ
  pub delete_after : Bool

pub record CronJob : Type 0 where
  pub id : Text
  pub name : Text
  pub enabled : Bool
  pub schedule : Text
  pub message : Text
  pub chat_id : Text
  pub agent : Text
  pub state : JobState

abbrev pub CronStore : Type 0
CronStore = List CronJob

-- `fresh_id` is the start of the identifier that the uuid package makes.
pub add_job : Text → CronJob → CronStore → CronStore
add_job fresh_id job jobs =
    jobs ++ (if is_empty job.id then record job { id = fresh_id } else job) ∷ []

-- `none`: not found.
pub delete : Text → CronStore → Option CronStore
delete id [] = none
delete id (j ∷ jobs) =
    let rest = delete id jobs in
    if text_eq j.id id then some jobs else elim rest [ none ↦ none | some js ↦ some (j ∷ js) ]

-- The loops of `SetEnabled` and `UpdateState`: the first job with the identifier is changed.
modify : Text → (CronJob → CronJob) → CronStore → Option CronStore
modify id f [] = none
modify id f (j ∷ jobs) =
    let rest = modify id f jobs in
    if text_eq j.id id
    then some (f j ∷ jobs)
    else elim rest [ none ↦ none | some js ↦ some (j ∷ js) ]

or_unchanged : CronStore → Option CronStore → CronStore
or_unchanged jobs none = jobs
or_unchanged jobs (some js) = js

pub set_enabled : Text → Bool → CronStore → Option CronStore
unfolding modify
set_enabled id enabled jobs = modify id (λ j. record j { enabled = enabled }) jobs

pub update_state : Text → JobState → CronStore → CronStore
unfolding modify or_unchanged
update_state id state jobs = or_unchanged jobs (modify id (λ j. record j { state = state }) jobs)

pub get : Text → CronStore → Option CronJob
get id [] = none
get id (j ∷ jobs) = if text_eq j.id id then some j else get id jobs

-- Code that is not in this repository: the times that a text or a cron expression stands for.
pub record Clockwork : Type 0 where
  pub parse_at : Text → Option Time
  pub parse_duration : Text → Option Duration
  pub cron_next : Text → Time → Option Time

abbrev pub cron_tick_interval : ℕ
cron_tick_interval = 30 * second

pub compute_next_run : Clockwork → Text → Time → Option Time
compute_next_run k text now =
    let schedule = trim_space text in
    if has_prefix schedule (codes "at:")
    then elim (k.parse_at (trim_prefix schedule (codes "at:"))) [
      | none ↦ none
      | some t ↦ if ltb t now then none else some t
    ]
    else if has_prefix schedule (codes "every:")
    then elim (k.parse_duration (trim_prefix schedule (codes "every:"))) [
      | none ↦ none
      | some d ↦ if is_positive d then some (add now d) else none
    ]
    else k.cron_next schedule now

pub record CronScheduler : Type 0 where
  pub store : CronStore
  pub running : Assoc Bool
  pub in_flight : List CronJob  -- the jobs of the goroutines of `tick` that have not returned

-- `initNextRuns`, over its snapshot.
init_next_runs : Clockwork → Time → List CronJob → CronScheduler → CronScheduler
unfolding or_unchanged
init_next_runs k now [] s = s
init_next_runs k now (job ∷ jobs) s = init_next_runs k now jobs (
    if not job.enabled || not (is_zero job.state.next_run_at)
    then s
    else elim (compute_next_run k job.schedule now) [
      | none ↦ record s { store = or_unchanged s.store (set_enabled job.id false s.store) }
      | some next ↦ record s {
        store = update_state job.id (record job.state { next_run_at = next }) s.store;
      }
    ])

abbrev due : Time → CronJob → Bool
due now job =
    job.enabled && not (is_zero job.state.next_run_at) && not (ltb now job.state.next_run_at)

-- The loop of `tick`, over its snapshot.
tick_loop : Clockwork → Time → List CronJob → CronScheduler → CronScheduler
tick_loop k now [] s = s
tick_loop k now (job ∷ jobs) s = tick_loop k now jobs (
    if not (due now job) then s else if flag job.id s.running then s else record s {
      running = insert job.id true s.running;
      store =
          update_state job.id
            (record job.state {
              next_run_at = elim (compute_next_run k job.schedule now) [
                | some next ↦ next
                | none ↦ now + cron_tick_interval * 2
              ];
            })
            s.store;
      in_flight = job ∷ s.in_flight;
    })

pub tick : Clockwork → Time → CronScheduler → CronScheduler
unfolding tick_loop
tick k now s = tick_loop k now s.store s

pub record_result : Clockwork → Time → CronJob → Bool → Text → CronScheduler → CronScheduler
unfolding or_unchanged
record_result k now job failed err s =
    let counted = record job.state {
      last_run_at = now;
      last_status = if failed then codes "error" else codes "ok";
      run_count = suc job.state.run_count;
      error_count = if failed then suc job.state.error_count else job.state.error_count;
      last_error = if failed then err else [];
    } in
    let once : CronStore =
      if job.state.delete_after
      then or_unchanged s.store (set_enabled job.id false s.store)
      else s.store in
    record s {
      store = elim (compute_next_run k job.schedule now) [
        | none ↦ update_state job.id counted (or_unchanged once (set_enabled job.id false once))
        | some next ↦ update_state job.id (record counted { next_run_at = next }) once
      ];
    }

-- How `executeJob` ends: there was no agent; the agent or the sending failed; or it went well.
pub data Outcome : Type 0 where
  no_agent : Outcome
  failure : Text → Outcome
  success : Outcome

execute_job : Clockwork → Time → CronJob → Outcome → CronScheduler → CronScheduler
execute_job k now job no_agent s = record s {
  store = update_state job.id (record job.state { next_run_at = now + cron_tick_interval }) s.store;
}
execute_job k now job (failure err) s = record_result k now job true err s
execute_job k now job success s = record_result k now job false [] s

drop_at : ℕ → List CronJob → List CronJob
drop_at n [] = []
drop_at zero (j ∷ js) = js
drop_at (suc n) (j ∷ js) = j ∷ drop_at n js

-- The end of the goroutine at a position, with its deferred `running.Delete`.
finish : Clockwork → Time → ℕ → Outcome → CronScheduler → CronScheduler
unfolding execute_job drop_at
finish k now n outcome s = elim (get_elem? s.in_flight n) [
  | none ↦ s
  | some job ↦
      let t = execute_job k now job outcome s in
      record t { running = remove job.id t.running; in_flight = drop_at n t.in_flight }
]

pub data Event : Type 0 where
  ticks : Time → Event
  finishes : Time → ℕ → Outcome → Event
  edits : CronStore → Event  -- a command changes the store

pub step : Clockwork → Event → CronScheduler → CronScheduler
unfolding tick finish
step k (ticks now) s = tick k now s
step k (finishes now n outcome) s = finish k now n outcome s
step k (edits jobs) s = record s { store = jobs }

pub run : Clockwork → List Event → CronScheduler → CronScheduler
run k [] s = s
run k (e ∷ es) s = run k es (step k e s)
