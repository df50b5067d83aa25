-- ===== src/Messaging/Heartbeat.antt =====
-- The runner of messaging/heartbeat/runner.go. What an agent answers, what HEARTBEAT.md holds, the
-- clock, and what `time.ParseDuration`, `time.LoadLocation`, `fmt.Sscanf` and `sha256.Sum256` make of
-- a text are arguments; the loop of `Start` is the list of its ticks.
pub mod Ticks
pub mod Hours
pub mod Repeats
mod Tests
use ringclaw.Prelude.{
  ℕ, ◌+◌, ◌-◌, ◌*◌, ◌==◌, Bool, true, false, not, ◌&&◌, ◌||◌, Option, none, some, List, [], ◌∷◌,
  ◌++◌, if◌then◌else◌, ltb, leb,
}
use ringclaw.Prelude.Text.{Text, codes, text_eq, has_prefix, trim_space, equal_fold, is_empty}
use ringclaw.Prelude.Assoc.{Assoc, lookup, insert}
use ringclaw.Prelude.Int.{ℤ}
use ringclaw.Prelude.Time.{Time, Duration, pos, negsuc, is_positive, minute, hour}

abbrev pub heartbeat_ok_token : Text
heartbeat_ok_token = codes "HEARTBEAT_OK"

abbrev pub heartbeat_dedup_window : ℕ
heartbeat_dedup_window = 24 * hour

pub record HeartbeatRunner : Type 0 where
  pub interval : Duration
  pub has_active_hours : Bool  -- `cfg.ActiveHours` is set
  pub active_start : ℕ
  pub active_end : ℕ
  pub recent_hash : Assoc Time

-- Whether hours and minutes are read, and are in range.
pub in_day : Option (ℤ × ℤ) → Option ℕ
in_day (some (pos h, pos m)) = if ltb 23 h || ltb 59 m then none else some (h * 60 + m)
in_day _ = none

pub parse_time_of_day : (Text → Option (ℤ × ℤ)) → Text → Option ℕ
parse_time_of_day sscanf s = in_day (sscanf s)

-- `strings.SplitN(s, "-", 2)`, if there are two parts.
pub split_at_dash : Text → Option (Text × Text)
split_at_dash [] = none
split_at_dash (c ∷ s) =
    let rest = split_at_dash s in
    if c == b'-' then some ([], s) else elim rest [ none ↦ none | some (a, b) ↦ some (c ∷ a, b) ]

both : Option ℕ → Option ℕ → Option (ℕ × ℕ)
both (some start) (some end) = some (start, end)
both _ _ = none

hours_of : (Text → Option (ℤ × ℤ)) → Option (Text × Text) → Option (ℕ × ℕ)
hours_of sscanf none = none
hours_of sscanf (some (a, b)) =
    both (parse_time_of_day sscanf (trim_space a)) (parse_time_of_day sscanf (trim_space b))

pub parse_active_hours : (Text → Option (ℤ × ℤ)) → Text → Option (ℕ × ℕ)
parse_active_hours sscanf s = hours_of sscanf (split_at_dash s)

-- `HeartbeatConfig`, as far as the runner reads it.
pub record HeartbeatConfig : Type 0 where
  pub interval : Text
  pub timezone : Text
  pub active_hours : Text

pub record Library : Type 0 where
  pub parse_duration : Text → Option Duration
  pub load_location : Text → Bool
  pub sscanf : Text → Option (ℤ × ℤ)

positive : Option Duration → Option Duration
positive none = none
positive (some d) = if is_positive d then some d else none

interval_of : Library → Text → Option Duration
interval_of lib s = if is_empty s then some (pos (30 * minute)) else positive (lib.parse_duration s)

with_hours : Duration → Option (ℕ × ℕ) → Option HeartbeatRunner
with_hours d none = none
with_hours d (some (start, end)) = some (record {
  interval = d;
  has_active_hours = true;
  active_start = start;
  active_end = end;
  recent_hash = [];
})

with_interval : Library → HeartbeatConfig → Option Duration → Option HeartbeatRunner
with_interval lib cfg none = none
with_interval lib cfg (some d) =
    if not (is_empty cfg.timezone) && not (lib.load_location cfg.timezone)
    then none
    else if is_empty cfg.active_hours
    then some (record {
      interval = d;
      has_active_hours = false;
      active_start = 0;
      active_end = 0;
      recent_hash = [];
    })
    else with_hours d (parse_active_hours lib.sscanf cfg.active_hours)

pub new_heartbeat_runner : Library → HeartbeatConfig → Option HeartbeatRunner
new_heartbeat_runner lib cfg = with_interval lib cfg (interval_of lib cfg.interval)

-- The argument is `now.Hour()*60 + now.Minute()`.
pub is_active_time : ℕ → HeartbeatRunner → Bool
is_active_time mins r =
    if not r.has_active_hours
    then true
    else if leb r.active_start r.active_end
    then leb r.active_start mins && ltb mins r.active_end
    else leb r.active_start mins || ltb mins r.active_end

-- `strings.Split(content, "\n")`
split_lines : Text → List Text
split_lines [] = [] ∷ []
split_lines (c ∷ s) =
    let rest = split_lines s in
    if c == b'\n' then [] ∷ rest else elim rest [ [] ↦ (c ∷ []) ∷ [] | l ∷ ls ↦ (c ∷ l) ∷ ls ]

-- A line of the loop of `isEffectivelyEmpty` that is passed over.
abbrev says_nothing : Text → Bool
says_nothing line = is_empty line || has_prefix line (codes "#") || has_prefix line (codes "<!--")

no_line_says : List Text → Bool
no_line_says [] = true
no_line_says (line ∷ lines) = says_nothing (trim_space line) && no_line_says lines

pub is_effectively_empty : Text → Bool
is_effectively_empty content = no_line_says (split_lines content)

-- The loop that deletes what was seen before the window.
pub clean_old : Time → Assoc Time → Assoc Time
clean_old now [] = []
clean_old now ((k, t) ∷ m) =
    let rest = clean_old now m in
    if ltb (t + heartbeat_dedup_window) now then rest else (k, t) ∷ rest

remember : Text → Time → HeartbeatRunner → HeartbeatRunner
remember h now r = record r { recent_hash = clean_old now (insert h now r.recent_hash) }

seen_at : Text → Time → Option Time → HeartbeatRunner → HeartbeatRunner × Bool
seen_at h now none r = (remember h now r, false)
seen_at h now (some t) r =
    if ltb now (t + heartbeat_dedup_window) then (r, true) else (remember h now r, false)

-- The first argument is the hash in hexadecimal digits.
pub is_duplicate : (Text → Text) → Time → Text → HeartbeatRunner → HeartbeatRunner × Bool
is_duplicate hash now reply r = seen_at (hash reply) now (lookup (hash reply) r.recent_hash) r

-- `strings.ToUpper`: what it makes of letters outside ASCII is not the token's in any case.
upper : Text → Text
upper [] = []
upper (c ∷ s) = (if leb b'a' c && leb c b'z' then c - 32 else c) ∷ upper s

pub is_all_clear : Text → Bool
is_all_clear reply =
    is_empty reply
    || equal_fold reply heartbeat_ok_token
    || has_prefix (trim_space (upper reply)) heartbeat_ok_token

-- What a tick meets.
pub record Turn : Type 0 where
  pub now : Time
  pub mins : ℕ
  pub content : Option Text  -- of HEARTBEAT.md
  pub answer : Option (Option Text)  -- the agent's, or its error, if there is an agent
  pub accepted : Bool  -- whether the message can be sent

-- How a tick ends; what is sent stands behind a fixed prefix.
pub data Outcome : Type 0 where
  outside_hours no_file empty_file no_agent agent_error all_clear suppressed : Outcome
  sent send_failed : Text → Outcome

pub report : Turn → Text → HeartbeatRunner × Bool → HeartbeatRunner × Outcome
report u reply (r, true) = (r, suppressed)
report u reply (r, false) = (r, if u.accepted then sent reply else send_failed reply)

reply_to : (Text → Text) → Turn → Text → HeartbeatRunner → HeartbeatRunner × Outcome
reply_to hash u reply r =
    if is_all_clear reply then (r, all_clear) else report u reply (is_duplicate hash u.now reply r)

ask : (Text → Text) → Turn → Option (Option Text) → HeartbeatRunner → HeartbeatRunner × Outcome
ask hash u none r = (r, no_agent)
ask hash u (some none) r = (r, agent_error)
ask hash u (some (some reply)) r = reply_to hash u (trim_space reply) r

read : (Text → Text) → Turn → Option Text → HeartbeatRunner → HeartbeatRunner × Outcome
read hash u none r = (r, no_file)
read hash u (some content) r =
    if is_effectively_empty content then (r, empty_file) else ask hash u u.answer r

pub tick : (Text → Text) → Turn → HeartbeatRunner → HeartbeatRunner × Outcome
tick hash u r =
    if not (is_active_time u.mins r) then (r, outside_hours) else read hash u u.content r

-- The loop of `Start`.
pub run : (Text → Text) → List Turn → HeartbeatRunner → HeartbeatRunner
run hash [] r = r
run hash (u ∷ turns) r = run hash turns (tick hash u r).0
