-- ===== src/Messaging/FullAccess.antt =====
-- The command /full-access of messaging/handler_fullaccess.go, over the challenges and the grant of
-- its manager. What `time.ParseDuration` makes of a text, the random bytes of an identifier and
-- whether the prompt could be posted are arguments; of the messages only their kind is kept.
pub mod Bounds
pub mod Trace
pub mod Approval
mod Tests
use ringclaw.Prelude.{
  ℕ, zero, suc, ◌+◌, ◌*◌, ◌==◌, Bool, true, false, not, ◌&&◌, ◌||◌, Option, none, some, List, [],
  ◌∷◌, ◌++◌, get_elem?, if◌then◌else◌, ltb,
}
use ringclaw.Prelude.Text.{Text, codes, text_eq, trim_prefix, trim_space, to_lower, is_empty}
use ringclaw.Prelude.Time.{Time, Duration, pos, negsuc, is_positive, hour}
use ringclaw.Oob.Challenge
use ringclaw.Oob.Challenge.{
  Manager, Error, challenge_expired, Issued, ok, fail, default_challenge_ttl, issue, deny, Wake,
  wait, Challenge, Call,
}
use ringclaw.Oob.FullAccess
use ringclaw.Oob.FullAccess.{
  System, grant_full_access, revoke_full_access, full_access_active, full_access_expires_at,
}

abbrev pub full_access_default_grant : ℕ
full_access_default_grant = 24 * hour

abbrev pub full_access_max_grant : ℕ
full_access_max_grant = 30 * (24 * hour)

-- A goroutine of `awaitFullAccessGrant` that has not returned: its arguments.
pub record Waiter : Type 0 where
  pub challenge : ℕ
  pub chat_id : Text
  pub dur : Duration

-- What is answered.
pub data Reply : Type 0 where
  not_configured not_in_dm usage invalid_duration : Reply
  status : Bool → Time → Reply
  revoked aborted requested expired denied : Reply
  granted : Time → Reply

pub record Bot : Type 0 where
  pub configured : Bool  -- whether there is a manager
  pub challenges : Manager
  pub grant : System
  pub owner_dm_chat_id : Text
  pub waiting : List Waiter
  pub replies : List Reply  -- the latest first

reply : Reply → Bot → Bot
reply r b = record b { replies = r ∷ b.replies }

-- The loop of `splitFirstWord`.
split_word : Text → Text × Text
split_word [] = ([], [])
split_word (c ∷ s) =
    let (word, rest) = split_word s in
    if c == b' ' || c == b'\t' then ([], c ∷ s) else (c ∷ word, rest)

pub split_first_word : Text → Text × Text
unfolding split_word trim_space
split_first_word s = let (word, rest) = split_word (trim_space s) in (word, trim_space rest)

-- `d > fullAccessMaxGrant`, and the cap.
cap : Duration → Duration
cap (pos n) = if ltb full_access_max_grant n then pos full_access_max_grant else pos n
cap (negsuc n) = negsuc n

checked : Option Duration → Option Duration
unfolding cap
checked none = none
checked (some d) = if is_positive d then some (cap d) else none

-- The first argument is `time.ParseDuration`; `none` is an error.
pub parse_grant_duration : (Text → Option Duration) → Text → Option Duration
unfolding checked trim_space
parse_grant_duration parse_duration s =
    if is_empty (trim_space s)
    then some (pos full_access_default_grant)
    else checked (parse_duration (trim_space s))

pub record Outside : Type 0 where
  pub parse_duration : Text → Option Duration
  pub random : Option (List ℕ)
  pub posted : Bool

-- The intent, less the duration at its end.
abbrev pub intent : Text
intent = codes "grant ACP full-access"

-- The prompt is posted, or the challenge is denied.
prompt : Outside → ℕ → Text → Text → Duration → Bot → Bot
unfolding reply
prompt o a id chat_id dur b =
    if o.posted
    then reply requested
        (record b { waiting = record { challenge = a; chat_id = chat_id; dur = dur } ∷ b.waiting })
    else reply aborted (record b { challenges = (deny id b.challenges).0 })

issued : Outside → Text → Duration → Manager × Issued → Bot → Bot
unfolding prompt reply
issued o chat_id dur (m, fail err) b = reply aborted (record b { challenges = m })
issued o chat_id dur (m, ok a) b = elim (get_elem? m.heap a) [
  | none ↦ record b { challenges = m }
  | some c ↦ prompt o a c.id chat_id dur (record b { challenges = m })
]

pub start_full_access_grant : Outside → Text → Text → Duration → Bot → Bot
unfolding issued
start_full_access_grant o chat_id requester_id dur b =
    issued o chat_id dur
      (issue o.random requester_id intent chat_id chat_id
        (record { ttl = default_challenge_ttl; owner_id = [] }) b.challenges)
      b

grant_for : Outside → Text → Text → Option Duration → Bot → Bot
unfolding start_full_access_grant reply
grant_for o chat_id requester_id none b = reply invalid_duration b
grant_for o chat_id requester_id (some dur) b = start_full_access_grant o chat_id requester_id dur b

-- `formatFullAccessStatus`: the grant is read once, or twice where it is in force.
pub format_full_access_status : Bot → Bot
unfolding reply
format_full_access_status b =
    let (g, active) = full_access_active b.grant in
    let (h, until) = full_access_expires_at g in
    if active
    then reply (status true until) (record b { grant = h })
    else reply (status false 0) (record b { grant = g })

-- The `switch` on the subcommand.
pub subcommand : Outside → Text → Text → Text → Text → Bot → Bot
unfolding format_full_access_status grant_for reply
subcommand o chat_id requester_id sub rest b =
    if is_empty sub || text_eq sub (codes "status")
    then format_full_access_status b
    else if text_eq sub (codes "revoke") || text_eq sub (codes "off") || text_eq sub (codes "lock")
    then reply revoked (record b { grant = revoke_full_access b.grant })
    else if text_eq sub (codes "grant") || text_eq sub (codes "on") || text_eq sub (codes "unlock")
    then grant_for o chat_id requester_id (parse_grant_duration o.parse_duration rest) b
    else reply usage b

pub handle_full_access : Outside → Text → Text → Text → Bot → Bot
unfolding subcommand split_first_word reply
handle_full_access o chat_id requester_id text b =
    if not b.configured
    then reply not_configured b
    else if is_empty b.owner_dm_chat_id || not (text_eq chat_id b.owner_dm_chat_id)
    then reply not_in_dm b
    else let (sub, rest) =
        split_first_word (trim_space (trim_prefix (trim_space text) (codes "/full-access"))) in
      subcommand o chat_id requester_id (to_lower sub) rest b

-- The `switch` after `c.Wait`, with what it returned.
pub settle : Waiter → Bool → Option Error → Bot → Bot
unfolding reply
settle w approved (some challenge_expired) b = reply expired b
settle w approved (some _) b = reply aborted b
settle w false none b = reply denied b
settle w true none b =
    let (g, until) = full_access_expires_at (grant_full_access w.dur b.grant) in
    reply (granted until) (record b { grant = g })

-- `awaitFullAccessGrant` from the moment that its wait is over; `none`: the wait is not ready.
pub await_full_access_grant : Waiter → Wake → Bot → Option Bot
unfolding settle
await_full_access_grant w wake b = elim (wait w.challenge wake b.challenges) [
  | none ↦ none
  | some (m, approved, err) ↦ some (settle w approved err (record b { challenges = m }))
]

pub drop_at : ℕ → List Waiter → List Waiter
drop_at n [] = []
drop_at zero (w ∷ ws) = ws
drop_at (suc n) (w ∷ ws) = w ∷ drop_at n ws

pub wake_at : ℕ → Wake → Bot → Bot
unfolding await_full_access_grant drop_at
wake_at n wake b = elim (get_elem? b.waiting n) [
  | none ↦ b
  | some w ↦ elim (await_full_access_grant w wake b) [
    | none ↦ b
    | some c ↦ record c { waiting = drop_at n c.waiting }
  ]
]

-- What can happen: a command, the end of a goroutine's wait, an approval or a denial, the passing
-- of time, a reader of the grant, a timer, a callback.
pub data Event : Type 0 where
  command : Outside → Text → Text → Text → Event
  wakes : ℕ → Wake → Event
  approves denies : Text → Event
  pass : ℕ → Event
  reads callback : Event
  fire : ℕ → Event

pub step : Event → Bot → Bot
unfolding handle_full_access wake_at
step (command o chat_id requester_id text) b = handle_full_access o chat_id requester_id text b
step (wakes n wake) b = wake_at n wake b
step (approves id) b = record b { challenges = Challenge.step (Challenge.approves id) b.challenges }
step (denies id) b = record b { challenges = Challenge.step (Challenge.denies id) b.challenges }
step (pass d) b = record b {
  challenges = Challenge.step (Challenge.pass d) b.challenges;
  grant = FullAccess.step (FullAccess.pass d) b.grant;
}
step reads b = record b { grant = FullAccess.step FullAccess.active b.grant }
step callback b = record b { grant = FullAccess.step FullAccess.callback b.grant }
step (fire id) b = record b { grant = FullAccess.step (FullAccess.fire id) b.grant }

pub run : List Event → Bot → Bot
run [] b = b
run (e ∷ events) b = run events (step e b)
