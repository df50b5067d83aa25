-- ===== src/Oob/FullAccess.antt =====
-- The full-access grant of messaging/oob/manager.go: the fields `fullAccessUntil`, `expiryTimer` and
-- `revokeHook` of `Manager`, beside what Go's runtime holds for them (the clock, the timers of
-- `time.AfterFunc`, the callbacks and the hooks started as goroutines). The challenge table, which
-- shares the mutex and no other state, is in Oob/Challenge.antt.
pub mod Hook
pub mod Expiry
pub mod Race
pub mod Limit
pub mod Readers
mod Tests
use ringclaw.Prelude.{
  ℕ, zero, suc, ◌+◌, ◌==◌, Bool, true, false, not, ◌&&◌, Option, none, some, List, [], ◌∷◌, keep,
  if◌then◌else◌, ltb, leb,
}
use ringclaw.Prelude.Time.{Time, Duration, is_positive, add, is_zero, after}

-- A timer of the runtime: at `deadline` it starts its callback, unless `Stop` came first.
pub record Timer : Type 0 where
  pub id : ℕ
  pub deadline : Time

pub record System : Type 0 where
  pub now : Time
  pub full_access_until : Time
  pub expiry_timer : Option ℕ
  pub revoke_hook : Option ℕ  -- which callback is installed; nil is `none`
  pub timers : List Timer  -- armed timers of the runtime
  pub next_timer : ℕ
  pub callbacks : ℕ  -- `onExpiryTimer` goroutines that were started and wait for the mutex
  pub launched : List ℕ  -- every `go hook()` so far, the latest first

-- `New`: nothing is granted, so a restart locks the bot again.
pub new : Time → System
new now = record {
  now = now;
  full_access_until = 0;
  expiry_timer = none;
  revoke_hook = none;
  timers = [];
  next_timer = 0;
  callbacks = 0;
  launched = [];
}

pub set_full_access_revoke_hook : Option ℕ → System → System
set_full_access_revoke_hook hook s = record s { revoke_hook = hook }

-- `if t != nil { t.Stop() }`: a timer that has already fired is not in the list any more, and its
-- callback goes on.
pub stop : Option ℕ → List Timer → List Timer
stop none ts = ts
stop (some id) ts = keep (λ t. not (t.id == id)) ts

-- `if hook != nil { go hook() }`
pub launch : Option ℕ → List ℕ → List ℕ
launch none log = log
launch (some hook) log = hook ∷ log

unfoldable pub grant_full_access : Duration → System → System
unfolding stop
grant_full_access ttl s =
    if is_positive ttl
    then record s {
      full_access_until = add s.now ttl;
      timers =
          record { id = s.next_timer; deadline = add s.now ttl } ∷ stop s.expiry_timer s.timers;
      expiry_timer = some s.next_timer;
      next_timer = suc s.next_timer;
    }
    else s

pub revoke_full_access : System → System
unfolding stop launch
revoke_full_access s =
    let was_active = not (is_zero s.full_access_until) in
    record s {
      full_access_until = 0;
      timers = stop s.expiry_timer s.timers;
      expiry_timer = none;
      launched = if was_active then launch s.revoke_hook s.launched else s.launched;
    }

pub consume_if_expired : System → System × Bool
unfolding stop
consume_if_expired s =
    if is_zero s.full_access_until
    then (s, false)
    else if after s.now s.full_access_until
    then (
      record s {
        full_access_until = 0;
        timers = stop s.expiry_timer s.timers;
        expiry_timer = none;
      },
      true,
    )
    else (s, false)

pub fire_revoke_hook : System → System
unfolding launch
fire_revoke_hook s = record s { launched = launch s.revoke_hook s.launched }

-- The first half of both readers: clear an expired grant, and tell the hook. The readers take the
-- mutex anew for each part; here they are one step, which Oob/FullAccess/Readers.antt takes apart.
expire_lazily : System → System
unfolding consume_if_expired fire_revoke_hook
expire_lazily s =
    let (t, expired) = consume_if_expired s in if expired then fire_revoke_hook t else t

pub full_access_active : System → System × Bool
unfolding expire_lazily
full_access_active s = let t = expire_lazily s in (t, not (is_zero t.full_access_until))

unfoldable pub full_access_expires_at : System → System × Time
unfolding expire_lazily
full_access_expires_at s = let t = expire_lazily s in (t, t.full_access_until)

pub on_expiry_timer : System → System
unfolding launch
on_expiry_timer s =
    let was_active = not (is_zero s.full_access_until) in
    record s {
      full_access_until = 0;
      expiry_timer = none;
      launched = if was_active then launch s.revoke_hook s.launched else s.launched;
    }

-- Every call that reaches the manager, with what the runtime does between calls: the clock moves,
-- a timer whose deadline has come starts its callback, a callback gets the mutex.
pub data Call : Type 0 where
  set_hook : Option ℕ → Call
  grant : Duration → Call
  revoke active expires_at : Call
  pass : ℕ → Call
  fire : ℕ → Call
  callback : Call

abbrev due : ℕ → Time → List Timer → Bool
due id now [] = false
due id now (t ∷ ts) = if t.id == id then leb t.deadline now else due id now ts

fire_timer : ℕ → System → System
unfolding stop
fire_timer id s =
    if due id s.now s.timers
    then record s { timers = stop (some id) s.timers; callbacks = suc s.callbacks }
    else s

run_callback : System → System
unfolding on_expiry_timer
run_callback s = elim s.callbacks [
  | zero ↦ s
  | suc n ↦ on_expiry_timer (record s { callbacks = n })
]

unfoldable pub step : Call → System → System
unfolding set_full_access_revoke_hook grant_full_access revoke_full_access full_access_active
    full_access_expires_at fire_timer run_callback
step (set_hook hook) s = set_full_access_revoke_hook hook s
step (grant ttl) s = grant_full_access ttl s
step revoke s = revoke_full_access s
step active s = (full_access_active s).0
step expires_at s = (full_access_expires_at s).0
step (pass d) s = record s { now = s.now + d }
step (fire id) s = fire_timer id s
step callback s = run_callback s

-- A schedule of calls, in the order in which they get the mutex.
pub run : List Call → System → System
run [] s = s
run (c ∷ cs) s = run cs (step c s)
