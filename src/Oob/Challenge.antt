-- ===== src/Oob/Challenge.antt =====
-- The challenges of messaging/oob/challenge.go: `Issue`, `Wait`, `Approve`, `Deny`, `Pending`,
-- `PendingFor`. A `*Challenge` is shared by the manager's map and by the goroutine that waits on it,
-- so challenges live in a store and are named by their addresses there.
mod Effects
pub mod Issuing
pub mod Once
pub mod Approval
pub mod Removal
pub mod Listing
mod Tests
use ringclaw.Prelude.{
  ℕ, ◌+◌, ◌*◌, ◌==◌, Bool, true, false, not, ◌&&◌, Option, none, some, List, [], ◌∷◌, ◌++◌, length,
  get_elem?, set, if◌then◌else◌, leb,
}
use ringclaw.Prelude.Text.{Text, text_eq, trim_space, is_empty}
use ringclaw.Prelude.Assoc.{Assoc, lookup, insert, remove}
use ringclaw.Prelude.Time.{Time, Duration, pos, is_positive, add, after, minute}
use ringclaw.Oob.Reply.{new_challenge_id}

abbrev pub default_challenge_ttl : Duration
default_challenge_ttl = pos (5 * minute)

pub data Error : Type 0 where
  challenge_not_found challenge_expired canceled context_done : Error
  requester_required intent_required no_id : Error

pub record ChallengeResult : Type 0 where
  pub approved : Bool
  pub err : Option Error

pub record Challenge : Type 0 where
  pub id : Text
  pub intent : Text
  pub requester_id : Text
  pub origin_chat_id : Text
  pub owner_dm_chat : Text
  pub issued_at : Time
  pub expires_at : Time
  pub owner_id : Text
  pub result_ch : Option ChallengeResult  -- what is in the channel's buffer, which holds one
  pub once : Bool  -- `once.Do` has run

pub record IssueOptions : Type 0 where
  pub ttl : Duration
  pub owner_id : Text

pub record Manager : Type 0 where
  pub now : Time
  pub challenges : Assoc ℕ  -- from an identifier to the address of its challenge
  pub heap : List Challenge

unfoldable pub new : Time → Manager
new now = record { now = now; challenges = []; heap = [] }

pub data Issued : Type 0 where
  ok : ℕ → Issued  -- the address of the new challenge
  fail : Error → Issued

-- The literal of `Issue`.
unfoldable pub new_challenge : Text → Text → Text → Text → Text → IssueOptions → Time → Challenge
new_challenge id requester_id intent origin_chat_id owner_dm_chat opts now = record {
  id = id;
  intent = intent;
  requester_id = requester_id;
  origin_chat_id = origin_chat_id;
  owner_dm_chat = owner_dm_chat;
  issued_at = now;
  expires_at = add now (if is_positive opts.ttl then opts.ttl else default_challenge_ttl);
  owner_id = opts.owner_id;
  result_ch = none;
  once = false;
}

-- `random` is what `rand.Read` gave.
unfoldable pub issue :
    Option (List ℕ) → Text → Text → Text → Text → IssueOptions → Manager → Manager × Issued
unfolding new_challenge
issue random requester_id intent origin_chat_id owner_dm_chat opts m =
    if is_empty (trim_space requester_id)
    then (m, fail requester_required)
    else if is_empty (trim_space intent)
    then (m, fail intent_required)
    else elim (new_challenge_id random) [
      | none ↦ (m, fail no_id)
      | some id ↦
          let c = new_challenge id requester_id intent origin_chat_id owner_dm_chat opts m.now in
          (
            record m {
              challenges = insert id (length m.heap) m.challenges;
              heap = m.heap ++ c ∷ [];
            },
            ok (length m.heap),
          )
    ]

-- `resolve`: the first result is sent, later ones are dropped.
pub send_once : Bool → Option Error → Challenge → Challenge
send_once approved err c =
    if c.once
    then c
    else record c { once = true; result_ch = some (record { approved = approved; err = err }) }

update_at : ℕ → (Challenge → Challenge) → Manager → Manager
update_at a f m = elim (get_elem? m.heap a) [
  | none ↦ m
  | some c ↦ record m { heap = set m.heap a (f c) }
]

resolve : ℕ → Bool → Option Error → Manager → Manager
unfolding send_once update_at
resolve a approved err = update_at a (send_once approved err)

remove_challenge : Text → Manager → Manager
remove_challenge id m = record m { challenges = remove id m.challenges }

lookup_challenge : Text → Manager → Option (ℕ × Challenge)
lookup_challenge id m = elim (lookup id m.challenges) [
  | none ↦ none
  | some a ↦ elim (get_elem? m.heap a) [ none ↦ none | some c ↦ some (a, c) ]
]

unfoldable pub approve : Text → Manager → Manager × Bool × Option Error
unfolding lookup_challenge resolve
approve challenge_id m = elim (lookup_challenge challenge_id m) [
  | none ↦ (m, false, some challenge_not_found)
  | some (a, c) ↦
      if after m.now c.expires_at
      then (resolve a false (some challenge_expired) m, false, some challenge_expired)
      else (resolve a true none m, true, none)
]

unfoldable pub deny : Text → Manager → Manager × Bool
unfolding lookup_challenge resolve
deny challenge_id m = elim (lookup_challenge challenge_id m) [
  | none ↦ (m, false)
  | some (a, c) ↦ (resolve a false none m, true)
]

-- The case that `select` takes; it may take any that is ready, and only such a one.
pub data Wake : Type 0 where
  by_context by_deadline by_result : Wake

-- `Wait`, from the moment that it wakes: the deferred removal included. `none` is "not ready".
unfoldable pub wait : ℕ → Wake → Manager → Option (Manager × Bool × Option Error)
unfolding resolve remove_challenge update_at
wait a by_context m = elim (get_elem? m.heap a) [
  | none ↦ none
  | some c ↦
      some (remove_challenge c.id (resolve a false (some canceled) m), false, some context_done)
]
wait a by_deadline m = elim (get_elem? m.heap a) [
  | none ↦ none
  | some c ↦
      if leb c.expires_at m.now
      then some (
        remove_challenge c.id (resolve a false (some challenge_expired) m),
        false,
        some challenge_expired,
      )
      else none
]
wait a by_result m = elim (get_elem? m.heap a) [
  | none ↦ none
  | some c ↦ elim c.result_ch [
    | none ↦ none
    | some r ↦ some (
      remove_challenge c.id (update_at a (λ d. record d { result_ch = none }) m),
      r.approved,
      r.err,
    )
  ]
]

-- The challenges of the map that pass a test; the map's own order stands for Go's arbitrary one.
take_if : (Challenge → Bool) → Option Challenge → List Challenge → List Challenge
take_if p none out = out
take_if p (some c) out = if p c then c ∷ out else out

select : (Challenge → Bool) → List Challenge → Assoc ℕ → List Challenge
select p heap [] = []
select p heap ((id, a) ∷ rest) = take_if p (get_elem? heap a) (select p heap rest)

pub pending_for : Text → Manager → List Challenge
pending_for requester_id m =
    select
      (λ c.
        if not (text_eq c.requester_id requester_id) then false else not (after m.now c.expires_at))
      m.heap m.challenges

pub pending : Manager → List Challenge
pending m = select (λ c. not (after m.now c.expires_at)) m.heap m.challenges

-- Every call on the manager, and the clock.
pub data Call : Type 0 where
  issues : Option (List ℕ) → Text → Text → Text → Text → IssueOptions → Call
  approves denies : Text → Call
  wakes : ℕ → Wake → Call
  pass : ℕ → Call

abbrev or_same : Manager → Option (Manager × Bool × Option Error) → Manager
or_same m none = m
or_same m (some (m', approved, err)) = m'

unfoldable pub step : Call → Manager → Manager
unfolding issue approve deny wait
step (issues random requester_id intent origin_chat_id owner_dm_chat opts) m =
    (issue random requester_id intent origin_chat_id owner_dm_chat opts m).0
step (approves id) m = (approve id m).0
step (denies id) m = (deny id m).0
step (wakes a wake) m = or_same m (wait a wake m)
step (pass d) m = record m { now = m.now + d }

unfoldable pub run : List Call → Manager → Manager
run [] m = m
run (c ∷ cs) m = run cs (step c m)
