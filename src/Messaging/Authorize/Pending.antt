-- ===== src/Messaging/Authorize/Pending.antt =====
-- At most one open request for a chat and a user.
use ringclaw.Prelude.{
  ℕ, zero, suc, ◌+◌, ◌≡◌, inl, inr, true, Option, some, List, [], ◌∷◌, arith, if◌then◌else◌,
  get_elem?,
}
use ringclaw.Prelude.Text.{Text, text_eq, text_eq_iff}
use ringclaw.Prelude.Assoc.{insert, flag, lookup-insert, lookup-remove}
use ringclaw.Ringcentral.{Client, Post}
use ringclaw.Messaging.{Waiter, Handler}
use ringclaw.Messaging.Authorize.{
  authorize_pending_key, Outside, authorize_mention, ask, drop_at, wake_at, Event, mention, wakes,
  calls, step, run,
}
use ringclaw.Messaging.Authorize.Effects.{
  Change, kept, opened, reverted, ask-Change, authorize_mention_cases,
}
use ringclaw.Messaging.Authorize.Waking.{Ended, still, ended, wake_at-Ended}

-- How many goroutines wait for a key.
abbrev pub count : Text → List Waiter → ℕ
count key [] = 0
count key (w ∷ ws) = (if text_eq w.key key then 1 else 0) + count key ws

-- One goroutine waits for a key that is pending, and none for any other.
abbrev pub OneEach : Handler → Type 0
OneEach h = (key : Text) → count key h.waiting ≡ (if flag key h.pending_authorize then 1 else 0)

Change-OneEach : (key : Text) (g h : Handler) → Change key g h → OneEach h → OneEach g
Change-OneEach key g h (kept (a, b)) one k = ground (arith, one k, a, b)
Change-OneEach key g h (opened w free named a b asked) one k = ground (
  arith,
  one k,
  named,
  a,
  b,
  free,
  lookup-insert key k true h.pending_authorize,
  text_eq_iff key k,
)
Change-OneEach key g h (reverted free a b) one k = ground (
  arith,
  one k,
  a,
  b,
  free,
  lookup-remove key k (insert key true h.pending_authorize),
  lookup-insert key k true h.pending_authorize,
  text_eq_iff key k,
)

authorize_mention-OneEach :
    (o : Outside) (read : Option Client) (post : Post) (h : Handler)
    → OneEach h
    → OneEach (authorize_mention o read post h)
authorize_mention-OneEach o read post h one = elim (authorize_mention_cases o read post h) [
  | inl same ↦ rw same one
  | inr (mgr, on, asked) ↦
      let key = authorize_pending_key post.group_id post.creator_id in
      rw asked
        (Change-OneEach key (ask o read post key mgr h) h (ask-Change o read post key mgr h) one)
]

count-drop_at :
    (key : Text) (n : ℕ) (w : Waiter) (ws : List Waiter)
    → get_elem? ws n ≡ some w
    → count key (drop_at n ws) + (if text_eq w.key key then 1 else 0) ≡ count key ws
unfolding drop_at
count-drop_at key n w [] e = absurd (cc)
count-drop_at key zero w (v ∷ ws) e = ground arith
count-drop_at key (suc n) w (v ∷ ws) e = omega (arith, count-drop_at key n w ws e)

Ended-OneEach : (n : ℕ) (g h : Handler) → Ended n g h → OneEach h → OneEach g
Ended-OneEach n g h (still same) one k = rw same (one k)
Ended-OneEach n g h (ended w at a b) one k = ground (
  arith,
  one k,
  a,
  b,
  count-drop_at k n w h.waiting at,
  lookup-remove w.key k h.pending_authorize,
)

step-OneEach : (e : Event) (h : Handler) → OneEach h → OneEach (step e h)
unfolding step
step-OneEach (mention o read post) h one = authorize_mention-OneEach o read post h one
step-OneEach (wakes n wake) h one =
    Ended-OneEach n (wake_at n wake h) h (wake_at-Ended n wake h) one
step-OneEach (calls c) h one = one

-- Whatever mentions, ends of waits and other calls follow each other: at every time there is
-- exactly one goroutine for each key of a chat and a user that is marked as pending, and none for
-- any other. So there is never a second prompt while one is open, and no end of a wait leaves a
-- pair blocked.
pub run-OneEach : (es : List Event) (h : Handler) → OneEach h → OneEach (run es h)
unfolding run
run-OneEach [] h one = one
run-OneEach (e ∷ es) h one = run-OneEach es (step e h) (step-OneEach e h one)
