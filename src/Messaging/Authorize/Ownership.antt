-- ===== src/Messaging/Authorize/Ownership.antt =====
-- A goroutine waits on a challenge that was issued for its own user and chat.
use ringclaw.Prelude.{ℕ, zero, suc, ◌∙◌, ap, sym, ◌≡◌, inl, inr, some, List, [], ◌∷◌, All}
use ringclaw.Prelude.Text.{Text}
use ringclaw.Oob.Challenge
use ringclaw.Oob.Challenge.{Challenge, Manager, Call, Wake}
use ringclaw.Oob.Challenge.Issuing.{run_asked}
use ringclaw.Messaging.{Waiter, Handler}
use ringclaw.Messaging.Authorize.{
  authorize_pending_key, ask, drop_at, wake_at, Event, mention, wakes, calls, step, run,
}
use ringclaw.Messaging.Authorize.Effects.{
  Asked, Change, kept, opened, reverted, ask-Change, authorize_mention_cases,
}
use ringclaw.Messaging.Authorize.Waking.{Ended, still, ended, wake_at-Ended}
use ringclaw.Messaging.Authorize.Trace.{step-Led}

-- Every goroutine's challenge is one for its user and its chat.
abbrev pub OwnEach : Handler → Type 0
OwnEach h = (mgr : Manager) × (h.oob_manager ≡ some mgr) × All (λ w. Asked w mgr) h.waiting

Asked-run :
    (w : Waiter) (cs : List Call) (mgr : Manager) → Asked w mgr → Asked w (Challenge.run cs mgr)
Asked-run w cs mgr (c, at, who, place) =
    let (d, at', who', place') = run_asked cs mgr w.challenge c at in
    (d, at', who' ∙ who, place' ∙ place)

All-run :
    (ws : List Waiter) (cs : List Call) (mgr : Manager)
    → All (λ w. Asked w mgr) ws
    → All (λ w. Asked w (Challenge.run cs mgr)) ws
All-run [] cs mgr all = tt
All-run (w ∷ ws) cs mgr (one, all) = (Asked-run w cs mgr one, All-run ws cs mgr all)

All-drop_at :
    (n : ℕ) (ws : List Waiter) (mgr : Manager)
    → All (λ w. Asked w mgr) ws
    → All (λ w. Asked w mgr) (drop_at n ws)
unfolding drop_at
All-drop_at n [] mgr all = tt
All-drop_at zero (w ∷ ws) mgr (one, all) = all
All-drop_at (suc n) (w ∷ ws) mgr (one, all) = (one, All-drop_at n ws mgr all)

-- The goroutines after a step, if those from before are as they should be.
Change-All :
    (key : Text) (g h : Handler) (mgr : Manager)
    → Change key g h
    → g.oob_manager ≡ some mgr
    → All (λ w. Asked w mgr) h.waiting
    → All (λ w. Asked w mgr) g.waiting
Change-All key g h mgr (kept (a, b)) on all = rw a all
Change-All key g h mgr (opened w free named a b asked) on all = rw a (asked mgr on, all)
Change-All key g h mgr (reverted free a b) on all = rw a all

Ended-All :
    (n : ℕ) (g h : Handler) (mgr : Manager)
    → Ended n g h
    → All (λ w. Asked w mgr) h.waiting
    → All (λ w. Asked w mgr) g.waiting
Ended-All n g h mgr (still same) all = rw same all
Ended-All n g h mgr (ended w at a b) all = rw a (All-drop_at n h.waiting mgr all)

step-All :
    (e : Event) (h : Handler) (mgr : Manager)
    → (step e h).oob_manager ≡ some mgr
    → All (λ w. Asked w mgr) h.waiting
    → All (λ w. Asked w mgr) (step e h).waiting
unfolding step
step-All (mention o read post) h mgr on all = elim (authorize_mention_cases o read post h) [
  | inl same ↦ rw same all
  | inr (mgr', on', asked) ↦
      let key = authorize_pending_key post.group_id post.creator_id in
      rw asked (
        Change-All key (ask o read post key mgr' h) h mgr (ask-Change o read post key mgr' h)
          (ap (λ (g : Handler). g.oob_manager) (sym asked) ∙ on) all)
]
step-All (wakes n wake) h mgr on all =
    Ended-All n (wake_at n wake h) h mgr (wake_at-Ended n wake h) all
step-All (calls c) h mgr on all = all

-- Whatever happens, every goroutine waits on a challenge of the manager that was issued for exactly
-- its user and its chat: the owner who approves it approves that pair.
pub run-OwnEach : (es : List Event) (h : Handler) → OwnEach h → OwnEach (run es h)
unfolding run
run-OwnEach [] h own = own
run-OwnEach (e ∷ es) h (mgr, on, all) =
    let (cs, here, why) = step-Led e h mgr on in
    run-OwnEach es (step e h) (
      Challenge.run cs mgr,
      here,
      step-All e h (Challenge.run cs mgr) here (All-run h.waiting cs mgr all),
    )
