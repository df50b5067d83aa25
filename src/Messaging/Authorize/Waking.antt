-- ===== src/Messaging/Authorize/Waking.antt =====
-- What the end of a wait does to the goroutines and the reservations.
use ringclaw.Prelude.{
  ℕ, ap, ◌≡◌, ◌⊎◌, inl, inr, refl, Bool, true, false, Option-cases, Option, none, some, arith,
  get_elem?,
}
use ringclaw.Prelude.Text.{Text}
use ringclaw.Prelude.Assoc.{remove}
use ringclaw.Prelude.Time.{Time}
use ringclaw.Oob.Challenge.{Manager, Error, challenge_expired, Wake, wait}
use ringclaw.Messaging.{AuthorizeMeta, Waiter, Notice, Handler}
use ringclaw.Messaging.Authorize.{
  await_authorize_mention, settle, finish, tell, commit, apply_authorize, record_authorize_cooldown,
  clear_authorize_cooldown, release_pending, drop_authorize_meta, drop_at, wake_at,
}
use ringclaw.Messaging.Senders.{add_chat_user_allow}
use ringclaw.Messaging.Authorize.Effects.{SameWaits}

tell_same : (n : Notice) (h : Handler) → SameWaits (tell n h) h
unfolding tell
tell_same n h = ground arith

commit_same : (c u : Text) (meta : AuthorizeMeta) (h : Handler) → SameWaits (commit c u meta h) h
unfolding commit add_chat_user_allow
commit_same c u meta h = (refl, refl)

settle_same :
    (w : Waiter) (now : Time) (approved : Bool) (err : Option Error) (h : Handler)
    → SameWaits (settle w now approved err h) h
unfolding settle apply_authorize commit add_chat_user_allow tell record_authorize_cooldown
    clear_authorize_cooldown
settle_same w now approved (some challenge_expired) h = ground arith
settle_same w now approved (some _) h = (refl, refl)
settle_same w now false none h = ground arith
settle_same w now true none h = ground arith

-- The end of a goroutine: nothing, or its place and the key's reservation are gone.
pub data Ended (n : ℕ) (g h : Handler) : Type 0 where
  still : g ≡ h → Ended n g h
  ended :
      (w : Waiter)
      → get_elem? h.waiting n ≡ some w
      → g.waiting ≡ drop_at n h.waiting
      → g.pending_authorize ≡ remove w.key h.pending_authorize
      → Ended n g h

finished :
    (n : ℕ) (w : Waiter) (g h : Handler)
    → get_elem? h.waiting n ≡ some w
    → SameWaits g h
    → Ended n (record (finish w g) { waiting = drop_at n (finish w g).waiting }) h
unfolding finish release_pending drop_authorize_meta
finished n w g h at (a, b) = ended w at (ap (drop_at n) a) (ap (remove w.key) b)

-- A step of a goroutine: nothing, or the end of its wait with the manager's answer, or without a
-- manager.
pub wake_at_cases :
    (n : ℕ) (wake : Wake) (h : Handler)
    → (wake_at n wake h ≡ h)
      ⊎ ((w : Waiter) × (get_elem? h.waiting n ≡ some w)
          × (wake_at n wake h ≡ (let g = finish w h in record g { waiting = drop_at n g.waiting })))
      ⊎ ((w : Waiter) × (mgr : Manager) × (mgr' : Manager) × (approved : Bool) × (err : Option
            Error)
          × (get_elem? h.waiting n ≡ some w)
          × (h.oob_manager ≡ some mgr)
          × (wait w.challenge wake mgr ≡ some (mgr', approved, err))
          × (wake_at n wake h ≡ (
              let g =
                finish w (settle w mgr'.now approved err (record h { oob_manager = some mgr' })) in
              record g { waiting = drop_at n g.waiting })))
unfolding wake_at await_authorize_mention
wake_at_cases n wake h = elim (Option-cases (get_elem? h.waiting n)) [
  | inl gone ↦ inl (ground arith)
  | inr (w, at) ↦ elim (Option-cases h.oob_manager) [
    | inl off ↦ inr (inl (w, at, ground arith))
    | inr (mgr, on) ↦ elim (Option-cases (wait w.challenge wake mgr)) [
      | inl early ↦ inl (ground arith)
      | inr ((mgr', approved, err), over) ↦
          inr (inr (w, mgr, mgr', approved, err, at, on, over, ground arith))
    ]
  ]
]

pub wake_at-Ended : (n : ℕ) (wake : Wake) (h : Handler) → Ended n (wake_at n wake h) h
wake_at-Ended n wake h = elim (wake_at_cases n wake h) [
  | inl same ↦ still same
  | inr (inl (w, at, e)) ↦ rw e (finished n w h h at (refl, refl))
  | inr (inr (w, mgr, mgr', approved, err, at, on, over, e)) ↦ rw e (
      finished n w (settle w mgr'.now approved err (record h { oob_manager = some mgr' })) h at
        (settle_same w mgr'.now approved err (record h { oob_manager = some mgr' })))
]
