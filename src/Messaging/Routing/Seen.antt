-- ===== src/Messaging/Routing/Seen.antt =====
-- A post is handled once: `seenMsgs` under any order of messages, of clean-ups and of time.
use ringclaw.Prelude.{
  ℕ, ◌+◌, ◌*◌, ◌≤◌, Bool, true, false, some, List, [], ◌∷◌, keep, ◌≡◌, ◌≢◌, arith,
}
use ringclaw.Prelude.Text.{Text, text_eq_iff, is_empty_iff}
use ringclaw.Prelude.Assoc.{Assoc, lookup, lookup-insert, lookup_self}
use ringclaw.Prelude.Time.{Time, minute}
use ringclaw.Messaging.Router.{
  Router, Incoming, mark_seen, recent, clean_seen_msgs, Route, skipped_empty, duplicate,
}
use ringclaw.Messaging.Routing.{handle_message, Step, handles, cleans, pass, run_cleaner, step, run}

-- How much time passes.
abbrev pub elapsed : List Step → ℕ
elapsed [] = 0
elapsed (pass d ∷ steps) = d + elapsed steps
elapsed (_ ∷ steps) = elapsed steps

lookup-keep :
    (id : Text) (now t : Time) (seen : Assoc Time)
    → lookup id seen ≡ some t
    → now ≤ t + 5 * minute
    → lookup id (keep (recent now) seen) ≡ some t
unfolding lookup
lookup-keep id now t [] e le = e
lookup-keep id now t ((j, u) ∷ seen) e le = ground (arith, lookup-keep id now t seen)

-- The post is on record since `t`.
abbrev Since : Text → Time → Router → Type 0
Since id t r = lookup id r.seen_msgs ≡ some t

mark_seen-Since :
    (id j : Text) (t : Time) (r : Router) → Since id t r → Since id t (mark_seen j r).0
unfolding mark_seen
mark_seen-Since id j t r e = ground (arith, lookup-insert j id r.now r.seen_msgs, text_eq_iff j id)

handle-Since :
    (m : Incoming) (id : Text) (t : Time) (r : Router)
    → Since id t r
    → Since id t (handle_message m r).0
unfolding handle_message
handle-Since m id t r e = ground (arith, mark_seen-Since id m.post.id t r e)

clean-Since :
    (id : Text) (t : Time) (r : Router)
    → Since id t r
    → r.now ≤ t + 5 * minute
    → Since id t (run_cleaner r)
unfolding run_cleaner clean_seen_msgs
clean-Since id t r e le = ground (arith, lookup-keep id r.now t r.seen_msgs e le)

now-handle : (m : Incoming) (r : Router) → (handle_message m r).0.now ≡ r.now
unfolding handle_message mark_seen
now-handle m r = ground arith

now-clean : (r : Router) → (run_cleaner r).now ≡ r.now
unfolding run_cleaner clean_seen_msgs
now-clean r = ground arith

run-Since :
    (steps : List Step) (id : Text) (t : Time) (r : Router)
    → Since id t r
    → r.now + elapsed steps ≤ t + 5 * minute
    → Since id t (run steps r)
unfolding run step
run-Since [] id t r e le = e
run-Since (handles m ∷ steps) id t r e le =
    run-Since steps id t _ (handle-Since m id t r e) (rw (now-handle m r) le)
run-Since (cleans ∷ steps) id t r e le =
    run-Since steps id t _ (clean-Since id t r e (omega arith)) (rw (now-clean r) le)
run-Since (pass d ∷ steps) id t r e le = run-Since steps id t _ e (omega arith)

-- Nothing is done for the message.
abbrev pub is_repeat : Route → Bool
is_repeat skipped_empty = true
is_repeat duplicate = true
is_repeat _ = false

repeat_of_Since :
    (m : Incoming) (t : Time) (r : Router)
    → m.post.id ≢ []
    → Since m.post.id t r
    → is_repeat (handle_message m r).1 ≡ true
unfolding handle_message mark_seen
repeat_of_Since m t r ne e = ground (arith, is_empty_iff m.post.id)

handle-marks :
    (m : Incoming) (r : Router)
    → m.post.id ≢ []
    → is_repeat (handle_message m r).1 ≡ false
    → Since m.post.id r.now (handle_message m r).0
unfolding handle_message mark_seen
handle-marks m r ne e =
    ground (arith, is_empty_iff m.post.id, lookup_self m.post.id r.now r.seen_msgs)

-- A post with an identifier that was handled is not handled again for five minutes, whatever
-- messages, clean-ups of the record and times of waiting lie between.
pub run-handled_once :
    (m again : Incoming) (steps : List Step) (r : Router)
    → m.post.id ≢ []
    → again.post.id ≡ m.post.id
    → is_repeat (handle_message m r).1 ≡ false
    → elapsed steps ≤ 5 * minute
    → is_repeat (handle_message again (run steps (handle_message m r).0)).1 ≡ true
run-handled_once m again steps r ne same e le =
    repeat_of_Since again r.now (run steps (handle_message m r).0) (rw same ne) (
      rw same (
        run-Since steps m.post.id r.now _ (handle-marks m r ne e)
          (rw (now-handle m r) (omega arith))))
