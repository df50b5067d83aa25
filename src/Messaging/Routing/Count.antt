-- ===== src/Messaging/Routing/Count.antt =====
-- The count beside `seenMsgs`.
use ringclaw.Prelude.{suc, ◌≤◌, Bool, none, List, [], ◌∷◌, length, keep, ◌≡◌, refl, arith}
use ringclaw.Prelude.Text.{Text}
use ringclaw.Prelude.Assoc.{Assoc, lookup, insert}
use ringclaw.Messaging.Router.{Router, Incoming, mark_seen, recent, clean_seen_msgs}
use ringclaw.Messaging.Routing.{handle_message}
use ringclaw.Messaging.Routing.{Step, handles, cleans, pass, run_cleaner, step, run}

-- `seenMsgCount` is the number of posts on record.
abbrev pub Counted : Router → Type 0
Counted r = r.seen_msg_count ≡ length r.seen_msgs

length-keep {ℓ} : {A : Type ℓ} (p : A → Bool) (xs : List A) → length (keep p xs) ≤ length xs
length-keep p [] = omega arith
length-keep p (x ∷ xs) = ground (arith, length-keep p xs)

length-insert {ℓ} :
    {V : Type ℓ} (k : Text) (v : V) (m : Assoc V)
    → lookup k m ≡ none
    → length (insert k v m) ≡ suc (length m)
unfolding lookup insert
length-insert k v [] e = refl
length-insert k v ((j, w) ∷ m) e = ground (arith, length-insert k v m)

mark_seen-Counted : (id : Text) (r : Router) → Counted r → Counted (mark_seen id r).0
unfolding mark_seen
mark_seen-Counted id r c = ground (arith, length-insert id r.now r.seen_msgs)

handle_message-Counted : (m : Incoming) (r : Router) → Counted r → Counted (handle_message m r).0
unfolding handle_message
handle_message-Counted m r c = ground (arith, mark_seen-Counted m.post.id r c)

run_cleaner-Counted : (r : Router) → Counted r → Counted (run_cleaner r)
unfolding run_cleaner clean_seen_msgs
run_cleaner-Counted r c = ground (arith, length-keep (recent r.now) r.seen_msgs)

-- The count that starts the clean-ups stays the number of posts on record, through any sequence of
-- messages, of clean-ups run one at a time and of waiting.
pub run-Counted : (steps : List Step) (r : Router) → Counted r → Counted (run steps r)
unfolding run step
run-Counted [] r c = c
run-Counted (handles m ∷ steps) r c = run-Counted steps _ (handle_message-Counted m r c)
run-Counted (cleans ∷ steps) r c = run-Counted steps _ (run_cleaner-Counted r c)
run-Counted (pass d ∷ steps) r c = run-Counted steps _ c
