-- ===== src/Ringcentral/Monitor/Echo.antt =====
-- The bot does not answer its own posts: the table of sent posts.
use ringclaw.Prelude.{
  ℕ, ◌∙◌, ◌+◌, ◌-◌, ◌≤◌, ◌≡◌, refl, true, some, List, [], ◌∷◌, arith, if◌then◌else◌,
}
use ringclaw.Prelude.Text.{Text, text_eq, text_eq_iff, text_eq_refl}
use ringclaw.Prelude.Assoc.{Assoc, lookup, insert, lookup-insert, lookup-remove}
use ringclaw.Prelude.Time.{Time}
use ringclaw.Ringcentral.Monitor.{
  Monitor, sent_post_ttl, evict_expired, mark_sent_post, is_sent_post,
}

-- Calls on the table, each after some time has passed.
pub data Call : Type 0 where
  mark : ℕ → Text → Call
  look : ℕ → Text → Call

step : Call → Time × Monitor → Time × Monitor
unfolding mark_sent_post is_sent_post
step (mark d id) (now, m) = (now + d, mark_sent_post (now + d) id m)
step (look d id) (now, m) = (now + d, (is_sent_post (now + d) id m).0)

pub run : List Call → Time × Monitor → Time × Monitor
run [] s = s
run (c ∷ cs) s = run cs (step c s)

abbrev pub delay : Call → ℕ
delay (mark d id) = d
delay (look d id) = d

abbrev pub elapsed : List Call → ℕ
elapsed [] = 0
elapsed (c ∷ cs) = delay c + elapsed cs

lookup-evict_expired :
    (now : Time) (id : Text) (t : Time) (sent : Assoc Time)
    → lookup id sent ≡ some t
    → now - t ≤ sent_post_ttl
    → lookup id (evict_expired now sent) ≡ some t
unfolding lookup evict_expired
lookup-evict_expired now id t [] e h = cc
lookup-evict_expired now id t ((k, u) ∷ sent) e h =
    ground (arith, lookup-evict_expired now id t sent)

-- The post was marked no earlier than `since`.
abbrev Marked : Text → Time → Time × Monitor → Type 0
Marked id since s = (t : Time) × (lookup id s.1.sent_posts ≡ some t) × (since ≤ t)

step-Marked :
    (c : Call) (id : Text) (since : Time) (s : Time × Monitor)
    → s.0 + delay c ≤ since + sent_post_ttl
    → Marked id since s
    → since ≤ s.0
    → Marked id since (step c s)
unfolding step
step-Marked (mark d j) id since (now, m) h (t, e, l) k =
    let u : Time = if text_eq j id then now + d else t in
    let fresh : since ≤ u = ground arith in
    let inserted : lookup id (insert j (now + d) m.sent_posts) ≡ some u =
      ground (arith, lookup-insert j id (now + d) m.sent_posts) in
    (
      u,
      ground
          (arith, lookup-evict_expired (now + d) id u (insert j (now + d) m.sent_posts) inserted),
      fresh,
    )
step-Marked (look d j) id since (now, m) h (t, e, l) k =
    (t, ground (arith, lookup-remove j id m.sent_posts, text_eq_iff j id), l)

now-step : (c : Call) (s : Time × Monitor) → (step c s).0 ≡ s.0 + delay c
unfolding step
now-step (mark d id) s = refl
now-step (look d id) s = refl

run-Marked :
    (cs : List Call) (id : Text) (since : Time) (s : Time × Monitor)
    → s.0 + elapsed cs ≤ since + sent_post_ttl
    → Marked id since s
    → since ≤ s.0
    → Marked id since (run cs s) × ((run cs s).0 ≡ s.0 + elapsed cs)
unfolding run
run-Marked [] id since s h k l = (k, omega arith)
run-Marked (c ∷ cs) id since s h k l =
    let later = now-step c s in
    let (k', end) =
      run-Marked cs id since (step c s) (omega (arith, later))
        (step-Marked c id since s (omega arith) k l) (omega (arith, later)) in
    (k', omega (arith, later))

Marked-is_sent_post :
    (now since : Time) (id : Text) (m : Monitor)
    → Marked id since (now, m)
    → now ≤ since + sent_post_ttl
    → (is_sent_post now id m).1 ≡ true
unfolding is_sent_post
Marked-is_sent_post now since id m (t, e, l) h = ground arith

mark-Marked : (now : Time) (id : Text) (m : Monitor) → Marked id now (now, mark_sent_post now id m)
unfolding mark_sent_post
mark-Marked now id m = (
  now,
  ground (
    arith,
    lookup-insert id id now m.sent_posts,
    text_eq_refl id,
    lookup-evict_expired now id now (insert id now m.sent_posts)
        (lookup-insert id id now m.sent_posts ∙ rw (text_eq_refl id) refl),
  ),
  omega arith,
)

-- A post that the bot sent is recognised as its own for five minutes, whatever other posts are
-- marked or looked up in between, and whenever the table is swept.
is_sent_post-mark_sent_post :
    (now : Time) (id : Text) (m : Monitor) (cs : List Call)
    → elapsed cs ≤ sent_post_ttl
    → let (later, m') = run cs (now, mark_sent_post now id m) in (is_sent_post later id m').1 ≡ true
is_sent_post-mark_sent_post now id m cs h =
    let (k, end) =
      run-Marked cs id now (now, mark_sent_post now id m) (omega arith) (mark-Marked now id m)
        (omega arith) in
    Marked-is_sent_post (run cs (now, mark_sent_post now id m)).0 now id _ k (omega (arith, end))
