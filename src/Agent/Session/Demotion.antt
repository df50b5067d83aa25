-- ===== src/Agent/Session/Demotion.antt =====
-- What is left after `demoteFullAccessSessions`, when the grant has been revoked or has expired.
use mathlib.Core.List.{Memᴰ}
use mathlib.Core.Path.{subst}
use ringclaw.Prelude.{
  ◌≡◌, ◌∙◌, sym, inl, inr, refl, true, false, Bool-cases, Option, none, some, List, [], ◌∷◌, arith,
  if◌then◌else◌,
}
use ringclaw.Prelude.Text.{Text, text_eq, text_eq_iff, text_eq_refl, is_empty}
use ringclaw.Prelude.Assoc.{Assoc, lookup, lookup-insert, lookup-remove}
use ringclaw.Agent.Session.{
  Agent, set_mode, drop_session, default_mode, demote_loop, demote_full_access_sessions,
}

-- The process has accepted the mode `default` for the session, and no other since.
abbrev pub Demoted : Text → Agent → Type 0
Demoted sid a = lookup sid a.accepted_modes ≡ some default_mode

-- One turn of the loop.
abbrev demoted_by : Option Text → Text → Text → Agent → Agent
demoted_by answer conv sid a = elim answer [
  | none ↦ set_mode sid default_mode none a
  | some err ↦ drop_session conv sid a
]

demoted_by-shrinks :
    (answer : Option Text) (c s conv sid : Text) (a : Agent)
    → lookup conv (demoted_by answer c s a).sessions ≡ some sid
    → lookup conv a.sessions ≡ some sid
unfolding set_mode drop_session
demoted_by-shrinks none c s conv sid a e = e
demoted_by-shrinks (some err) c s conv sid a e = ground (arith, lookup-remove c conv a.sessions)

demoted_by-Demoted :
    (answer : Option Text) (c s sid : Text) (a : Agent)
    → Demoted sid a
    → Demoted sid (demoted_by answer c s a)
unfolding set_mode drop_session
demoted_by-Demoted none c s sid a e =
    ground (arith, lookup-insert s sid default_mode a.accepted_modes)
demoted_by-Demoted (some err) c s sid a e = ground arith

-- The turn for the session itself.
demoted_by-own :
    (answer : Option Text) (conv sid : Text) (a : Agent)
    → lookup conv (demoted_by answer conv sid a).sessions ≡ some sid
    → Demoted sid (demoted_by answer conv sid a)
unfolding set_mode drop_session
demoted_by-own none conv sid a e =
    lookup-insert sid sid default_mode a.accepted_modes ∙ rw (text_eq_refl sid) refl
demoted_by-own (some err) conv sid a e =
    absurd (ground (arith, text_eq_refl conv, text_eq_refl sid, lookup-remove conv conv a.sessions))

demote_loop-shrinks :
    (answer : Text → Option Text) (l : List (Text × Text)) (conv sid : Text) (a : Agent)
    → lookup conv (demote_loop answer l a).sessions ≡ some sid
    → lookup conv a.sessions ≡ some sid
unfolding demote_loop
demote_loop-shrinks answer [] conv sid a e = e
demote_loop-shrinks answer ((c, s) ∷ l) conv sid a e =
    demoted_by-shrinks (answer s) c s conv sid a
      (demote_loop-shrinks answer l conv sid (demoted_by (answer s) c s a) e)

demote_loop-keeps :
    (answer : Text → Option Text) (l : List (Text × Text)) (sid : Text) (a : Agent)
    → Demoted sid a
    → Demoted sid (demote_loop answer l a)
unfolding demote_loop
demote_loop-keeps answer [] sid a e = e
demote_loop-keeps answer ((c, s) ∷ l) sid a e =
    demote_loop-keeps answer l sid (demoted_by (answer s) c s a)
      (demoted_by-Demoted (answer s) c s sid a e)

demote_loop-Demoted :
    (answer : Text → Option Text) (l : List (Text × Text)) (conv sid : Text) (a : Agent)
    → Memᴰ (conv, sid) l
    → lookup conv (demote_loop answer l a).sessions ≡ some sid
    → Demoted sid (demote_loop answer l a)
unfolding demote_loop
demote_loop-Demoted answer [] conv sid a m e = elim m [ ]
demote_loop-Demoted answer ((c, s) ∷ l) conv sid a (Memᴰ.head same) e =
    subst
      (λ x.
        lookup x.0 (demote_loop answer l (demoted_by (answer s) c s a)).sessions ≡ some x.1
        → Demoted x.1 (demote_loop answer l (demoted_by (answer s) c s a)))
      (sym same)
      (λ own. demote_loop-keeps answer l s (demoted_by (answer s) c s a) (
        demoted_by-own (answer s) c s a
          (demote_loop-shrinks answer l c s (demoted_by (answer s) c s a) own)))
      e
demote_loop-Demoted answer ((c, s) ∷ l) conv sid a (Memᴰ.tail m) e =
    demote_loop-Demoted answer l conv sid (demoted_by (answer s) c s a) m e

lookup-Memᴰ : (k v : Text) (m : Assoc Text) → lookup k m ≡ some v → Memᴰ (k, v) m
unfolding lookup
lookup-Memᴰ k v [] e = absurd (cc)
lookup-Memᴰ k v ((j, w) ∷ m) e = elim (Bool-cases (text_eq j k)) [
  | inl here ↦ Memᴰ.head (ground (arith, text_eq_iff j k))
  | inr later ↦ Memᴰ.tail (lookup-Memᴰ k v m (ground arith))
]

is_empty-lookup : (k v : Text) (m : Assoc Text) → lookup k m ≡ some v → is_empty m ≡ false
unfolding lookup
is_empty-lookup k v [] e = absurd (cc)
is_empty-lookup k v (x ∷ m) e = refl

entered :
    (answer : Text → Option Text) (a : Agent)
    → a.started ≡ true
    → a.set_mode_unsupported ≡ false
    → demote_full_access_sessions answer a
      ≡ (if is_empty a.sessions then a else demote_loop answer a.sessions a)
unfolding demote_full_access_sessions
entered answer a running known = ground arith

-- After a grant ends on a running process that knows the calls, every session that a conversation
-- still has was one before, and the process has accepted the mode `default` for it: those that it
-- did not accept it for are dropped, whatever it answers.
pub demote_full_access_sessions-Demoted :
    (answer : Text → Option Text) (conv sid : Text) (a : Agent)
    → a.started ≡ true
    → a.set_mode_unsupported ≡ false
    → lookup conv (demote_full_access_sessions answer a).sessions ≡ some sid
    → (lookup conv a.sessions ≡ some sid) × Demoted sid (demote_full_access_sessions answer a)
demote_full_access_sessions-Demoted answer conv sid a running known =
    let loop = entered answer a running known in
    elim (Bool-cases (is_empty a.sessions)) [
      | inl nothing ↦
          rw (loop, nothing) λ e. absurd (cc (is_empty-lookup conv sid a.sessions e, nothing))
      | inr kept ↦
          rw (loop, kept)
            λ e.
              let before = demote_loop-shrinks answer a.sessions conv sid a e in
              (
                before,
                demote_loop-Demoted answer a.sessions conv sid a
                    (lookup-Memᴰ conv sid a.sessions before) e,
              )
    ]
