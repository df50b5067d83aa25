-- ===== src/Agent/Session/Owner.antt =====
-- The session of an owner: when it gets full access.
use ringclaw.Prelude.{◌≡◌, ◌⊎◌, inl, inr, refl, true, false, ◌&&◌, Bool-cases, none, some, arith}
use ringclaw.Prelude.Text.{Text, text_eq_refl}
use ringclaw.Prelude.Assoc.{lookup, insert, lookup_self, lookup_removed}
use ringclaw.Agent.{Origin}
use ringclaw.Agent.Session.{
  Agent, Answers, fresh, set_mode, drop_session, register, grant_session, create_session,
  get_or_create_session, full_access_mode, default_mode,
}

different : ¬ (some default_mode ≡ some full_access_mode)
different e = cc e

-- What `grant_session` leaves of a registered session that had no mode.
grant_session-outcome :
    (conv sid : Text) (r : Answers) (a : Agent)
    → lookup conv a.sessions ≡ some sid
    → lookup sid a.accepted_modes ≡ none
    → lookup sid (grant_session conv sid r a).accepted_modes ≡ some full_access_mode
    → (a.full_access ≡ true)
      ⊎ ((r.granted ≡ true) × (r.granted_again ≡ true) × (r.granted_after ≡ true))
      ⊎ (lookup conv (grant_session conv sid r a).sessions ≡ none)
unfolding grant_session set_mode drop_session
grant_session-outcome conv sid r a here unset full = elim (Bool-cases a.full_access) [
  | inl static ↦ inl static
  | inr dynamic ↦ elim (Bool-cases (r.granted && r.granted_again && r.granted_after)) [
    | inl kept ↦ inr (inl (ground arith, ground arith, ground arith))
    | inr lost ↦ inr (
        inr (
          ground (
            arith,
            lookup_self sid full_access_mode a.accepted_modes,
            lookup_self sid default_mode (insert sid full_access_mode a.accepted_modes),
            text_eq_refl sid,
            lookup_removed conv a.sessions,
            different,
          )))
  ]
]

grant_session-given :
    (conv sid : Text) (r : Answers) (a : Agent)
    → (a.full_access ≡ true)
      ⊎ ((r.granted ≡ true) × (r.granted_again ≡ true) × (r.granted_after ≡ true))
    → a.set_mode_unsupported ≡ false
    → r.full_err ≡ none
    → lookup sid (grant_session conv sid r a).accepted_modes ≡ some full_access_mode
unfolding grant_session set_mode
grant_session-given conv sid r a (inl static) known accepted =
    ground (arith, lookup_self sid full_access_mode a.accepted_modes)
grant_session-given conv sid r a (inr (first, again, after)) known accepted =
    ground (arith, lookup_self sid full_access_mode a.accepted_modes)

module _ (conv : Text) (origin : Origin) (r : Answers) (a : Agent) (sid : Text)
    (owner : origin.is_owner ≡ true) (new_conversation : lookup conv a.sessions ≡ none)
    (answered : r.session_id ≡ some sid) where
  registered : Agent
  registered = register conv sid origin r.modes a

  made : get_or_create_session conv origin r a ≡ (grant_session conv sid r registered, fresh sid)
  unfolding get_or_create_session create_session registered
  made = ground arith

-- The first prompt of a conversation from an owner gives a session. If the process has accepted
-- `full-access` for it, then the agent is configured so, or the grant was in force at each of the
-- three looks, the last one after the process had answered; or the conversation has lost the session
-- again. And in the first two cases it does accept it, unless it does not know the call or refuses.
pub get_or_create_session-owner :
    (conv : Text) (origin : Origin) (r : Answers) (a : Agent) (sid : Text)
    → origin.is_owner ≡ true
    → lookup conv a.sessions ≡ none
    → r.session_id ≡ some sid
    → lookup sid a.accepted_modes ≡ none
    → let (a', created) = get_or_create_session conv origin r a in
      (created ≡ fresh sid)
      × (lookup sid a'.accepted_modes ≡ some full_access_mode
          → (a.full_access ≡ true)
            ⊎ ((r.granted ≡ true) × (r.granted_again ≡ true) × (r.granted_after ≡ true))
            ⊎ (lookup conv a'.sessions ≡ none))
      × ((a.full_access ≡ true)
            ⊎ ((r.granted ≡ true) × (r.granted_again ≡ true) × (r.granted_after ≡ true))
          → a.set_mode_unsupported ≡ false
          → r.full_err ≡ none
          → lookup sid a'.accepted_modes ≡ some full_access_mode)
unfolding registered register
get_or_create_session-owner conv origin r a sid owner new answered unset =
    let b = registered conv origin r a sid owner new answered in
    rw (made conv origin r a sid owner new answered) (
      refl,
      λ full. grant_session-outcome conv sid r b (lookup_self conv sid a.sessions) unset full,
      λ allowed known accepted. grant_session-given conv sid r b allowed known accepted,
    )
