-- ===== src/Agent/Session/Access.antt =====
-- Which mode a new session runs in.
use ringclaw.Prelude.{
  ◌≡◌, ◌≢◌, ◌⊎◌, inl, inr, refl, Bool, true, false, Bool-cases, Option, none, some, List, [], arith,
  if◌then◌else◌,
}
use ringclaw.Prelude.Text.{Text, text_eq_refl}
use ringclaw.Prelude.Assoc.{lookup, lookup-insert, lookup_self, lookup_removed}
use ringclaw.Agent.{Origin, SessionMode}
use ringclaw.Agent.RestrictedModes.{has_mode}
use ringclaw.Agent.RestrictedModes.Choice.{Restricts, resolve-advertised}
use ringclaw.Agent.Session.{
  Agent, Answers, existing, fresh, refused, agent_cmd_line, set_mode, restricted_choice,
  apply_restricted_mode, drop_session, register, forget, create_session, get_or_create_session,
}
use ringclaw.Agent.Session.Gate.{OwnerDriven}

-- What the process has advertised for a session.
abbrev pub advertised : Text → Agent → List SessionMode
advertised sid a = elim (lookup sid a.session_modes) [ none ↦ [] | some l ↦ l ]

-- Applying the restricted mode leaves sessions, roles and advertised modes; if it reports success,
-- the process has accepted the chosen mode.
apply_restricted_mode-outcome :
    (sid : Text) (err : Option Text) (a : Agent)
    → let (a', applied) = apply_restricted_mode sid err a in
      (a'.sessions ≡ a.sessions)
      × (a'.session_roles ≡ a.session_roles)
      × (a'.session_modes ≡ a.session_modes)
      × (applied ≡ true
          → (restricted_choice sid a ≢ [])
            × (lookup sid a'.accepted_modes ≡ some (restricted_choice sid a)))
      × (applied ≡ false → a'.accepted_modes ≡ a.accepted_modes)
unfolding apply_restricted_mode set_mode
apply_restricted_mode-outcome sid err a = (
  ground arith,
  ground arith,
  ground arith,
  λ h. (
    λ e. ground (arith, e),
    ground
        (arith, lookup-insert sid sid (restricted_choice sid a) a.accepted_modes, text_eq_refl sid),
  ),
  λ h. ground arith,
)

restricted_choice-Restricts :
    (sid : Text) (a : Agent)
    → restricted_choice sid a ≢ []
    → (has_mode (advertised sid a) (restricted_choice sid a) ≡ true)
      × Restricts
          (agent_cmd_line a)
          (advertised sid a)
          a.restricted_mode_id
          (restricted_choice sid a)
unfolding restricted_choice
restricted_choice-Restricts sid a =
    resolve-advertised (agent_cmd_line a) (advertised sid a) a.restricted_mode_id

drop_session-roles :
    (conv sid : Text) (a : Agent)
    → ((drop_session conv sid a).session_roles ≡ a.session_roles)
      × ((drop_session conv sid a).accepted_modes ≡ a.accepted_modes)
unfolding drop_session
drop_session-roles conv sid a = ground arith

drop_session-gone :
    (conv sid : Text) (a : Agent)
    → lookup conv a.sessions ≡ some sid
    → lookup conv (drop_session conv sid a).sessions ≡ none
unfolding drop_session
drop_session-gone conv sid a e = ground (arith, text_eq_refl sid, lookup_removed conv a.sessions)

-- The process has accepted, for the session in `c`, a mode that restricts it: one that is
-- advertised, chosen by the override, a built-in pattern or a read-only word.
abbrev pub RunsRestricted : Text → Agent → Agent → Type 0
RunsRestricted sid a c =
    (mode : Text) × (mode ≢ [])
    × (lookup sid c.accepted_modes ≡ some mode)
    × (has_mode (advertised sid c) mode ≡ true)
    × Restricts (agent_cmd_line a) (advertised sid c) a.restricted_mode_id mode

advertised_same :
    (sid : Text) (a c : Agent)
    → c.session_modes ≡ a.session_modes
    → advertised sid c ≡ advertised sid a
advertised_same sid a c e = rw (e) refl

apply_restricted_mode-RunsRestricted :
    (sid : Text) (err : Option Text) (a : Agent)
    → (apply_restricted_mode sid err a).1 ≡ true
    → RunsRestricted sid a (apply_restricted_mode sid err a).0
apply_restricted_mode-RunsRestricted sid err a done =
    let (s, ro, mo, applied, not_applied) = apply_restricted_mode-outcome sid err a in
    let (named, accepted) = applied done in
    let (adv, why) = restricted_choice-Restricts sid a named in
    let same = advertised_same sid a (apply_restricted_mode sid err a).0 mo in
    (restricted_choice sid a, named, accepted, rw (same) adv, rw (same) why)

forget-gone :
    (conv sid : Text) (a : Agent)
    → lookup conv a.sessions ≡ some sid
    → (lookup conv (forget conv sid a).sessions ≡ none)
      × (lookup sid (forget conv sid a).session_roles ≡ none)
unfolding forget
forget-gone conv sid a e =
    (drop_session-gone conv sid a e, lookup_removed sid (drop_session conv sid a).session_roles)

module _ (conv : Text) (origin : Origin) (r : Answers) (a : Agent) (sid : Text)
    (new_conversation : lookup conv a.sessions ≡ none) (answered : r.session_id ≡ some sid) where
  registered : Agent
  registered = register conv sid origin r.modes a

  registered_facts :
      (lookup conv registered.sessions ≡ some sid)
      × (lookup sid registered.session_roles ≡ some origin)
      × (registered.accepted_modes ≡ a.accepted_modes)
  unfolding registered register
  registered_facts = (lookup_self conv sid a.sessions, lookup_self sid origin a.session_roles, refl)

  module _ (outsider : origin.is_owner ≡ false) where
    abbrev applying : Agent × Bool
    applying = apply_restricted_mode sid r.restricted_err registered

    created :
        get_or_create_session conv origin r a
        ≡ (if applying.1 then (applying.0, fresh sid) else (forget conv sid applying.0, refused))
    unfolding get_or_create_session create_session registered
    created = ground arith

    not-OwnerDriven : (b : Agent) → lookup sid b.session_roles ≡ some origin → ¬ OwnerDriven sid b
    not-OwnerDriven b e (o, f, own) = ground arith

-- The first prompt of a conversation from a sender who is not the owner, on every branch. Either the
-- process has accepted for the new session a restricted mode, one that it advertised, chosen by the
-- override, a built-in pattern or a read-only word; or the message is refused and the conversation
-- has no session. In both cases no owner drives the session, so that its tool calls are denied.
pub non_owner_session_restricted :
    (conv : Text) (origin : Origin) (r : Answers) (a : Agent) (sid : Text)
    → origin.is_owner ≡ false
    → lookup conv a.sessions ≡ none
    → r.session_id ≡ some sid
    → let (a', created) = get_or_create_session conv origin r a in
      ¬ OwnerDriven sid a'
      × (((created ≡ fresh sid) × (lookup conv a'.sessions ≡ some sid) × RunsRestricted sid a a')
          ⊎ ((created ≡ refused) × (lookup conv a'.sessions ≡ none)))
unfolding registered register agent_cmd_line
non_owner_session_restricted conv origin r a sid outsider none_yet answered =
    let b = registered conv origin r a sid none_yet answered in
    let (named, role, same) = registered_facts conv origin r a sid none_yet answered in
    let (s, ro, mo, applied, not_applied) = apply_restricted_mode-outcome sid r.restricted_err b in
    let made = created conv origin r a sid none_yet answered outsider in
    let c = (apply_restricted_mode sid r.restricted_err b).0 in
    elim (Bool-cases (apply_restricted_mode sid r.restricted_err b).1) [
      | inl done ↦
          rw (made, done)
            (
              not-OwnerDriven conv origin r a sid none_yet answered outsider c (cc (ro, role)),
              inl (
                refl,
                cc (s, named),
                apply_restricted_mode-RunsRestricted sid r.restricted_err b done,
              ),
            )
      | inr undone ↦
          rw (made, undone)
            (
              λ (o, f, own). cc ((forget-gone conv sid c (cc (s, named))).1, f),
              inr (refl, (forget-gone conv sid c (cc (s, named))).0),
            )
    ]

-- A conversation that has a session keeps it, whoever writes.
pub get_or_create_session_existing :
    (conv : Text) (origin : Origin) (r : Answers) (a : Agent) (sid : Text)
    → lookup conv a.sessions ≡ some sid
    → get_or_create_session conv origin r a ≡ (a, existing sid)
unfolding get_or_create_session
get_or_create_session_existing conv origin r a sid e = ground arith
