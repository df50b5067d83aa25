-- ===== src/Agent/Session/Tests.antt =====
-- Sessions, run.
use ringclaw.Prelude.{
  ◌≡◌, ◌⊎◌, ◌↔◌, refl, true, false, Option, none, some, List, [], ◌∷◌, if◌then◌else◌,
}
use ringclaw.Prelude.Text.{Text, codes, text_eq}
use ringclaw.Prelude.Assoc.{lookup, insert, remove}
use ringclaw.Agent.{Origin, SessionMode}
use ringclaw.Agent.Session.{
  Agent, Answers, Response, error_denied, PermissionOption, fresh, refused,
  gate_non_owner_tool_call, handle_permission_request, get_or_create_session,
  demote_full_access_sessions, demote_loop, set_mode, drop_session, create_session, register,
  grant_session, full_access_mode,
}
use ringclaw.Agent.Session.Gate.{
  OwnerDriven, Refuses, gate-exact, handle_permission_request-Refuses,
}
use ringclaw.Agent.Session.Access.{RunsRestricted, non_owner_session_restricted}
use ringclaw.Agent.Session.Owner.{get_or_create_session-owner}
use ringclaw.Agent.Session.Demotion.{Demoted, demote_full_access_sessions-Demoted}

abbrev guest : Origin
guest = record { is_owner = false; sender_id = codes "7"; reason = codes "chat_user_allow" }

abbrev claude : Agent
claude = record {
  command = codes "claude-agent-acp";
  args = [];
  restricted_mode_id = [];
  full_access = false;
  started = true;
  sessions = (codes "c1", codes "s1") ∷ (codes "c2", codes "s2") ∷ [];
  session_roles = (codes "s1", guest) ∷ [];
  session_modes = [];
  set_mode_unsupported = false;
  restricted_set_mode_unsupported = [];
  denied_tool_warned = [];
  accepted_modes = [];
  responses = [];
}

abbrev plan_mode : SessionMode
plan_mode = record { id = codes "plan"; name = codes "Plan" }

abbrev answers : Answers
answers = record {
  session_id = some (codes "s3");
  modes = some (plan_mode ∷ []);
  restricted_err = none;
  granted = false;
  granted_again = false;
  full_err = none;
  granted_after = false;
  demote_err = none;
}

abbrev asked : List PermissionOption
asked = record { option_id = codes "ok"; kind = codes "allow" } ∷ []

gate-exact_example :
    let (a', denied) = gate_non_owner_tool_call (codes "fs/write_text_file") (codes "s1") claude in
    ((denied ≡ false) ↔ OwnerDriven (codes "s1") claude)
    × (denied ≡ false → a' ≡ claude)
    × (denied ≡ true
        → (a'.responses ≡ error_denied (codes "s1") ∷ [])
          × (a'.session_roles ≡ claude.session_roles)
          × (a'.sessions ≡ claude.sessions)
          × (a'.accepted_modes ≡ []))
gate-exact_example = gate-exact (codes "fs/write_text_file") (codes "s1") claude

not_owner : ¬ OwnerDriven (codes "s1") claude
unfolding lookup text_eq
not_owner (o, e, own) = cc (e, own)

handle_permission_request-Refuses_example :
    (r : Response) × ((handle_permission_request (codes "s1") asked claude).responses ≡ r ∷ [])
    × Refuses (codes "s1") asked r
handle_permission_request-Refuses_example =
    handle_permission_request-Refuses (codes "s1") asked claude not_owner

non_owner_session_restricted_example :
    let (a', created) = get_or_create_session (codes "c3") guest answers claude in
    ¬ OwnerDriven (codes "s3") a'
    × (((created ≡ fresh (codes "s3"))
          × (lookup (codes "c3") a'.sessions ≡ some (codes "s3"))
          × RunsRestricted (codes "s3") claude a')
        ⊎ ((created ≡ refused) × (lookup (codes "c3") a'.sessions ≡ none)))
non_owner_session_restricted_example =
    non_owner_session_restricted (codes "c3") guest answers claude (codes "s3") refl
      (unfold lookup text_eq in refl) refl

-- The process accepts the demotion of the first session only.
abbrev only_first : Text → Option Text
only_first sid = if text_eq sid (codes "s1") then none else some (codes "busy")

demote_full_access_sessions-Demoted_example :
    (lookup (codes "c1") claude.sessions ≡ some (codes "s1"))
    × Demoted (codes "s1") (demote_full_access_sessions only_first claude)
demote_full_access_sessions-Demoted_example =
    demote_full_access_sessions-Demoted only_first (codes "c1") (codes "s1") claude refl refl (
      unfold demote_full_access_sessions demote_loop set_mode drop_session lookup remove insert
        text_eq in
      refl)

drops_second : lookup (codes "c2") (demote_full_access_sessions only_first claude).sessions ≡ none
unfolding demote_full_access_sessions demote_loop set_mode drop_session lookup remove insert text_eq
drops_second = refl

abbrev owner : Origin
owner = record { is_owner = true; sender_id = codes "1"; reason = codes "dm_to_bot" }

-- The grant is revoked while the process answers, and the process does not take the mode back.
abbrev revoked_meanwhile : Answers
revoked_meanwhile = record answers {
  granted = true;
  granted_again = true;
  demote_err = some (codes "timeout");
}

get_or_create_session-owner_example :
    let (a', created) = get_or_create_session (codes "c3") owner revoked_meanwhile claude in
    (created ≡ fresh (codes "s3"))
    × (lookup (codes "s3") a'.accepted_modes ≡ some full_access_mode
        → (claude.full_access ≡ true)
          ⊎ ((true ≡ true) × (true ≡ true) × (revoked_meanwhile.granted_after ≡ true))
          ⊎ (lookup (codes "c3") a'.sessions ≡ none))
    × ((claude.full_access ≡ true)
          ⊎ ((true ≡ true) × (true ≡ true) × (revoked_meanwhile.granted_after ≡ true))
        → claude.set_mode_unsupported ≡ false
        → revoked_meanwhile.full_err ≡ none
        → lookup (codes "s3") a'.accepted_modes ≡ some full_access_mode)
get_or_create_session-owner_example =
    get_or_create_session-owner (codes "c3") owner revoked_meanwhile claude (codes "s3") refl
      (unfold lookup text_eq in refl) refl (unfold lookup in refl)

drops_revoked :
    lookup
      (codes "c3")
      (get_or_create_session (codes "c3") owner revoked_meanwhile claude).0.sessions
    ≡ none
unfolding get_or_create_session create_session register grant_session drop_session set_mode lookup
    insert remove text_eq
drops_revoked = refl
