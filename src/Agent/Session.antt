-- ===== src/Agent/Session.antt =====
-- Sessions of an ACP agent: `getOrCreateSession`, `applyRestrictedMode`, `ResetSession`,
-- `demoteFullAccessSessions` of agent/acp_agent.go, the gate of agent/acp_gate.go, and
-- `handlePermissionRequest` of agent/acp_rpc.go. What the agent process answers to a call is an
-- argument; the modes that it has accepted are kept in the state. A call runs to its end before the
-- next one.
pub mod Gate
pub mod Access
pub mod Demotion
pub mod Owner
mod Tests
use ringclaw.Prelude.{
  Bool, true, false, not, ◌&&◌, ◌||◌, Option, none, some, List, [], ◌∷◌, ◌++◌, if◌then◌else◌,
  is_some,
}
use ringclaw.Prelude.Text.{Text, codes, text_eq, contains, to_lower, is_empty}
use ringclaw.Prelude.Assoc.{Assoc, lookup, insert, remove, flag}
use ringclaw.Agent.{Origin, SessionMode}
use ringclaw.Agent.RestrictedModes.{resolve_restricted_mode_id}

-- What is sent back to the agent process for one of its requests.
pub data Response : Type 0 where
  error_denied : Text → Response  -- code -32001, for this session
  selected : Text → Text → Response  -- the session and the option
  cancelled : Text → Response

pub record Agent : Type 0 where
  pub command : Text
  pub args : List Text
  pub restricted_mode_id : Text
  pub full_access : Bool
  pub started : Bool
  pub sessions : Assoc Text  -- from a conversation to its session
  pub session_roles : Assoc Origin
  pub session_modes : Assoc (List SessionMode)
  pub set_mode_unsupported : Bool
  pub restricted_set_mode_unsupported : Assoc Bool
  pub denied_tool_warned : Assoc Bool
  pub accepted_modes : Assoc Text  -- the last mode that the process accepted for a session
  pub responses : List Response  -- the latest first

-- `strings.Join(parts, " ")`
join : List Text → Text
join [] = []
join (p ∷ []) = p
join (p ∷ q ∷ ps) = p ++ codes " " ++ join (q ∷ ps)

pub agent_cmd_line : Agent → Text
unfolding join
agent_cmd_line a = to_lower (join (a.command ∷ a.args))

-- An error's text, or `none` for success.
pub is_set_mode_unsupported_err : Option Text → Bool
is_set_mode_unsupported_err none = false
is_set_mode_unsupported_err (some err) =
    contains (to_lower err) (codes "invalid mode")
    || contains (to_lower err) (codes "unknown mode")
    || contains (to_lower err) (codes "method not found")
    || contains (to_lower err) (codes "unsupported mode")

-- `session/set_mode`, and the process's answer.
pub set_mode : Text → Text → Option Text → Agent → Agent
set_mode sid mode none a = record a { accepted_modes = insert sid mode a.accepted_modes }
set_mode sid mode (some err) a = a

-- The answers of the process and of the grant source while one session is set up.
pub record Answers : Type 0 where
  pub session_id : Option Text  -- `session/new`; `none` is an error or a result that does not parse
  pub modes : Option (List SessionMode)
  pub restricted_err : Option Text
  pub granted : Bool
  pub granted_again : Bool
  pub full_err : Option Text
  pub granted_after : Bool
  pub demote_err : Option Text

pub restricted_choice : Text → Agent → Text
restricted_choice sid a =
    let available : List SessionMode = elim (lookup sid a.session_modes) [
      | none ↦ []
      | some l ↦ l
    ] in
    (resolve_restricted_mode_id (agent_cmd_line a) available a.restricted_mode_id).0

-- Whether the mode was applied.
pub apply_restricted_mode : Text → Option Text → Agent → Agent × Bool
apply_restricted_mode sid err a =
    let mode = restricted_choice sid a in
    let key = agent_cmd_line a ++ codes "|" ++ mode in
    if is_empty mode
    then (a, false)
    else if flag key a.restricted_set_mode_unsupported
    then (a, false)
    else elim err [
      | none ↦ (set_mode sid mode none a, true)
      | some e ↦
          if is_set_mode_unsupported_err (some e)
          then (
            record a {
              restricted_set_mode_unsupported = insert key true a.restricted_set_mode_unsupported;
            },
            false,
          )
          else (a, false)
    ]

-- `if cur, ok := a.sessions[conv]; ok && cur == sid { delete }`
drop_session : Text → Text → Agent → Agent
drop_session conv sid a = elim (lookup conv a.sessions) [
  | none ↦ a
  | some cur ↦ if text_eq cur sid then record a { sessions = remove conv a.sessions } else a
]

pub data Created : Type 0 where
  existing : Text → Created
  fresh : Text → Created
  failed : Created
  refused : Created  -- `errRestrictedModeUnsupported`

-- The role and the modes, and then the conversation.
register : Text → Text → Origin → Option (List SessionMode) → Agent → Agent
register conv sid origin modes a = record a {
  session_roles = insert sid origin a.session_roles;
  session_modes = elim modes [ none ↦ a.session_modes | some l ↦ insert sid l a.session_modes ];
  sessions = insert conv sid a.sessions;
}

forget : Text → Text → Agent → Agent
unfolding drop_session
forget conv sid a =
    let b = drop_session conv sid a in
    record b {
      session_roles = remove sid b.session_roles;
      session_modes = remove sid b.session_modes;
    }

abbrev full_access_mode : Text
full_access_mode = codes "full-access"

abbrev default_mode : Text
default_mode = codes "default"

-- The owner's branch, from `dynGrant := isFullAccessGranted()` on.
grant_session : Text → Text → Answers → Agent → Agent
unfolding drop_session
grant_session conv sid r a =
    if not (a.full_access || r.granted)
    then a
    else if not a.full_access && not r.granted_again
    then a
    else if a.set_mode_unsupported
    then a
    else elim r.full_err [
      | some e ↦
          if is_set_mode_unsupported_err (some e)
          then record a { set_mode_unsupported = true }
          else a
      | none ↦
          let b = set_mode sid full_access_mode none a in
          if not b.full_access && not r.granted_after
          then elim r.demote_err [
            | none ↦ set_mode sid default_mode none b
            | some e ↦ drop_session conv sid b
          ]
          else b
    ]

create_session : Text → Origin → Answers → Text → Agent → Agent × Created
unfolding forget grant_session
create_session conv origin r sid a =
    let b = register conv sid origin r.modes a in
    if origin.is_owner
    then (grant_session conv sid r b, fresh sid)
    else let (c, applied) = apply_restricted_mode sid r.restricted_err b in
      if applied then (c, fresh sid) else (forget conv sid c, refused)

pub get_or_create_session : Text → Origin → Answers → Agent → Agent × Created
unfolding create_session
get_or_create_session conv origin r a = elim (lookup conv a.sessions) [
  | some sid ↦ (a, existing sid)
  | none ↦ elim r.session_id [ none ↦ (a, failed) | some sid ↦ create_session conv origin r sid a ]
]

pub reset_session : Text → Origin → Answers → Agent → Agent × Created
reset_session conv origin r a =
    let b = record a { sessions = remove conv a.sessions } in
    let c : Agent = elim (lookup conv a.sessions) [
      | none ↦ b
      | some prev ↦ record b {
        session_roles = remove prev b.session_roles;
        session_modes = remove prev b.session_modes;
      }
    ] in
    get_or_create_session conv origin r c

-- The loop of `demoteFullAccessSessions` over its snapshot; `answer` is what the process says for a
-- session.
demote_loop : (Text → Option Text) → List (Text × Text) → Agent → Agent
unfolding drop_session
demote_loop answer [] a = a
demote_loop answer ((conv, sid) ∷ rest) a = demote_loop answer rest (elim (answer sid) [
  | none ↦ set_mode sid default_mode none a
  | some err ↦ drop_session conv sid a
])

pub demote_full_access_sessions : (Text → Option Text) → Agent → Agent
unfolding demote_loop
demote_full_access_sessions answer a =
    if not a.started || is_empty a.sessions || a.set_mode_unsupported
    then a
    else demote_loop answer a.sessions a

-- `warnDeniedOnce`
warn_denied_once : Text → Text → Agent → Agent
warn_denied_once sid method a =
    let key = sid ++ codes "|" ++ method in
    if is_some (lookup key a.denied_tool_warned)
    then a
    else record a { denied_tool_warned = insert key true a.denied_tool_warned }

-- Whether the call was denied.
pub gate_non_owner_tool_call : Text → Text → Agent → Agent × Bool
unfolding warn_denied_once
gate_non_owner_tool_call method sid a =
    let denied = record a { responses = error_denied sid ∷ a.responses } in
    elim (lookup sid a.session_roles) [
      | none ↦ (warn_denied_once sid method denied, true)
      | some origin ↦
          if origin.is_owner then (a, false) else (warn_denied_once sid method denied, true)
    ]

pub record PermissionOption : Type 0 where
  pub option_id : Text
  pub kind : Text

deny_option : List PermissionOption → Text
deny_option [] = []
deny_option (o ∷ os) =
    let rest = deny_option os in
    if text_eq o.kind (codes "deny") || text_eq o.kind (codes "reject") then o.option_id else rest

-- The loop that picks the first `allow` option, or else the first option with an identifier.
allow_option : List PermissionOption → Text → Text
allow_option [] option_id = option_id
allow_option (o ∷ os) option_id =
    let first = if is_empty option_id then o.option_id else option_id in
    let rest = allow_option os first in if text_eq o.kind (codes "allow") then o.option_id else rest

respond : Response → Agent → Agent
respond r a = record a { responses = r ∷ a.responses }

pub handle_permission_request : Text → List PermissionOption → Agent → Agent
unfolding warn_denied_once respond deny_option allow_option
handle_permission_request sid options a = elim (lookup sid a.session_roles) [
  | none ↦ warn_denied_once sid (codes "session/request_permission") (respond (cancelled sid) a)
  | some origin ↦
      if origin.is_owner
      then respond
          (selected sid
            (if is_empty (allow_option options []) then codes "allow" else allow_option options []))
          a
      else let denied = deny_option options in
        warn_denied_once sid (codes "session/request_permission")
          (respond (if not (is_empty denied) then selected sid denied else cancelled sid) a)
]
