-- ===== src/Agent/Session/Gate.antt =====
-- What the client side denies to a session.
use mathlib.Core.List.{Memᴰ}
use ringclaw.Prelude.{
  ◌≡◌, ◌≢◌, ◌⊎◌, ◌↔◌, inl, inr, refl, true, false, ◌||◌, Bool-cases, Option-cases, some, List, [],
  ◌∷◌, arith,
}
use ringclaw.Prelude.Text.{Text, codes, text_eq, text_eq_iff, is_empty}
use ringclaw.Prelude.Assoc.{lookup}
use ringclaw.Agent.{Origin}
use ringclaw.Agent.Session.{
  Agent, Response, error_denied, selected, cancelled, PermissionOption, deny_option,
  gate_non_owner_tool_call, handle_permission_request,
}

-- The session is known, and an owner drives it.
abbrev pub OwnerDriven : Text → Agent → Type 0
OwnerDriven sid a = (o : Origin) × (lookup sid a.session_roles ≡ some o) × (o.is_owner ≡ true)

-- A file or terminal request goes through exactly when its session is known and owner-driven, and
-- then nothing is touched. Otherwise one error is sent for that session, and no session, role or
-- mode changes.
pub gate-exact :
    (method sid : Text) (a : Agent)
    → let (a', denied) = gate_non_owner_tool_call method sid a in
      ((denied ≡ false) ↔ OwnerDriven sid a)
      × (denied ≡ false → a' ≡ a)
      × (denied ≡ true
          → (a'.responses ≡ error_denied sid ∷ a.responses)
            × (a'.session_roles ≡ a.session_roles)
            × (a'.sessions ≡ a.sessions)
            × (a'.accepted_modes ≡ a.accepted_modes))
unfolding gate_non_owner_tool_call
gate-exact method sid a = elim (Option-cases (lookup sid a.session_roles)) [
  | inl e ↦ (
    (λ h. absurd (ground arith), λ h. absurd (ground (arith, h.1))),
    λ h. absurd (ground arith),
    λ h. ground arith,
  )
  | inr (o, e) ↦ elim (Bool-cases o.is_owner) [
    | inl own ↦
        ((λ h. (o, e, own), λ h. ground arith), λ h. ground arith, λ h. absurd (ground arith))
    | inr other ↦ (
      (λ h. absurd (ground arith), λ h. absurd (ground (arith, h.1, h.2))),
      λ h. absurd (ground arith),
      λ h. ground arith,
    )
  ]
]

deny_option-kind :
    (options : List PermissionOption)
    → deny_option options ≢ []
    → (o : PermissionOption) × Memᴰ o options
      × (o.option_id ≡ deny_option options)
      × ((o.kind ≡ codes "deny") ⊎ (o.kind ≡ codes "reject"))
unfolding deny_option
deny_option-kind [] ne = absurd (ne refl)
deny_option-kind (o ∷ os) ne =
    elim (Bool-cases (text_eq o.kind (codes "deny") || text_eq o.kind (codes "reject"))) [
      | inl denies ↦ (
        o,
        Memᴰ.head refl,
        ground arith,
        ground (arith, text_eq_iff o.kind (codes "deny"), text_eq_iff o.kind (codes "reject")),
      )
      | inr allows ↦
          let (p, mem, named, kind) = deny_option-kind os (λ e. ne (ground arith)) in
          (p, Memᴰ.tail mem, ground arith, kind)
    ]

-- What an answer to a permission request may be if no owner drives the session: a cancellation,
-- or an option that was offered as a denial.
abbrev pub Refuses : Text → List PermissionOption → Response → Type 0
Refuses sid options r =
    (r ≡ cancelled sid)
    ⊎ ((o : PermissionOption) × Memᴰ o options
        × (r ≡ selected sid o.option_id)
        × ((o.kind ≡ codes "deny") ⊎ (o.kind ≡ codes "reject")))

-- A permission request of a session that is unknown or not owner-driven is answered once, and the
-- answer cancels it or selects an option of kind `deny` or `reject`: nothing is approved for it.
pub handle_permission_request-Refuses :
    (sid : Text) (options : List PermissionOption) (a : Agent)
    → ¬ OwnerDriven sid a
    → (r : Response) × ((handle_permission_request sid options a).responses ≡ r ∷ a.responses)
      × Refuses sid options r
unfolding handle_permission_request
handle_permission_request-Refuses sid options a outsider =
    elim (Option-cases (lookup sid a.session_roles)) [
      | inl e ↦ (cancelled sid, ground arith, inl refl)
      | inr (o, e) ↦ elim (Bool-cases o.is_owner) [
        | inl own ↦ absurd (outsider (o, e, own))
        | inr other ↦ elim (Bool-cases (is_empty (deny_option options))) [
          | inl none_offered ↦ (cancelled sid, ground arith, inl refl)
          | inr offered ↦
              let (p, mem, named, kind) = deny_option-kind options (λ z. ground arith) in
              (selected sid p.option_id, ground arith, inr (p, mem, refl, kind))
        ]
      ]
    ]
