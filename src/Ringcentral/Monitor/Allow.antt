-- ===== src/Ringcentral/Monitor/Allow.antt =====
-- The per-chat allowlist.
use ringclaw.Prelude.{
  ◌≡◌, inl, inr, refl, Bool, true, false, ◌&&◌, not, Option-cases, [], arith, if◌then◌else◌,
}
use ringclaw.Prelude.Text.{Text, text_eq, text_eq_iff, trim_space, is_empty}
use ringclaw.Prelude.Assoc.{Assoc, lookup, insert, flag, lookup-insert}
use ringclaw.Ringcentral.Monitor.{
  Monitor, allow_in, is_allowed_in, add_chat_user_allow, is_chat_user_allowed,
}

flag-insert :
    (k j : Text) (m : Assoc Bool)
    → flag j (insert k true m) ≡ (if text_eq k j then true else flag j m)
flag-insert k j m = ground (arith, lookup-insert k j true m)

flag-nil : (k : Text) → flag k [] ≡ false
unfolding lookup
flag-nil k = refl

-- After a grant the pair of that chat and user, spaces trimmed, is allowed (unless one of them is
-- empty), and every other pair is allowed as before.
pub is_allowed_in-allow_in :
    (chat_id user_id c u : Text) (allow : Assoc (Assoc Bool))
    → is_allowed_in c u (allow_in chat_id user_id allow) ≡ (
        if text_eq (trim_space chat_id) c
          && text_eq (trim_space user_id) u
          && not (is_empty c)
          && not (is_empty u)
        then true
        else is_allowed_in c u allow)
unfolding is_allowed_in allow_in
is_allowed_in-allow_in chat_id user_id c u allow =
    let k = trim_space chat_id in
    let j = trim_space user_id in
    elim (Option-cases (lookup k allow)) [
      | inl new ↦ ground (
        arith,
        text_eq_iff k c,
        text_eq_iff j u,
        lookup-insert k c (insert j true []) allow,
        flag-insert j u [],
        flag-nil u,
      )
      | inr (set, old) ↦ ground (
        arith,
        text_eq_iff k c,
        text_eq_iff j u,
        lookup-insert k c (insert j true set) allow,
        flag-insert j u set,
      )
    ]

-- The monitor's grant, and that no other field decides trust differently after it.
pub is_chat_user_allowed-add_chat_user_allow :
    (chat_id user_id c u : Text) (m : Monitor)
    → is_chat_user_allowed c u (add_chat_user_allow chat_id user_id m) ≡ (
        if text_eq (trim_space chat_id) c
          && text_eq (trim_space user_id) u
          && not (is_empty c)
          && not (is_empty u)
        then true
        else is_chat_user_allowed c u m)
unfolding is_chat_user_allowed add_chat_user_allow
is_chat_user_allowed-add_chat_user_allow chat_id user_id c u m =
    is_allowed_in-allow_in chat_id user_id c u m.chat_user_allow
