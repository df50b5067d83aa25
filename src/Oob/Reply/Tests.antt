-- ===== src/Oob/Reply/Tests.antt =====
-- Replies, parsed.
use ringclaw.Prelude.{◌≡◌, refl, some, ◌∷◌, []}
use ringclaw.Prelude.Text.{codes, trim_space, to_lower, equal_fold}
use ringclaw.Oob.Reply.{
  reply_none, reply_approve, reply_deny, new_challenge_id, is_challenge_id, split_first_field,
  parse_arguments, parse_approval_reply,
}

approve_is_parsed :
    parse_approval_reply (codes "  /Approval  00FFa1b2 ") ≡ reply_approve (codes "00ffa1b2")
unfolding parse_approval_reply split_first_field parse_arguments is_challenge_id trim_space to_lower
    equal_fold
approve_is_parsed = refl

deny_is_parsed :
    parse_approval_reply (codes "/approval DENY 00ffa1b2") ≡ reply_deny (codes "00ffa1b2")
unfolding parse_approval_reply split_first_field parse_arguments is_challenge_id trim_space to_lower
    equal_fold
deny_is_parsed = refl

trailing_is_refused : parse_approval_reply (codes "/approval 00ffa1b2 now") ≡ reply_none
unfolding parse_approval_reply split_first_field parse_arguments is_challenge_id trim_space to_lower
    equal_fold
trailing_is_refused = refl

id_is_hex : new_challenge_id (some (0 ∷ 255 ∷ 161 ∷ 178 ∷ [])) ≡ some (codes "00ffa1b2")
unfolding new_challenge_id
id_is_hex = refl
