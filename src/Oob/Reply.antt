-- ===== src/Oob/Reply.antt =====
-- Challenge identifiers and the parser of `/approval` replies: `newChallengeID` of
-- messaging/oob/challenge.go, and messaging/oob/authorize.go. A text is the list of its code points.
pub mod RoundTrip
mod Tests
use Prim.Native.Nat.{◌/◌, ◌%◌}
use ringclaw.Prelude.{
  ℕ, ◌+◌, ◌==◌, Bool, true, false, ◌&&◌, ◌||◌, ◌≡◌, refl, Option, none, some, List, [], ◌∷◌, length,
  leb, ltb, if◌then◌else◌,
}
use ringclaw.Prelude.Text.{Text, codes, trim_space, to_lower, equal_fold, is_empty}

abbrev pub challenge_id_bytes : ℕ
challenge_id_bytes = 4

-- `hex.EncodeToString`
hex_digit : ℕ → ℕ
hex_digit n = if ltb n 10 then b'0' + n else 87 + n

encode_to_string : List ℕ → Text
unfolding hex_digit
encode_to_string [] = []
encode_to_string (b ∷ bs) = hex_digit (b / 16) ∷ hex_digit (b % 16) ∷ encode_to_string bs

-- The bytes that `rand.Read` wrote, or its error.
unfoldable pub new_challenge_id : Option (List ℕ) → Option Text
unfolding encode_to_string
new_challenge_id none = none
new_challenge_id (some buf) = some (encode_to_string buf)

pub data ApprovalReply : Type 0 where
  reply_none : ApprovalReply
  reply_approve : Text → ApprovalReply
  reply_deny : Text → ApprovalReply

is_hex : ℕ → Bool
is_hex r = leb b'0' r && leb r b'9' || leb b'a' r && leb r b'f' || leb b'A' r && leb r b'F'

all_hex : Text → Bool
unfolding is_hex
all_hex [] = true
all_hex (r ∷ s) = if is_hex r then all_hex s else false

-- `len` counts bytes; a text with a character outside ASCII is refused by the loop in any case.
unfoldable pub is_challenge_id : Text → Bool
unfolding all_hex
is_challenge_id s = if length s == 8 then all_hex s else false

-- The loop of `splitFirstField`: the text before the first blank, and the text from it on.
split_at_blank : Text → Text × Text
split_at_blank [] = ([], [])
split_at_blank (r ∷ s) =
    let (field, rest) = split_at_blank s in
    if r == b' ' || r == 9 then ([], r ∷ s) else (r ∷ field, rest)

unfoldable pub split_first_field : Text → Text × Text
unfolding split_at_blank
split_first_field s =
    let t = trim_space s in
    if is_empty t
    then ([], [])
    else let (field, rest) = split_at_blank t in (field, trim_space rest)

-- After the command word.
unfoldable pub parse_arguments : Text → ApprovalReply
parse_arguments rest =
    if is_empty rest
    then reply_none
    else let (sub, remainder) = split_first_field rest in
      if equal_fold sub (codes "deny")
      then if is_challenge_id (trim_space remainder)
        then reply_deny (to_lower (trim_space remainder))
        else reply_none
      else if is_empty remainder && is_challenge_id sub
      then reply_approve (to_lower sub)
      else reply_none

unfoldable pub parse_approval_reply : Text → ApprovalReply
parse_approval_reply text =
    let trimmed = trim_space text in
    if is_empty trimmed
    then reply_none
    else let (head, rest) = split_first_field trimmed in
      if equal_fold head (codes "/approval") then parse_arguments (trim_space rest) else reply_none

abbrev pub disabled_notice : Text
disabled_notice =
    codes
      "Approval via chat is disabled for security. Run on the host machine:\n  ringclaw approval <id>       (approve)\n  ringclaw approval deny <id>  (deny)\n  ringclaw approval list       (list pending)"

-- `HandleApprovalReply`: whether the message was consumed, and the texts sent to the chat.
pub handle_approval_reply : Text → Bool × List Text
unfolding parse_approval_reply split_first_field parse_arguments
handle_approval_reply text = elim (parse_approval_reply text) [
  | reply_none ↦ (false, [])
  | _ ↦ (true, disabled_notice ∷ [])
]

-- A message is consumed when it is read as an approval or a denial, and then the notice is sent.
pub handle_approval_reply-notice :
    (text : Text)
    → handle_approval_reply text ≡ elim (parse_approval_reply text) [
      | reply_none ↦ (false, [])
      | _ ↦ (true, disabled_notice ∷ [])
    ]
unfolding handle_approval_reply
handle_approval_reply-notice text = refl
