-- ===== src/Messaging/Conversation/Keys.antt =====
-- The keys keep chats and users apart.
use mathlib.Core.List.{◌∷◌}
use ringclaw.Prelude.{
  ℕ, zero, suc, ◌==◌, ◌≡◌, ◌∙◌, ap, sym, refl, inl, inr, Bool, true, false, Bool-cases, [], ◌++◌,
  All, Option, arith,
}
use ringclaw.Prelude.Text.{Text, codes, trim_space}
use ringclaw.Ringcentral.{Client, Post}
use ringclaw.Messaging.Conversation.{
  Conversations, is_dm_of, flat_key, thread_key, thread_of, conversation_id_for_post,
}

-- No colon, which has code 58.
abbrev pub NoColon : Text → Type 0
NoColon t = All (λ c. (c == 58) ≡ false) t

-- A text is split in one way at its first colon,
first_colon :
    (a b x y : Text) → NoColon a → NoColon b → a ++ 58 ∷ x ≡ b ++ 58 ∷ y → (a ≡ b) × (x ≡ y)
first_colon [] [] x y na nb e = (refl, ground (arith, e))
first_colon [] (d ∷ b) x y na (nd, nb) e = absurd (ground (arith, e, nd))
first_colon (c ∷ a) [] x y (nc, na) nb e = absurd (ground (arith, e, nc))
first_colon (c ∷ a) (d ∷ b) x y (nc, na) (nd, nb) e =
    let (same, rest) = first_colon a b x y na nb (ground (arith, e)) in
    (ground (arith, e, same), rest)

inside : (y b : Text) → NoColon (y ++ 58 ∷ b) → ⊥
inside [] b (h, n) = ground arith
inside (c ∷ y) b (h, n) = inside y b n

-- and in one way at its last.
last_colon :
    (x y a b : Text) → NoColon a → NoColon b → x ++ 58 ∷ a ≡ y ++ 58 ∷ b → (x ≡ y) × (a ≡ b)
last_colon [] [] a b na nb e = (refl, ground (arith, e))
last_colon [] (d ∷ y) a b na nb e =
    let tail : a ≡ y ++ 58 ∷ b = ground (arith, e) in absurd (inside y b (rw⁻¹ (tail) na))
last_colon (c ∷ x) [] a b na nb e =
    let tail : x ++ 58 ∷ a ≡ b = ground (arith, e) in absurd (inside x a (rw (tail) nb))
last_colon (c ∷ x) (d ∷ y) a b na nb e =
    let (same, rest) = last_colon x y a b na nb (ground (arith, e)) in
    (ground (arith, e, same), rest)

-- The text from a position on, and the code there.
abbrev beyond : ℕ → Text → Text
beyond zero t = t
beyond (suc n) [] = []
beyond (suc n) (c ∷ t) = beyond n t

abbrev code_at : ℕ → Text → ℕ
code_at zero [] = 0
code_at zero (c ∷ t) = c
code_at (suc n) [] = 0
code_at (suc n) (c ∷ t) = code_at n t

-- The letters `d` and `c`.
apart : ◌≡◌ {A = ℕ} 100 99 → ⊥
apart e = ground (arith, e)

word : NoColon (codes "user")
word = (refl, (refl, (refl, (refl, tt))))

++_assoc : (x y z : Text) → (x ++ y) ++ z ≡ x ++ (y ++ z)
++_assoc [] y z = refl
++_assoc (c ∷ x) y z = ap (λ t. c ∷ t) (++_assoc x y z)

pub flat_key-apart :
    (dm dm' : Bool) (chat chat' user user' : Text)
    → NoColon chat
    → NoColon chat'
    → flat_key dm chat user ≡ flat_key dm' chat' user'
    → (dm ≡ dm') × (chat ≡ chat') × (user ≡ user')
unfolding flat_key
flat_key-apart true true chat chat' user user' n n' e =
    let (same, rest) = first_colon chat chat' user user' n n' (ap (beyond 6) e) in
    (refl, same, rest)
flat_key-apart true false chat chat' user user' n n' e = absurd (apart (ap (code_at 3) e))
flat_key-apart false true chat chat' user user' n n' e = absurd (apart (ap (code_at 3) (sym e)))
flat_key-apart false false chat chat' user user' n n' e =
    let (same, rest) =
      first_colon chat chat' (codes "user:" ++ user) (codes "user:" ++ user') n n'
        (ap (beyond 8) e) in
    (refl, same, ap (beyond 5) rest)

thread_key-apart :
    (dm dm' : Bool) (chat chat' thread thread' user user' : Text)
    → NoColon chat
    → NoColon chat'
    → NoColon user
    → NoColon user'
    → thread_key dm chat thread user ≡ thread_key dm' chat' thread' user'
    → (dm ≡ dm') × (chat ≡ chat') × (thread ≡ thread') × (user ≡ user')
unfolding thread_key
thread_key-apart true true chat chat' thread thread' user user' n n' m m' e =
    let (same, rest) =
      first_colon chat chat' (codes "thread:" ++ (thread ++ (codes ":" ++ user)))
        (codes "thread:" ++ (thread' ++ (codes ":" ++ user'))) n n' (ap (beyond 6) e) in
    let (place, who) = last_colon thread thread' user user' m m' (ap (beyond 7) rest) in
    (refl, same, place, who)
thread_key-apart true false chat chat' thread thread' user user' n n' m m' e =
    absurd (apart (ap (code_at 3) e))
thread_key-apart false true chat chat' thread thread' user user' n n' m m' e =
    absurd (apart (ap (code_at 3) (sym e)))
thread_key-apart false false chat chat' thread thread' user user' n n' m m' e =
    let (same, rest) =
      first_colon chat chat' (codes "thread:" ++ (thread ++ (codes ":user:" ++ user)))
        (codes "thread:" ++ (thread' ++ (codes ":user:" ++ user'))) n n' (ap (beyond 8) e) in
    let (place, who) =
      last_colon (thread ++ codes ":user") (thread' ++ codes ":user") user user' m m' (
        ++_assoc thread (codes ":user") (codes ":" ++ user)
        ∙ ap (beyond 7) rest
        ∙ sym (++_assoc thread' (codes ":user") (codes ":" ++ user'))) in
    let (place', same_word) =
      last_colon thread thread' (codes "user") (codes "user") word word place in
    (refl, same, place', who)

-- With thread mode on or off, two posts whose chats and users have no colon in their identifiers: if
-- the keys made for them are the same, so are the chat and the user.
conversation_id_for_post-apart :
    (client : Option Client) (p q : Post) (h : Conversations)
    → NoColon (trim_space p.group_id)
    → NoColon (trim_space q.group_id)
    → NoColon (trim_space p.creator_id)
    → NoColon (trim_space q.creator_id)
    → conversation_id_for_post client p h ≡ conversation_id_for_post client q h
    → (trim_space p.group_id ≡ trim_space q.group_id)
      × (trim_space p.creator_id ≡ trim_space q.creator_id)
unfolding conversation_id_for_post
conversation_id_for_post-apart client p q h n n' m m' = elim (Bool-cases h.thread_reply) [
  | inl threads ↦ rw threads λ e.
      let (kind, chat, thread, user) =
        thread_key-apart (is_dm_of client (trim_space p.group_id))
          (is_dm_of client (trim_space q.group_id)) (trim_space p.group_id) (trim_space q.group_id)
          (thread_of p) (thread_of q) (trim_space p.creator_id) (trim_space q.creator_id) n n' m m'
          e in
      (chat, user)
  | inr flat ↦ rw flat λ e.
      let (kind, chat, user) =
        flat_key-apart (is_dm_of client (trim_space p.group_id))
          (is_dm_of client (trim_space q.group_id)) (trim_space p.group_id) (trim_space q.group_id)
          (trim_space p.creator_id) (trim_space q.creator_id) n n' e in
      (chat, user)
]
