-- ===== src/Messaging/Actions/Approved/Safety.antt =====
-- What an action in another chat needs.
use mathlib.Core.Path.{subst}
use ringclaw.Prelude.{
  Bool, true, false, not, ◌||◌, Option, none, some, List, [], ◌∷◌, if_intro, ◌≡◌, refl, sym, ap,
  ◌∙◌, ◌⊎◌, inl, inr, All, ◌++◌,
}
use ringclaw.Prelude.Text.{Text, trim_space, is_empty}
use ringclaw.Prelude.Time.{Time}
use ringclaw.Oob.Challenge
use ringclaw.Oob.Challenge.{Manager, Error, Wake, wait, Call}
use ringclaw.Oob.Challenge.Approval.{ApprovedIn, wait-ApprovedIn}
use ringclaw.Messaging.Actions.{
  AgentAction, param, Outside, Effect, created_note, published_note, created_task, created_event,
  created_card, sent_message, Pending, Board, effect, result, Kind, note, task, event, card,
  message, unknown, kind_of,
}
use ringclaw.Messaging.Actions.Audit.{writes_to}
use ringclaw.Messaging.Actions.Approved.{
  call_approved, approve_note, assign_approved, approve_task, approve_event, approve_card,
  approve_message, carry_out, settle, settled, await_cross_chat_oob,
}

abbrev pub Only : Text → Effect → Type 0
Only target e = (t : Text) → writes_to e ≡ some t → t ≡ target

-- The effects behind are those before, and some of which none writes to a chat but this one.
abbrev pub Writes : Text → List Effect → List Effect → Type 0
Writes target before after = (new : List Effect) × (after ≡ new ++ before) × All (Only target) new

module _ (o : Outside) (target : Text) (a : AgentAction) (b : Board) where
  Ok : Board → Type 0
  Ok c = Writes target b.effects c.effects

  call_approved-Writes : (e : Effect) → Only target e → Ok (call_approved o e b)
  unfolding call_approved effect result Ok
  call_approved-Writes e only =
      if_intro Ok o.accepted (λ _. (e ∷ [], refl, (only, tt))) (λ _. ([], refl, tt))

  approve_note-Writes : Ok (approve_note o target a b)
  unfolding approve_note effect result Ok
  approve_note-Writes =
      if_intro Ok o.accepted
        (λ _.
          (published_note ∷ created_note target _ a.body ∷ [], refl, (λ t h. cc, (λ t h. cc, tt))))
        (λ _. ([], refl, tt))

  assign_approved-Writes :
      (subject : Text) (id : Option Text) → Ok (assign_approved o target subject id b)
  unfolding assign_approved result Ok
  assign_approved-Writes subject none = ([], refl, tt)
  assign_approved-Writes subject (some id) =
      call_approved-Writes (created_task target subject (some id)) (λ t h. cc)

  approve_task-Writes : Ok (approve_task o target a b)
  unfolding approve_task result Ok
  approve_task-Writes =
      if_intro Ok (is_empty (param "subject" a)) (λ _. ([], refl, tt))
        (λ _.
          if_intro Ok (is_empty (param "assignee" a))
            (λ _. call_approved-Writes (created_task target (param "subject" a) none) (λ t h. cc))
            (λ _.
              assign_approved-Writes (param "subject" a) (o.resolve_assignee (param "assignee" a))))

  approve_event-Writes : Ok (approve_event o a b)
  unfolding approve_event result Ok
  approve_event-Writes =
      if_intro Ok
        (is_empty (param "title" a) || is_empty (param "start" a) || is_empty (param "end" a))
        (λ _. ([], refl, tt))
        (λ _.
          call_approved-Writes (created_event (param "title" a) (param "start" a) (param "end" a))
            (λ t h. cc))

  approve_card-Writes : Ok (approve_card o target a b)
  unfolding approve_card result Ok
  approve_card-Writes =
      if_intro Ok (is_empty a.body) (λ _. ([], refl, tt))
        (λ _.
          if_intro Ok (not o.valid_json) (λ _. ([], refl, tt))
            (λ _. call_approved-Writes (created_card target a.body) (λ t h. cc)))

  approve_message-Writes : Ok (approve_message o target a b)
  unfolding approve_message result Ok
  approve_message-Writes =
      if_intro Ok (is_empty (trim_space a.body)) (λ _. ([], refl, tt))
        (λ _. call_approved-Writes (sent_message target (trim_space a.body)) (λ t h. cc))

  carry_out-Writes : (k : Kind) → Ok (carry_out k o target a b)
  unfolding carry_out result Ok
  carry_out-Writes note = approve_note-Writes
  carry_out-Writes task = approve_task-Writes
  carry_out-Writes event = approve_event-Writes
  carry_out-Writes card = approve_card-Writes
  carry_out-Writes message = approve_message-Writes
  carry_out-Writes unknown = ([], refl, tt)

abbrev Approved : Option Error → Bool → Type 0
Approved err approved = (approved ≡ true) × (err ≡ none)

settle-Writes :
    (p : Pending) (o : Outside) (approved : Bool) (err : Option Error) (b : Board)
    → ((settle p o approved err b).effects ≡ b.effects)
      ⊎ (Approved err approved × Writes p.target b.effects (settle p o approved err b).effects)
unfolding settle result Ok
settle-Writes p o approved (some err) b = inl refl
settle-Writes p o false none b = inl refl
settle-Writes p o true none b =
    inr ((refl, refl), carry_out-Writes o p.target p.action b (kind_of p.action.type))

-- What the end of a wait comes to.
abbrev pub CarriedOut : Pending → Option (Manager × Bool × Option Error) → Board → Board → Type 0
CarriedOut p r b c =
    (c.effects ≡ b.effects)
    ⊎ ((m : Manager) × (r ≡ some (m, true, none)) × Writes p.target b.effects c.effects)

settled-CarriedOut :
    (p : Pending) (o : Outside) (r : Option (Manager × Bool × Option Error)) (b c : Board)
    → settled p o r b ≡ some c
    → CarriedOut p r b c
unfolding settled
settled-CarriedOut p o none b c e = cc
settled-CarriedOut p o (some (m, approved, err)) b c e =
    let to : settle p o approved err (record b { challenges = m }) ≡ c = cc in
    subst (CarriedOut p (some (m, approved, err)) b) to
      (elim (settle-Writes p o approved err (record b { challenges = m })) [
        | inl same ↦ inl same
        | inr ((won, fine), writes) ↦ inr (m, rw won (rw fine refl), writes)
      ])

-- When the wait for an action in another chat is over, after any calls on a fresh manager of
-- challenges, the action has had no effect, or its challenge was approved among those calls before
-- its end; and what it wrote it wrote to the chat that its goroutine was started with.
pub await_cross_chat_oob-ApprovedIn :
    (start : Time) (cs : List Call) (p : Pending) (o : Outside) (wake : Wake) (b c : Board)
    → b.challenges ≡ Challenge.run cs (Challenge.new start)
    → await_cross_chat_oob p o wake b ≡ some c
    → (c.effects ≡ b.effects)
      ⊎ (ApprovedIn p.challenge cs (Challenge.new start) × Writes p.target b.effects c.effects)
unfolding await_cross_chat_oob
await_cross_chat_oob-ApprovedIn start cs p o wake b c fresh e =
    elim (settled-CarriedOut p o (wait p.challenge wake b.challenges) b c e) [
      | inl same ↦ inl same
      | inr (m, over, writes) ↦ inr (
        wait-ApprovedIn start cs p.challenge wake m (ap (wait p.challenge wake) (sym fresh) ∙ over),
        writes,
      )
    ]
