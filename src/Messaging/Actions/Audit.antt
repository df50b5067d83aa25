-- ===== src/Messaging/Actions/Audit.antt =====
-- Where an agent's actions write.
use ringclaw.Prelude.{
  Bool, true, false, not, ◌&&◌, ◌||◌, Option, none, some, List, [], ◌∷◌, get_elem?, if_intro, ◌≡◌,
  refl, ap, ◌∙◌, arith,
}
use ringclaw.Prelude.Text.{Text, text_eq, text_eq_refl, trim_space, is_empty}
use ringclaw.Oob.Challenge.{Manager, Issued, ok, fail}
use ringclaw.Messaging.Actions.{
  AgentAction, param, ActionContext, Outside, Effect, created_note, created_task, created_event,
  created_card, sent_message, echoed, noticed, Board, call, create_note, assign, create_task,
  create_event, create_card, send_message, echo, perform, Kind, note, task, event, card, message,
  unknown, kind_of, Target, in_chat, behind_challenge, nowhere, non_owner_target, owner_target,
  target_of, announce_cross_chat_or_refuse, dispatch, prompt, issued, cross_chat_oob_challenge,
  go_to, execute_agent_actions, effect, result,
}

-- The chat that an effect writes to; events belong to no chat, and a notice is the owner's.
abbrev pub writes_to : Effect → Option Text
writes_to (created_note chat title body) = some chat
writes_to (created_task chat subject assignee) = some chat
writes_to (created_card chat body) = some chat
writes_to (sent_message chat text) = some chat
writes_to (echoed chat type body) = some chat
writes_to _ = none

-- The latest effect is the notice to the owner about that chat.
abbrev pub is_told : Text → List Effect → Bool
is_told target (noticed type origin about ∷ before) = text_eq about target
is_told target _ = false

module _ (opts : ActionContext) (chat_id : Text) where
  -- A chat may be written to behind such effects.
  abbrev pub reaches : Text → List Effect → Bool
  reaches target before =
      text_eq target chat_id
      || opts.origin_is_owner && (text_eq target opts.owner_dm_chat || is_told target before)

  abbrev pub allows : Option Text → List Effect → Bool
  allows none before = true
  allows (some target) before = reaches target before

  -- Every effect may follow those before it.
  unfoldable pub audited : List Effect → Bool
  audited [] = true
  audited (e ∷ before) = allows (writes_to e) before && audited before

  abbrev Audited : Board → Type 0
  Audited b = audited b.effects ≡ true

  call-Audited :
      (o : Outside) (e : Effect) (b : Board)
      → allows (writes_to e) b.effects ≡ true
      → Audited b
      → Audited (call o e b)
  unfolding call audited effect result
  call-Audited o e b a h = if_intro Audited o.accepted (λ _. ground (arith, a, h)) (λ _. h)

  module _ (o : Outside) (target : Text) (a : AgentAction) (b : Board) (h : Audited b) where
    module _ (r : reaches target b.effects ≡ true) where
      create_note-Audited : Audited (create_note o target a b)
      unfolding create_note audited effect result
      create_note-Audited = if_intro Audited o.accepted (λ _. ground (arith, r, h)) (λ _. h)

      assign-Audited : (subject : Text) (id : Option Text) → Audited (assign o target subject id b)
      unfolding assign result
      assign-Audited subject none = h
      assign-Audited subject (some id) =
          call-Audited o (created_task target subject (some id)) b r h

      create_task-Audited : Audited (create_task o target a b)
      unfolding create_task
      create_task-Audited =
          if_intro Audited (is_empty (param "subject" a)) (λ _. h)
            (λ _.
              if_intro Audited (is_empty (param "assignee" a))
                (λ _. call-Audited o (created_task target (param "subject" a) none) b r h)
                (λ _. assign-Audited (param "subject" a) (o.resolve_assignee (param "assignee" a))))

      create_card-Audited : Audited (create_card o target a b)
      unfolding create_card result
      create_card-Audited =
          if_intro Audited (is_empty a.body) (λ _. h)
            (λ _.
              if_intro Audited (not o.valid_json) (λ _. h)
                (λ _. call-Audited o (created_card target a.body) b r h))

      send_message-Audited : Audited (send_message o target a b)
      unfolding send_message
      send_message-Audited =
          if_intro Audited (is_empty (trim_space a.body)) (λ _. h)
            (λ _. call-Audited o (sent_message target (trim_space a.body)) b r h)

    create_event-Audited : Audited (create_event o a b)
    unfolding create_event
    create_event-Audited =
        if_intro Audited
          (is_empty (param "title" a) || is_empty (param "start" a) || is_empty (param "end" a))
          (λ _. h)
          (λ _.
            call-Audited o (created_event (param "title" a) (param "start" a) (param "end" a)) b
              refl h)

    echo-Audited : Audited (echo o chat_id a b)
    unfolding echo result effect audited
    echo-Audited =
        if_intro Audited (is_empty (trim_space a.body) || not o.accepted) (λ _. h)
          (λ _. ground (arith, h, text_eq_refl chat_id))

    perform-Audited :
        (k : Kind) → reaches target b.effects ≡ true → Audited (perform k o chat_id target a b)
    unfolding perform
    perform-Audited note r = create_note-Audited r
    perform-Audited task r = create_task-Audited r
    perform-Audited event r = create_event-Audited
    perform-Audited card r = create_card-Audited r
    perform-Audited message r = send_message-Audited r
    perform-Audited unknown r = echo-Audited

  -- A target that leads elsewhere at once is an owner's, and is taken for another chat.
  abbrev Decided : Target → Type 0
  Decided (in_chat target true) = opts.origin_is_owner ≡ true
  Decided (in_chat target false) = text_eq target chat_id ≡ true
  Decided _ = Unit

  non_owner_target-Decided : (r : Option Text) → Decided (non_owner_target chat_id r)
  unfolding non_owner_target
  non_owner_target-Decided none = tt
  non_owner_target-Decided (some resolved) =
      if_intro Decided (text_eq resolved chat_id) (λ _. text_eq_refl chat_id) (λ _. tt)

  owner_target-Decided :
      (r : Option Text) → opts.origin_is_owner ≡ true → Decided (owner_target chat_id r)
  unfolding owner_target
  owner_target-Decided none own = tt
  owner_target-Decided (some resolved) own = decided (text_eq resolved chat_id) refl
    where
      decided : (b : Bool) → text_eq resolved chat_id ≡ b → Decided (in_chat resolved (not b))
      decided true e = e
      decided false e = own

  target_of-Decided : (o : Outside) (a : AgentAction) → Decided (target_of opts o chat_id a)
  unfolding target_of
  target_of-Decided o a =
      if_intro Decided (is_empty (param "chatid" a)) (λ _. text_eq_refl chat_id)
        (λ _.
          if_intro Decided opts.origin_is_owner
            (λ own. owner_target-Decided (o.resolve_chat (param "chatid" a)) own)
            (λ _.
              if_intro Decided
                (opts.has_oob && not (is_empty opts.owner_dm_chat) && not (is_empty opts.owner_id))
                (λ _. non_owner_target-Decided (o.resolve_chat (param "chatid" a)))
                (λ _. text_eq_refl chat_id)))

  dispatch-Audited :
      (o : Outside) (target : Text) (cross_chat : Bool) (a : AgentAction) (b : Board)
      → Decided (in_chat target cross_chat)
      → Audited b
      → Audited (dispatch opts o chat_id target cross_chat a b)
  unfolding dispatch effect result audited
  dispatch-Audited o target false a b d h =
      perform-Audited o target a b h (kind_of a.type) (ground (arith, d))
  dispatch-Audited o target true a b d h =
      if_intro Audited (not (text_eq target opts.owner_dm_chat))
        (λ _.
          if_intro Audited (announce_cross_chat_or_refuse opts o)
            (λ _.
              perform-Audited o target a (effect (noticed a.type chat_id target) b) h
                (kind_of a.type) (ground (arith, d, text_eq_refl target)))
            (λ _. h))
        (λ dm. perform-Audited o target a b h (kind_of a.type) (ground (arith, d, dm)))

  issued-effects :
      (o : Outside) (target : Text) (a : AgentAction) (r : Manager × Issued) (b : Board)
      → (issued o target a r b).effects ≡ b.effects
  unfolding issued prompt result
  issued-effects o target a (m, fail err) b = refl
  issued-effects o target a (m, ok address) b =
      elim (get_elem? m.heap address)
        as (λ c.
          (elim c as (λ _. Board) [
            | none ↦ record b { challenges = m }
            | some c ↦ prompt o address c.id target a (record b { challenges = m })
          ]).effects
          ≡ b.effects) [
            | none ↦ refl
            | some c ↦
                if_intro (λ (d : Board). d.effects ≡ b.effects) o.posted (λ _. refl) (λ _. refl)
          ]

  go_to-Audited :
      (o : Outside) (t : Target) (a : AgentAction) (b : Board)
      → Decided t
      → Audited b
      → Audited (go_to opts o chat_id t a b)
  unfolding go_to cross_chat_oob_challenge result
  go_to-Audited o nowhere a b d h = h
  go_to-Audited o (behind_challenge target) a b d h = ap audited (issued-effects o target a _ b) ∙ h
  go_to-Audited o (in_chat target cross_chat) a b d h = dispatch-Audited o target cross_chat a b d h

  -- However the actions of a reply read and whatever the resolvers and the REST calls answer, an
  -- action writes to another chat than the one its message came from only if the message is an
  -- owner's, and then only to the owner's own direct chat or directly behind a delivered notice to
  -- the owner that names the chat: a board whose effects keep to this still does behind the actions.
  pub execute_agent_actions-Audited :
      (actions : List (AgentAction × Outside)) (b : Board)
      → audited b.effects ≡ true
      → audited (execute_agent_actions opts chat_id actions b).effects ≡ true
  unfolding execute_agent_actions
  execute_agent_actions-Audited [] b h = h
  execute_agent_actions-Audited ((a, o) ∷ actions) b h =
      execute_agent_actions-Audited actions (go_to opts o chat_id (target_of opts o chat_id a) a b)
        (go_to-Audited o (target_of opts o chat_id a) a b (target_of-Decided o a) h)
