-- ===== src/Messaging/Routing/Privileged.antt =====
-- The privileged destinations, and the texts that lead there.
use ringclaw.Prelude.{
  Bool, true, false, ◌||◌, Option, none, some, List, [], ◌∷◌, keep, if_intro, ◌≡◌, refl, arith,
}
use ringclaw.Prelude.Text.{Text, codes, text_eq, has_prefix}
use ringclaw.Messaging.Commands.{
  is_privileged_command, is_mem_command, mem_subcommand, is_mem_write, is_full_access_command,
  is_summarize_command, is_persona_command, is_action_command, matches_intent_trigger, Intent,
  intent_summarize, intent_task, intent_note, intent_event, intent_chat, parse_command,
}
use ringclaw.Messaging.Router.{
  Router, Incoming, Route, reload, new_session, cwd, full_access, cron, mem, summarize,
}
use ringclaw.Messaging.Routing.{
  is_known_agent, built_in, classify_and_route, classified, route_intent, switch_to, send_to,
  to_agents, dispatch, or_else,
}

-- What only the owner may do where there is one to ask for: reload the configuration, reset the
-- session, change the directory, open full access, schedule jobs, write to the memory, and have a
-- chat summarized by a summary command. The text is the message's, as the commands are read from it.
abbrev pub is_privileged : Text → Route → Bool
is_privileged text reload = true
is_privileged text new_session = true
is_privileged text (cwd command) = true
is_privileged text (full_access command) = true
is_privileged text (cron command) = true
is_privileged text (mem command is_dm) = is_mem_write (mem_subcommand command)
is_privileged text summarize = is_summarize_command text
is_privileged text _ = false

-- A privileged destination has a privileged text.
abbrev Guarded : Text → Option Route → Type 0
Guarded text none = Unit
Guarded text (some a) = is_privileged text a ≡ true → is_privileged_command text ≡ true

module _ (text : Text) where
  reload-privileged : text_eq text (codes "/reload") ≡ true → is_privileged_command text ≡ true
  unfolding is_privileged_command
  reload-privileged e = ground arith

  reset-privileged :
      text_eq text (codes "/new") || text_eq text (codes "/clear") ≡ true
      → is_privileged_command text ≡ true
  unfolding is_privileged_command
  reset-privileged e = ground arith

  cwd-privileged : has_prefix text (codes "/cwd") ≡ true → is_privileged_command text ≡ true
  unfolding is_privileged_command
  cwd-privileged e = ground arith

  cron-privileged : has_prefix text (codes "/cron") ≡ true → is_privileged_command text ≡ true
  unfolding is_privileged_command
  cron-privileged e = ground arith

  full_access-privileged : is_full_access_command text ≡ true → is_privileged_command text ≡ true
  unfolding is_privileged_command
  full_access-privileged e = ground arith

  mem-privileged :
      is_mem_command text ≡ true
      → is_mem_write (mem_subcommand text) ≡ true
      → is_privileged_command text ≡ true
  unfolding is_privileged_command
  mem-privileged e h = ground arith

  built_in-Guarded : (r : Router) (m : Incoming) → Guarded text (built_in r m text)
  unfolding built_in
  built_in-Guarded r m =
      if_intro (Guarded text) (text_eq text (codes "/reload")) (λ e _. reload-privileged e)
        (λ _.
          if_intro (Guarded text) (text_eq text (codes "/info") || text_eq text (codes "/status"))
            (λ _ h. cc)
            (λ _.
              if_intro (Guarded text) (text_eq text (codes "/new") || text_eq text (codes "/clear"))
                (λ e _. reset-privileged e)
                (λ _.
                  if_intro (Guarded text) (has_prefix text (codes "/cwd")) (λ e _. cwd-privileged e)
                    (λ _.
                      if_intro (Guarded text) (is_full_access_command text)
                        (λ e _. full_access-privileged e)
                        (λ _.
                          if_intro (Guarded text) (text_eq text (codes "/help")) (λ _ h. cc)
                            (λ _.
                              if_intro (Guarded text) (has_prefix text (codes "/cron"))
                                (λ e _. cron-privileged e)
                                (λ _.
                                  if_intro (Guarded text) (has_prefix text (codes "/chatinfo"))
                                    (λ _ h. cc)
                                    (λ _.
                                      if_intro (Guarded text) (is_mem_command text)
                                        (λ e h. mem-privileged e h)
                                        (λ _.
                                          if_intro (Guarded text) (is_persona_command text)
                                            (λ _ h. cc)
                                            (λ _.
                                              if_intro (Guarded text) (is_action_command text)
                                                (λ _ h. cc) (λ _. tt)))))))))))

  summarize-privileged : is_summarize_command text ≡ true → is_privileged_command text ≡ true
  unfolding is_privileged_command
  summarize-privileged e = ground arith

  -- An intent that the default agent makes out reaches nothing privileged, unless the text is a
  -- summary command as well.
  route_intent-Guarded :
      (i : Intent) → is_summarize_command text ≡ false → Guarded text (route_intent text i)
  unfolding route_intent
  route_intent-Guarded intent_summarize e = λ h. cc
  route_intent-Guarded intent_task e = λ h. cc
  route_intent-Guarded intent_note e = λ h. cc
  route_intent-Guarded intent_event e = λ h. cc
  route_intent-Guarded intent_chat e = tt

  classify-Guarded : (m : Incoming) → Guarded text (classify_and_route m text)
  unfolding classify_and_route
  classify-Guarded m =
      if_intro (Guarded text) (is_summarize_command text) (λ e _. summarize-privileged e)
        (λ e.
          elim m.reply
            as (λ o. Guarded text (elim o as (λ _. Option Route) [
              | none ↦ none
              | some reply ↦ route_intent text (classified reply)
            ])) [ none ↦ tt | some reply ↦ route_intent-Guarded (classified reply) e ])

-- A way on that reaches nothing privileged.
abbrev pub Harmless : Text → Option Route → Type 0
Harmless text none = Unit
Harmless text (some a) = is_privileged text a ≡ false

switch_to-Harmless :
    (r : Router) (m : Incoming) (text : Text) (names : List Text)
    → is_privileged text (switch_to r m text names) ≡ false
unfolding switch_to
switch_to-Harmless r m text [] = refl
switch_to-Harmless r m text (name ∷ []) = ground arith
switch_to-Harmless r m text (name ∷ other ∷ names) = refl

send_to-Harmless :
    (text message : Text) (names : List Text)
    → is_privileged text (send_to text message names) ≡ false
unfolding send_to
send_to-Harmless text message [] = refl
send_to-Harmless text message (name ∷ []) = refl
send_to-Harmless text message (name ∷ other ∷ names) = refl

to_agents-Harmless :
    (r : Router) (m : Incoming) (text : Text) → is_privileged text (to_agents r m text) ≡ false
unfolding to_agents
to_agents-Harmless r m text =
    let (names, message) = parse_command r.custom_aliases text in
    ground (
      arith,
      switch_to-Harmless r m text names,
      send_to-Harmless text message (keep (is_known_agent r) names),
    )

or_else-Guarded :
    (text : Text) (a : Option Route) (b : Route)
    → Guarded text a
    → Guarded text (some b)
    → Guarded text (some (or_else a b))
or_else-Guarded text none b g h = h
or_else-Guarded text (some a) b g h = g

pub dispatch-Guarded :
    (r : Router) (m : Incoming) (text : Text)
    → is_privileged text (dispatch r m text) ≡ true
    → is_privileged_command text ≡ true
unfolding dispatch
dispatch-Guarded r m text = or_else-Guarded text (built_in r m text) _ (built_in-Guarded text r m) (
    or_else-Guarded text _ (to_agents r m text)
      (if_intro (Guarded text) (matches_intent_trigger text) (λ _. classify-Guarded text m)
        (λ _. tt))
      (λ h. ground (arith, to_agents-Harmless r m text)))
