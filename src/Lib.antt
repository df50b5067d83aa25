-- ===== src/Lib.antt =====
-- RingClaw bridges RingCentral Team Messaging to AI agents: posts come in over a WebSocket, a handler
-- runs commands or prompts an agent process, and risky steps wait for the owner's approval in the
-- bot's own chat. This library models the parts that decide who may do what.
--
-- The parts, in the order in which a post meets them:
--   Ringcentral          ringcentral/client.go, ringcentral/types.go: identity, posts, mentions
--   Ringcentral.Monitor  ringcentral/monitor.go: the filter of `handleWSMessage`, the allowlists, the
--                        table of posts that the bot sent, and the delay between connections
--   Messaging.Senders    messaging/handler.go, messaging/sender_role.go: the handler's own allowlists,
--                        its check of a post, and `originForPost`
--   Messaging.Commands   messaging/handler.go, messaging/handler_commands.go and others: the words that
--                        a message may begin with, and `parseCommand`
--   Messaging.Router     messaging/handler.go: the state and input of `HandleMessage`
--   Messaging.Routing    messaging/handler.go, messaging/handler_summarize.go: where a message goes
--   Messaging.Authorize  messaging/handler_authorize.go: the flow that asks the owner when a user who
--                        is not trusted mentions the bot
--   Oob.Challenge        messaging/oob/challenge.go: challenges, which the owner approves or denies
--   Oob.Reply            messaging/oob/authorize.go: the replies `/approval <id>` and
--                        `/approval deny <id>`
--   Oob.FullAccess       messaging/oob/manager.go: the full-access grant, its timer and its hook
--   Messaging.FullAccess messaging/handler_fullaccess.go: the command `/full-access`, which asks for a
--                        challenge and opens the grant when it is approved
--   Messaging.Persona    messaging/persona/sanitize.go, messaging/persona/store.go: identifiers as file
--                        names, and the files of memories
--   Messaging.Memory     messaging/handler_persona.go: the command `/mem`
--   Messaging.Actions    messaging/actions.go: the actions that an agent's reply asks for, and the chats
--                        that they may write to, at once or behind an approval
--   Messaging.Heartbeat  messaging/heartbeat/runner.go: the active hours, the recent replies and the tick
--   Messaging.Conversation  messaging/handler.go: the keys of conversations, and replies in threads
--   Messaging.Cron       messaging/cron.go, messaging/cron_store.go: jobs and their scheduler
--   Agent                agent/origin.go: who drives a prompt
--   Agent.RestrictedModes  agent/restricted_modes.go: the read-only mode for a session
--   Agent.Session        agent/acp_agent.go, agent/acp_gate.go, agent/acp_rpc.go: sessions, their
--                        modes, the gate on tool calls, and permission requests
--   Agent.Terminal       agent/acp_terminal.go: output buffers and the table of terminals
--   Agent.Files          agent/acp_terminal.go: reads by lines, writes, and the gated requests
--   Prelude              text, maps, lists and times that the parts share
--
-- How the parts interact: the monitor hands a post to the handler or to the authorization flow; the
-- flow issues a challenge and waits on it; an approval adds the pair to the handler's and to the
-- monitor's allowlist. The handler attaches an origin to a prompt, and the agent's session takes its
-- role from it. The commands `/full-access` and `/mem` are destinations of `HandleMessage`; the first
-- issues a challenge in the owner's chat and grants when it is approved. The actions of a reply go to
-- other chats behind a notice or a challenge. The grant's hook leads to `demoteFullAccessSessions`.
--
-- How the code is modelled. A struct is a record, a method is a function from the state to the new
-- state and its results, and an error is a value. Text is a list of code points, and a Go map is an
-- association list, so that an iteration over a map has the order of that list. Times are natural
-- numbers of nanoseconds, and a method that reads the clock takes the time as an argument or from the
-- manager. A method that holds a mutex is one step, and so is a reader of the full-access grant, which
-- takes it three times; Oob.FullAccess.Readers takes such a reader apart and compares the two.
-- Goroutines, timers and callbacks are part of the state, and schedules of steps are lists, so that a
-- theorem about every list speaks of every interleaving of the steps. Memories and files are lists of
-- bytes, and what is written of a text is its UTF-8. `*oob.Challenge` is shared, so challenges live in
-- a store and are named by
-- addresses. In the authorization flow a call of `AuthorizeMention` is one step, although it reads
-- the directory and sends the prompt between its locks; the wait for the answer is a step of its own.
-- In the agent, a call to the process is one step with the process's answer as an argument, and the
-- modes that the process has accepted are kept.
--
-- Bounds and fuel: a loop is a recursion on a list or on the count of failures, but for two. The loop
-- of `parseCommand` has one round more than the text has characters as its fuel, which is enough,
-- since a round that goes on reads a slash. The digits of a terminal's number have one more than the
-- number as theirs. The parsers of times and cron expressions are arguments of the scheduler.
-- Counters and durations are not bounded to 64 bits, except for the end of a read by lines.
--
-- Not modelled: the network, processes and files; logging; the texts that the bot sends; JSON; what
-- commands but /full-access and /mem do once they are chosen, SOUL.md and its banner, the parser of
-- actions, summaries and the HTTP interface.
pub mod Prelude
pub mod Oob
pub mod Ringcentral
pub mod Agent
pub mod Messaging
