-- ===== src/Agent/Files.antt =====
-- The requests that an ACP agent makes of its client, of agent/acp_terminal.go: files, read by lines
-- or written, and terminals, each behind the gate of agent/acp_gate.go. A request is taken as it is
-- once its JSON has been read; one that cannot be read changes nothing. The files are those that
-- `os.ReadFile` and `os.WriteFile` meet.
pub mod Lines
pub mod Access
mod Tests
use Prim.Native.Nat.{◌^◌, ◌%◌}
use ringclaw.Prelude.{
  ℕ, ◌+◌, ◌-◌, ◌*◌, ◌==◌, Bool, true, false, not, ◌||◌, Option, none, some, List, [], ◌∷◌, ◌++◌,
  length, take, drop, concat, if◌then◌else◌, ltb, is_some,
}
use ringclaw.Prelude.Int.{ℤ, pos, negsuc}
use ringclaw.Prelude.Text.{Text, codes, is_empty}
use ringclaw.Prelude.Assoc.{Assoc, lookup, insert}
use ringclaw.Agent.Session.{Agent, gate_non_owner_tool_call}
use ringclaw.Agent.Terminal.{
  TerminalManager, TermOutputResponse, create, output, Waited, wait_for_exit, kill, release,
}

-- The loop of `splitLines`; `buf` is the line so far.
lines_from : Text → Text → List Text
lines_from buf [] = if is_empty buf then [] else buf ∷ []
lines_from buf (b ∷ s) =
    let next = lines_from [] s in
    let longer = lines_from (buf ++ b ∷ []) s in
    if b == b'\n' then (buf ++ b ∷ []) ∷ next else longer

pub split_lines : Text → List Text
unfolding lines_from
split_lines s = lines_from [] s

pub join_lines : List Text → Text
join_lines lines = concat lines

-- `*req.Line > 0` and `*req.Limit > 0`: the number, if the field is there and positive.
pub positive : Option ℤ → Option ℕ
positive none = none
positive (some (pos n)) = if ltb 0 n then some n else none
positive (some (negsuc n)) = none

pub start_of : Option ℤ → ℕ → ℕ
unfolding positive
start_of line total = elim (positive line) [
  | none ↦ 0
  | some n ↦ if ltb total (n - 1) then total else n - 1
]

-- One more than the largest `int`, which has 64 bits.
abbrev pub int_bound : ℕ
int_bound = 2 ^ 63

-- The `int` that a sum of two that are not negative comes to: it wraps around.
pub wrapped : ℕ → ℤ
wrapped n =
    let low = n % (2 * int_bound) in
    if ltb low int_bound then pos low else negsuc (2 * int_bound - 1 - low)

-- `lines[start:end]`; out of range it panics, which is `none`.
pub between : ℕ → ℤ → List Text → Option (List Text)
between start (negsuc n) lines = none
between start (pos end) lines =
    if ltb end start || ltb (length lines) end
    then none
    else some (take (end - start) (drop start lines))

-- `if end > len(lines) { end = len(lines) }`
pub capped : ℕ → ℤ → ℤ
capped total (negsuc n) = negsuc n
capped total (pos end) = if ltb total end then pos total else pos end

pub end_of : Option ℕ → ℕ → ℕ → ℤ
end_of none start total = capped total (pos total)
end_of (some n) start total = capped total (wrapped (start + n))

-- The lines that are asked for.
pub slice : Option ℤ → Option ℤ → List Text → Option (List Text)
slice line limit lines =
    let start = start_of line (length lines) in
    between start (end_of (positive limit) start (length lines)) lines

join_all : Option (List Text) → Option Text
unfolding join_lines
join_all none = none
join_all (some lines) = some (join_lines lines)

pub content_of : Option ℤ → Option ℤ → Text → Option Text
unfolding join_all
content_of line limit content =
    if is_some line || is_some limit
    then join_all (slice line limit (split_lines content))
    else some content

-- What is sent back to the agent, the gate's denials aside.
pub data Answer : Type 0 where
  failed succeeded : Answer
  file_content : Text → Answer
  created : Text → Answer
  term_output : TermOutputResponse → Answer

pub record Client : Type 0 where
  pub agent : Agent
  pub term_mgr : TerminalManager
  pub allow_write : Bool
  pub files : Assoc Text
  pub sent : List Answer  -- the latest first
  pub waits : List Text  -- goroutines of `handleTerminalWaitForExit`: the terminals

send : Answer → Client → Client
send a c = record c { sent = a ∷ c.sent }

-- A request, with what the system makes of it: whether a file can be written, whether a command
-- starts and what it makes of the files, and the code of a process that is killed.
pub data Request : Type 0 where
  fs_read : Text → Option ℤ → Option ℤ → Request
  fs_write : Text → Text → Bool → Request
  terminal_create : Option ℤ → Bool → (Assoc Text → Assoc Text) → Request
  terminal_output terminal_wait_for_exit : Text → Request
  terminal_kill terminal_release : Text → ℤ → Request

pub method_of : Request → Text
method_of (fs_read path line limit) = codes "fs/read_text_file"
method_of (fs_write path content ok) = codes "fs/write_text_file"
method_of (terminal_create limit starts runs) = codes "terminal/create"
method_of (terminal_output id) = codes "terminal/output"
method_of (terminal_wait_for_exit id) = codes "terminal/wait_for_exit"
method_of (terminal_kill id code) = codes "terminal/kill"
method_of (terminal_release id code) = codes "terminal/release"

read_file : Option Text → Option ℤ → Option ℤ → Client → Option Client
unfolding content_of send
read_file none line limit c = some (send failed c)
read_file (some bytes) line limit c = elim (content_of line limit bytes) [
  | none ↦ none
  | some text ↦ some (send (file_content text) c)
]

after_create : Option Text → Client → Client
unfolding send
after_create none c = send failed c
after_create (some id) c = send (created id) c

after_output : Option TermOutputResponse → Client → Client
unfolding send
after_output none c = send failed c
after_output (some response) c = send (term_output response) c

-- Behind the gate; `none` is a panic. A command that is started may do anything to the files, which
-- is taken as done at once.
pub serve : Request → Client → Option Client
unfolding read_file after_create after_output send
serve (fs_read path line limit) c = read_file (lookup path c.files) line limit c
serve (fs_write path bytes ok) c =
    some (
      if ok then send succeeded (record c { files = insert path bytes c.files }) else send failed c)
serve (terminal_create limit starts runs) c =
    let (tm, id) = create starts limit c.term_mgr in
    some (
      after_create id
        (record c { term_mgr = tm; files = if starts then runs c.files else c.files }))
serve (terminal_output id) c = some (after_output (output id c.term_mgr) c)
serve (terminal_wait_for_exit id) c = some (record c { waits = id ∷ c.waits })
serve (terminal_kill id code) c =
    let (tm, found) = kill id code c.term_mgr in
    some (send (if found then succeeded else failed) (record c { term_mgr = tm }))
serve (terminal_release id code) c =
    some (send succeeded (record c { term_mgr = release id code c.term_mgr }))

pub gated : Text → Request → Client → Option Client
unfolding serve method_of
gated sid request c =
    let (agent, denied) = gate_non_owner_tool_call (method_of request) sid c.agent in
    if denied then some (record c { agent = agent }) else serve request c

-- The handler of a request; a write is refused without permission before the gate is asked.
pub handle : Text → Request → Client → Option Client
unfolding gated send
handle sid (fs_write path bytes ok) c =
    if c.allow_write then gated sid (fs_write path bytes ok) c else some (send failed c)
handle sid request c = gated sid request c
