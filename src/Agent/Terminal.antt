-- ===== src/Agent/Terminal.antt =====
-- The terminals that an ACP agent runs through its client: `terminalBuffer` and `terminalManager` of
-- agent/acp_terminal.go. A `*terminalProc` is shared by the table, by the goroutine that waits for
-- the process and by those that wait for its exit, so it lives in a store. What a process writes,
-- whether it starts and how it exits are arguments.
pub mod Buffer
pub mod Ids
pub mod Table
pub mod Creation
pub mod Exit
mod Tests
use Prim.Native.Nat.{◌/◌, ◌%◌}
use ringclaw.Prelude.{
  ℕ, zero, suc, ◌+◌, ◌-◌, Bool, true, false, not, ◌&&◌, Option, none, some, List, [], ◌∷◌, ◌++◌,
  length, get_elem?, set, drop, if◌then◌else◌, ltb, leb,
}
use ringclaw.Prelude.Int.{ℤ, pos, negsuc}
use ringclaw.Prelude.Text.{Text, codes, is_empty}
use ringclaw.Prelude.Assoc.{Assoc, lookup, insert, remove}

-- `terminalBuffer`; the bytes are the buffer's.
pub record TerminalBuffer : Type 0 where
  pub buf : Text
  pub limit : ℤ

-- `data[len(bytes)-limit:]`
abbrev pub keep_last : ℕ → Text → Text
keep_last limit bytes = drop (length bytes - limit) bytes

-- What `Write` keeps of the bytes so far.
abbrev pub truncate : ℤ → Text → Text
truncate (pos limit) bytes =
    if ltb 0 limit && ltb limit (length bytes) then keep_last limit bytes else bytes
truncate (negsuc n) bytes = bytes

pub write : Text → TerminalBuffer → TerminalBuffer
write p b = record b { buf = truncate b.limit (b.buf ++ p) }

pub truncated : TerminalBuffer → Bool
truncated b = elim b.limit [
  | pos limit ↦ ltb 0 limit && leb limit (length b.buf)
  | negsuc n ↦ false
]

pub record TerminalProc : Type 0 where
  pub output : TerminalBuffer
  pub done : Bool
  pub exit_code : Option ℤ

pub record TerminalManager : Type 0 where
  pub terminals : Assoc ℕ  -- from an identifier to the address of its process
  pub next_id : ℕ
  pub procs : List TerminalProc

pub new_terminal_manager : TerminalManager
new_terminal_manager = record { terminals = []; next_id = 0; procs = [] }

-- `%d`, for fewer digits than the fuel.
digits : ℕ → ℕ → Text
digits zero n = []
digits (suc fuel) n =
    let front = digits fuel (n / 10) in
    if ltb n 10 then (b'0' + n) ∷ [] else front ++ (b'0' + n % 10) ∷ []

pub term_id : ℕ → Text
unfolding digits
term_id n = codes "term_" ++ digits (suc n) n

limit_of : Option ℤ → ℤ
limit_of none = pos 0
limit_of (some limit) = limit

new_proc : Option ℤ → TerminalProc
unfolding limit_of
new_proc output_byte_limit = record {
  output = record { buf = []; limit = limit_of output_byte_limit };
  done = false;
  exit_code = none;
}

-- `create`; the first argument tells whether the command starts, `none` is its error.
pub create : Bool → Option ℤ → TerminalManager → TerminalManager × Option Text
unfolding new_proc
create starts output_byte_limit tm =
    let id = term_id (suc tm.next_id) in
    if starts
    then (
      record {
        terminals = insert id (length tm.procs) tm.terminals;
        next_id = suc tm.next_id;
        procs = tm.procs ++ new_proc output_byte_limit ∷ [];
      },
      some id,
    )
    else (record tm { next_id = suc tm.next_id }, none)

update_proc : ℕ → (TerminalProc → TerminalProc) → TerminalManager → TerminalManager
update_proc a f tm = elim (get_elem? tm.procs a) [
  | none ↦ tm
  | some p ↦ record tm { procs = set tm.procs a (f p) }
]

-- The process writes.
pub writes : Text → TerminalProc → TerminalProc
writes bytes p = record p { output = write bytes p.output }

-- The goroutine of `create` records the exit.
pub exits : ℤ → TerminalProc → TerminalProc
exits code p = record p { done = true; exit_code = some code }

find_proc : Text → TerminalManager → Option (ℕ × TerminalProc)
find_proc id tm = elim (lookup id tm.terminals) [
  | none ↦ none
  | some a ↦ elim (get_elem? tm.procs a) [ none ↦ none | some p ↦ some (a, p) ]
]

-- `termOutputResponse`; the exit status is there once the process has exited.
pub record TermOutputResponse : Type 0 where
  pub output : Text
  pub truncated : Bool
  pub exit_status : Option (Option ℤ)

pub output : Text → TerminalManager → Option TermOutputResponse
unfolding find_proc truncated
output id tm = elim (find_proc id tm) [
  | none ↦ none
  | some (a, p) ↦ some (record {
    output = p.output.buf;
    truncated = truncated p.output;
    exit_status = if p.done then some p.exit_code else none;
  })
]

pub data Waited : Type 0 where
  not_found blocked : Waited
  exited : Option ℤ → Waited

-- `waitForExit`, at the moment that it looks at the channel `done`.
pub wait_for_exit : Text → TerminalManager → Waited
unfolding find_proc
wait_for_exit id tm = elim (find_proc id tm) [
  | none ↦ not_found
  | some (a, p) ↦ if p.done then exited p.exit_code else blocked
]

-- A process is killed unless it has exited, and its exit is waited for; the code is the one that the
-- runtime gives to it.
kill_proc : ℕ → ℤ → TerminalProc → TerminalManager → TerminalManager
kill_proc a code p tm = if p.done then tm else update_proc a (exits code) tm

-- `kill`, to its return; `false` is "not found".
pub kill : Text → ℤ → TerminalManager → TerminalManager × Bool
kill id code tm = elim (find_proc id tm) [
  | none ↦ (tm, false)
  | some (a, p) ↦ (kill_proc a code p tm, true)
]

pub release : Text → ℤ → TerminalManager → TerminalManager
release id code tm = elim (find_proc id tm) [
  | none ↦ tm
  | some (a, p) ↦ kill_proc a code p (record tm { terminals = remove id tm.terminals })
]

-- `cleanup`: the identifiers are read first, then released in the order of the map.
release_all : Assoc ℕ → ℤ → TerminalManager → TerminalManager
release_all [] code tm = tm
release_all ((id, a) ∷ rest) code tm = release_all rest code (release id code tm)

pub cleanup : ℤ → TerminalManager → TerminalManager
unfolding release_all
cleanup code tm = release_all tm.terminals code tm

-- What the system lets a process do: one that has exited does nothing more, and its goroutine has
-- returned.
while_running : (TerminalProc → TerminalProc) → TerminalProc → TerminalProc
while_running f p = if p.done then p else f p

-- The calls, and what the processes do between them.
pub data Event : Type 0 where
  creates : Bool → Option ℤ → Event
  outputs : ℕ → Text → Event
  ends : ℕ → ℤ → Event
  kills releases : Text → ℤ → Event
  cleans : ℤ → Event

pub step : Event → TerminalManager → TerminalManager
unfolding update_proc while_running
step (creates starts output_byte_limit) tm = (create starts output_byte_limit tm).0
step (outputs a bytes) tm = update_proc a (while_running (writes bytes)) tm
step (ends a code) tm = update_proc a (while_running (exits code)) tm
step (kills id code) tm = (kill id code tm).0
step (releases id code) tm = release id code tm
step (cleans code) tm = cleanup code tm

pub run : List Event → TerminalManager → TerminalManager
run [] tm = tm
run (e ∷ events) tm = run events (step e tm)
