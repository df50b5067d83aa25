-- ===== src/Agent/Terminal/Exit.antt =====
-- Exits and limits, through any calls and whatever the processes do.
use ringclaw.Prelude.{
  ℕ, Bool, true, false, Option, some, List, [], ◌∷◌, get_elem?, get_elem?-set, get_elem?-append,
  ◌≡◌, ◌≢◌, inl, inr, refl, arith, Option-cases,
}
use ringclaw.Prelude.Int.{ℤ}
use ringclaw.Prelude.Text.{Text}
use ringclaw.Prelude.Assoc.{Assoc, lookup, remove}
use ringclaw.Agent.Terminal.{
  TerminalProc, TerminalManager, new_proc, create, update_proc, writes, exits, while_running,
  kill_proc, find_proc, kill, release, release_all, cleanup, blocked, wait_for_exit, Event, creates,
  outputs, ends, kills, releases, cleans, step, run,
}

-- The process at an address, and that it has exited.
abbrev pub Exited : ℕ → TerminalProc → TerminalManager → Type 0
Exited a p tm = (get_elem? tm.procs a ≡ some p) × (p.done ≡ true)

-- A change that spares processes that have exited.
abbrev Spares : (TerminalProc → TerminalProc) → Type 0
Spares f = (p : TerminalProc) → p.done ≡ true → f p ≡ p

while_running-Spares : (f : TerminalProc → TerminalProc) → Spares (while_running f)
unfolding while_running
while_running-Spares f p d = rw d refl

update-Exited :
    (a b : ℕ) (p : TerminalProc) (f : TerminalProc → TerminalProc) (tm : TerminalManager)
    → Spares f
    → Exited a p tm
    → Exited a p (update_proc b f tm)
unfolding update_proc
update-Exited a b p f tm g (e, d) = elim (Option-cases (get_elem? tm.procs b)) [
  | inl none_at ↦ (ground (arith, none_at), d)
  | inr (q, at) ↦ (ground (arith, at, g p d, get_elem?-set tm.procs b a (f q)), d)
]

create-Exited :
    (a : ℕ) (p : TerminalProc) (starts : Bool) (l : Option ℤ) (tm : TerminalManager)
    → Exited a p tm
    → Exited a p (create starts l tm).0
unfolding create
create-Exited a p true l tm (e, d) = (get_elem?-append tm.procs (new_proc l ∷ []) a e, d)
create-Exited a p false l tm h = h

-- Killing a process that has not exited touches no other.
kill_proc-Exited :
    (a b : ℕ) (p q : TerminalProc) (code : ℤ) (tm : TerminalManager)
    → get_elem? tm.procs b ≡ some q
    → Exited a p tm
    → Exited a p (kill_proc b code q tm)
unfolding kill_proc update_proc
kill_proc-Exited a b p q code tm at (e, d) =
    (ground (arith, at, get_elem?-set tm.procs b a (exits code q)), d)

find_proc-at :
    (id : Text) (tm : TerminalManager) (b : ℕ) (q : TerminalProc)
    → find_proc id tm ≡ some (b, q)
    → get_elem? tm.procs b ≡ some q
unfolding find_proc
find_proc-at id tm b q e = elim (Option-cases (lookup id tm.terminals)) [
  | inl none_at ↦ absurd (ground arith)
  | inr (c, at) ↦ elim (Option-cases (get_elem? tm.procs c)) [
    | inl none_at ↦ absurd (ground arith)
    | inr (p, here) ↦ ground arith
  ]
]

release-Exited :
    (a : ℕ) (p : TerminalProc) (id : Text) (code : ℤ) (tm : TerminalManager)
    → Exited a p tm
    → Exited a p (release id code tm)
unfolding release
release-Exited a p id code tm h = elim (Option-cases (find_proc id tm)) [
  | inl e ↦ rw (e, release) h
  | inr ((b, q), e) ↦
      rw (e, release)
        (kill_proc-Exited a b p q code (record tm { terminals = remove id tm.terminals })
          (find_proc-at id tm b q e) h)
]

kill-Exited :
    (a : ℕ) (p : TerminalProc) (id : Text) (code : ℤ) (tm : TerminalManager)
    → Exited a p tm
    → Exited a p (kill id code tm).0
unfolding kill
kill-Exited a p id code tm h = elim (Option-cases (find_proc id tm)) [
  | inl e ↦ rw (e, kill) h
  | inr ((b, q), e) ↦ rw (e, kill) (kill_proc-Exited a b p q code tm (find_proc-at id tm b q e) h)
]

release_all-Exited :
    (a : ℕ) (p : TerminalProc) (ids : Assoc ℕ) (code : ℤ) (tm : TerminalManager)
    → Exited a p tm
    → Exited a p (release_all ids code tm)
unfolding release_all
release_all-Exited a p [] code tm h = h
release_all-Exited a p ((id, b) ∷ rest) code tm h =
    release_all-Exited a p rest code _ (release-Exited a p id code tm h)

step-Exited :
    (a : ℕ) (p : TerminalProc) (e : Event) (tm : TerminalManager)
    → Exited a p tm
    → Exited a p (step e tm)
unfolding step cleanup
step-Exited a p (creates starts l) tm h = create-Exited a p starts l tm h
step-Exited a p (outputs b bytes) tm h =
    update-Exited a b p (while_running (writes bytes)) tm (while_running-Spares (writes bytes)) h
step-Exited a p (ends b code) tm h =
    update-Exited a b p (while_running (exits code)) tm (while_running-Spares (exits code)) h
step-Exited a p (kills id code) tm h = kill-Exited a p id code tm h
step-Exited a p (releases id code) tm h = release-Exited a p id code tm h
step-Exited a p (cleans code) tm h = release_all-Exited a p tm.terminals code tm h

-- If a process that has exited does nothing more, its record is final: no later kill, release,
-- clean-up or new terminal changes what it has written and how it has exited.
run-Exited :
    (events : List Event) (a : ℕ) (p : TerminalProc) (tm : TerminalManager)
    → Exited a p tm
    → Exited a p (run events tm)
unfolding run
run-Exited [] a p tm h = h
run-Exited (e ∷ events) a p tm h = run-Exited events a p _ (step-Exited a p e tm h)

-- After `kill` has found its terminal, a wait for its exit does not block.
pub kill-wait_for_exit :
    (id : Text) (code : ℤ) (tm : TerminalManager)
    → (kill id code tm).1 ≡ true
    → wait_for_exit id (kill id code tm).0 ≢ blocked
unfolding kill wait_for_exit find_proc update_proc kill_proc exits
kill-wait_for_exit id code tm h = elim (Option-cases (lookup id tm.terminals)) [
  | inl e ↦ absurd (ground arith)
  | inr (a, e) ↦ elim (Option-cases (get_elem? tm.procs a)) [
    | inl none_at ↦ absurd (ground arith)
    | inr (p, at) ↦ λ b. absurd (ground (arith, get_elem?-set tm.procs a a (exits code p)))
  ]
]
