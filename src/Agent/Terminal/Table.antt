-- ===== src/Agent/Terminal/Table.antt =====
-- The table of terminals, through any calls and whatever the processes do.
use ringclaw.Prelude.{
  ℕ, zero, suc, ◌<◌, Bool, true, false, Option, none, some, List, [], ◌∷◌, ◌++◌, length, get_elem?,
  set, if◌then◌else◌, if_intro, length-append, ◌≡◌, ◌≢◌, refl, sym, ap, ◌∙◌, arith,
}
use ringclaw.Prelude.Int.{ℤ}
use ringclaw.Prelude.Text.{Text, text_eq, text_eq_iff}
use ringclaw.Prelude.Assoc.{Assoc, lookup, remove, lookup-insert, lookup-remove}
use ringclaw.Agent.Terminal.{
  TerminalProc, TerminalManager, term_id, new_proc, create, update_proc, writes, exits,
  while_running, kill_proc, find_proc, kill, release, release_all, cleanup, Event, creates, outputs,
  ends, kills, releases, cleans, step, run,
}
use ringclaw.Agent.Terminal.Ids.{term_id-injective}

-- Every identifier of the table has been given out, and leads into the store.
pub record Sound (tm : TerminalManager) : Type 0 where
  pub fresh : (n : ℕ) → tm.next_id < n → lookup (term_id n) tm.terminals ≡ none
  pub inside : (id : Text) (a : ℕ) → lookup id tm.terminals ≡ some a → a < length tm.procs

length-set {ℓ} : {A : Type ℓ} (xs : List A) (i : ℕ) (v : A) → length (set xs i v) ≡ length xs
length-set [] i v = refl
length-set (x ∷ xs) zero v = refl
length-set (x ∷ xs) (suc i) v = ap suc (length-set xs i v)

length-update_proc :
    (a : ℕ) (f : TerminalProc → TerminalProc) (tm : TerminalManager)
    → length (update_proc a f tm).procs ≡ length tm.procs
unfolding update_proc
length-update_proc a f tm =
    elim (get_elem? tm.procs a)
      as (λ o.
        length
          (elim o as (λ _. TerminalManager) [
            | none ↦ tm
            | some p ↦ record tm { procs = set tm.procs a (f p) }
          ]).procs
        ≡ length tm.procs) [ none ↦ refl | some p ↦ length-set tm.procs a (f p) ]

terminals-update_proc :
    (a : ℕ) (f : TerminalProc → TerminalProc) (tm : TerminalManager)
    → ((update_proc a f tm).terminals ≡ tm.terminals) × ((update_proc a f tm).next_id ≡ tm.next_id)
unfolding update_proc
terminals-update_proc a f tm = ground arith

update_proc-Sound :
    (a : ℕ) (f : TerminalProc → TerminalProc) (tm : TerminalManager)
    → Sound tm
    → Sound (update_proc a f tm)
update_proc-Sound a f tm s =
    let (same, next) = terminals-update_proc a f tm in
    record {
      fresh = λ n h. rw same (s.fresh n (rw (sym next) h));
      inside = λ id b e. rw (length-update_proc a f tm) (s.inside id b (rw (sym same) e));
    }

create-Sound :
    (starts : Bool) (output_byte_limit : Option ℤ) (tm : TerminalManager)
    → Sound tm
    → Sound (create starts output_byte_limit tm).0
unfolding create
create-Sound false l tm s = record { fresh = λ n h. s.fresh n (omega arith); inside = s.inside }
create-Sound true l tm s = record {
  fresh = λ n h.
      rw (lookup-insert (term_id (suc tm.next_id)) (term_id n) (length tm.procs) tm.terminals) (
        if_intro (λ o. o ≡ none) (text_eq (term_id (suc tm.next_id)) (term_id n))
          (λ same. absurd (taken n h ((text_eq_iff _ _).0 same))) (λ _. s.fresh n (omega arith)));
  inside = λ id a e.
      placed id a
        (sym (lookup-insert (term_id (suc tm.next_id)) id (length tm.procs) tm.terminals) ∙ e);
}
  where
    taken : (n : ℕ) → suc tm.next_id < n → term_id (suc tm.next_id) ≢ term_id n
    taken n h e = omega (arith, term_id-injective (suc tm.next_id) n e)

    placed :
        (id : Text) (a : ℕ)
        → (if text_eq (term_id (suc tm.next_id)) id
            then some (length tm.procs)
            else lookup id tm.terminals)
          ≡ some a
        → a < length (tm.procs ++ new_proc l ∷ [])
    placed id a e = ground (arith, length-append tm.procs (new_proc l ∷ []), s.inside id a)

kill_proc-Sound :
    (a : ℕ) (code : ℤ) (p : TerminalProc) (tm : TerminalManager)
    → Sound tm
    → Sound (kill_proc a code p tm)
unfolding kill_proc
kill_proc-Sound a code p tm s =
    if_intro Sound p.done (λ _. s) (λ _. update_proc-Sound a (exits code) tm s)

release-Sound :
    (id : Text) (code : ℤ) (tm : TerminalManager) → Sound tm → Sound (release id code tm)
unfolding release
release-Sound id code tm s =
    elim (find_proc id tm)
      as (λ o. Sound (elim o as (λ _. TerminalManager) [
        | none ↦ tm
        | some (a, p) ↦ kill_proc a code p (record tm { terminals = remove id tm.terminals })
      ])) [
        | none ↦ s
        | some (a, p) ↦
            kill_proc-Sound a code p (record tm { terminals = remove id tm.terminals })
              (record {
                fresh =
                    λ n h. ground (arith, lookup-remove id (term_id n) tm.terminals, s.fresh n h);
                inside = λ j b e. ground (arith, lookup-remove id j tm.terminals, s.inside j b);
              })
      ]

release_all-Sound :
    (ids : Assoc ℕ) (code : ℤ) (tm : TerminalManager) → Sound tm → Sound (release_all ids code tm)
unfolding release_all
release_all-Sound [] code tm s = s
release_all-Sound ((id, a) ∷ rest) code tm s =
    release_all-Sound rest code _ (release-Sound id code tm s)

kill-Sound : (id : Text) (code : ℤ) (tm : TerminalManager) → Sound tm → Sound (kill id code tm).0
unfolding kill
kill-Sound id code tm s =
    elim (find_proc id tm)
      as (λ o.
        Sound
          (elim o as (λ _. TerminalManager × Bool) [
            | none ↦ (tm, false)
            | some (a, p) ↦ (kill_proc a code p tm, true)
          ]).0) [ none ↦ s | some (a, p) ↦ kill_proc-Sound a code p tm s ]

step-Sound : (e : Event) (tm : TerminalManager) → Sound tm → Sound (step e tm)
unfolding step cleanup
step-Sound (creates starts l) tm s = create-Sound starts l tm s
step-Sound (outputs a bytes) tm s = update_proc-Sound a (while_running (writes bytes)) tm s
step-Sound (ends a code) tm s = update_proc-Sound a (while_running (exits code)) tm s
step-Sound (kills id code) tm s = kill-Sound id code tm s
step-Sound (releases id code) tm s = release-Sound id code tm s
step-Sound (cleans code) tm s = release_all-Sound tm.terminals code tm s

-- Through any calls, writes and exits, the next identifiers are not in the table, and those that
-- are lead to a process of the store.
pub run-Sound : (events : List Event) (tm : TerminalManager) → Sound tm → Sound (run events tm)
unfolding run
run-Sound [] tm s = s
run-Sound (e ∷ events) tm s = run-Sound events _ (step-Sound e tm s)
