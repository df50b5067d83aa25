-- ===== src/Agent/Terminal/Creation.antt =====
-- A new terminal beside those that are there.
use ringclaw.Prelude.{
  ℕ, zero, suc, ◌<◌, true, false, Option, none, some, List, [], ◌∷◌, ◌++◌, length, get_elem?,
  get_elem?-length, if◌then◌else◌, ◌≡◌, inl, inr, refl, arith, Option-cases,
}
use ringclaw.Prelude.Int.{ℤ, pos, negsuc}
use ringclaw.Prelude.Text.{Text, text_eq}
use ringclaw.Prelude.Assoc.{lookup, lookup-insert}
use ringclaw.Agent.Terminal.{
  TerminalManager, term_id, limit_of, new_proc, TermOutputResponse, create, truncated, find_proc,
  output,
}
use ringclaw.Agent.Terminal.Table.{Sound}

get_elem?-append_lt {ℓ} :
    {A : Type ℓ} (xs ys : List A) (i : ℕ) → i < length xs → get_elem? (xs ++ ys) i ≡ get_elem? xs i
get_elem?-append_lt [] ys i h = absurd (omega arith)
get_elem?-append_lt (x ∷ xs) ys zero h = refl
get_elem?-append_lt (x ∷ xs) ys (suc i) h = get_elem?-append_lt xs ys i (omega arith)

create-find_proc :
    (l : Option ℤ) (tm : TerminalManager) (j : Text)
    → Sound tm
    → find_proc j (create true l tm).0 ≡ (
        if text_eq (term_id (suc tm.next_id)) j
        then some (length tm.procs, new_proc l)
        else find_proc j tm)
unfolding create find_proc
create-find_proc l tm j s = elim (Option-cases (lookup j tm.terminals)) [
  | inl e ↦ ground (
    arith,
    lookup-insert (term_id (suc tm.next_id)) j (length tm.procs) tm.terminals,
    get_elem?-length tm.procs (new_proc l),
  )
  | inr (a, e) ↦ ground (
    arith,
    lookup-insert (term_id (suc tm.next_id)) j (length tm.procs) tm.terminals,
    get_elem?-length tm.procs (new_proc l),
    get_elem?-append_lt tm.procs (new_proc l ∷ []) a (s.inside j a e),
  )
]

create_id :
    (l : Option ℤ) (tm : TerminalManager) → (create true l tm).1 ≡ some (term_id (suc tm.next_id))
unfolding create
create_id l tm = refl

fresh-output : (tm : TerminalManager) → Sound tm → output (term_id (suc tm.next_id)) tm ≡ none
unfolding output find_proc
fresh-output tm s = ground (arith, s.fresh (suc tm.next_id) (omega arith))

-- What a process that has just been started answers.
abbrev pub no_output : TermOutputResponse
no_output = record { output = []; truncated = false; exit_status = none }

not-truncated : (l : Option ℤ) → truncated (new_proc l).output ≡ false
unfolding truncated new_proc limit_of
not-truncated none = ground arith
not-truncated (some (pos n)) = ground arith
not-truncated (some (negsuc n)) = refl

new_fields : (l : Option ℤ) → ((new_proc l).output.buf ≡ []) × ((new_proc l).done ≡ false)
unfolding new_proc
new_fields l = (refl, refl)

new_output :
    (l : Option ℤ) (tm : TerminalManager) (j : Text)
    → Sound tm
    → output j (create true l tm).0
      ≡ (if text_eq (term_id (suc tm.next_id)) j then some no_output else output j tm)
unfolding output
new_output l tm j s = ground (arith, create-find_proc l tm j s, not-truncated l, new_fields l)

-- A new terminal takes over no other: after a start the new identifier, which the table did not
-- have, answers with no output and no exit, and every other one answers as before. The two
-- hypotheses hold of any state that is reached.
create-output :
    (output_byte_limit : Option ℤ) (tm : TerminalManager) (id j : Text)
    → Sound tm
    → (create true output_byte_limit tm).1 ≡ some id
    → (output id tm ≡ none)
      × (output j (create true output_byte_limit tm).0
          ≡ (if text_eq id j then some no_output else output j tm))
create-output l tm id j s e =
    let same : term_id (suc tm.next_id) ≡ id = cc (create_id l tm, e) in
    rw (← same) (fresh-output tm s, new_output l tm j s)
