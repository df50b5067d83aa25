-- ===== src/Agent/Terminal/Tests.antt =====
-- Terminals, checked.
use ringclaw.Prelude.{◌≡◌, refl, true, false, none, some, List, [], ◌∷◌, concat}
use ringclaw.Prelude.Int.{pos}
use ringclaw.Prelude.Text.{Text, codes}
use ringclaw.Prelude.Assoc.{lookup}
use ringclaw.Agent.Terminal.{
  TerminalProc, write, truncated, term_id, digits, new_terminal_manager, create, new_proc, limit_of,
  writes, exits, update_proc, creates, outputs, ends, Event, step, run,
}
use ringclaw.Agent.Terminal.Buffer.{write_all, filled, write_all-truncate, truncated_complete}
use ringclaw.Agent.Terminal.Table.{Sound, run-Sound}
use ringclaw.Agent.Terminal.Exit.{Exited}

abbrev chunks : List Text
chunks = codes "abc" ∷ codes "de" ∷ []

write_all-truncate_example :
    (write_all chunks (record { buf = codes "x"; limit = pos 3 })).buf ≡ codes "cde"
write_all-truncate_example =
    write_all-truncate chunks (record { buf = codes "x"; limit = pos 3 }) (codes "x") refl

-- Nothing is lost, and the output is called truncated.
full_is_truncated :
    ((filled (pos 5) chunks).buf ≡ concat chunks) × (truncated (filled (pos 5) chunks) ≡ true)
unfolding truncated write
full_is_truncated = (refl, refl)

truncated_complete_example : (filled (pos 6) chunks).buf ≡ concat chunks
unfolding truncated write
truncated_complete_example = truncated_complete (pos 6) chunks refl

abbrev events : List Event
events = creates true none ∷ creates false none ∷ outputs 0 (codes "hi") ∷ ends 0 (pos 0) ∷ []

new-Sound : Sound new_terminal_manager
unfolding new_terminal_manager lookup
new-Sound = record { fresh = λ n h. refl; inside = λ id a e. cc }

run-Sound_example : Sound (run events new_terminal_manager)
run-Sound_example = run-Sound events new_terminal_manager new-Sound

first_id : (create true none new_terminal_manager).1 ≡ some (codes "term_1")
unfolding create term_id digits new_terminal_manager
first_id = refl

abbrev ended : TerminalProc
ended = record {
  output = record { buf = codes "hi"; limit = pos 0 };
  done = true;
  exit_code = some (pos 0);
}

first_has_ended : Exited 0 ended (run events new_terminal_manager)
unfolding run step create update_proc writes exits new_proc limit_of new_terminal_manager write
first_has_ended = (refl, refl)
