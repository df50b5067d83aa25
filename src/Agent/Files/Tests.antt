-- ===== src/Agent/Files/Tests.antt =====
-- Files, checked.
use ringclaw.Prelude.{
  arith, ℕ, ◌+◌, ◌≡◌, ◌≤◌, ◌↔◌, refl, true, false, none, some, List, [], ◌∷◌, length,
}
use ringclaw.Prelude.Int.{pos}
use ringclaw.Prelude.Text.{Text, codes}
use ringclaw.Prelude.Assoc.{lookup}
use ringclaw.Agent.Session.{Agent}
use ringclaw.Agent.Session.Gate.{OwnerDriven}
use ringclaw.Agent.Terminal.{new_terminal_manager}
use ringclaw.Agent.Files.{
  Client, fs_write, handle, positive, start_of, int_bound, slice, between, end_of, capped, wrapped,
  content_of, split_lines, join_lines, lines_from, join_all,
}
use ringclaw.Agent.Files.Lines.{join_lines-split_lines, slice-panics}
use ringclaw.Agent.Files.Access.{Untouched, handle-Untouched, Kept, handle-Kept}

abbrev agent : Agent
agent = record {
  command = codes "claude";
  args = [];
  restricted_mode_id = [];
  full_access = false;
  started = true;
  sessions = [];
  session_roles = [];
  session_modes = [];
  set_mode_unsupported = false;
  restricted_set_mode_unsupported = [];
  denied_tool_warned = [];
  accepted_modes = [];
  responses = [];
}

abbrev client : Client
client = record {
  agent = agent;
  term_mgr = new_terminal_manager;
  allow_write = true;
  files = (codes "/a", codes "one\ntwo\n") ∷ [];
  sent = [];
  waits = [];
}

unknown_session : ¬ OwnerDriven (codes "s") agent
unfolding lookup
unknown_session (o, e, own) = cc

handle-Untouched_example :
    Untouched client (handle (codes "s") (fs_write (codes "/a") (codes "x") true) client)
handle-Untouched_example =
    handle-Untouched (codes "s") (fs_write (codes "/a") (codes "x") true) client unknown_session

abbrev read_only : Client
read_only = record client { allow_write = false }

handle-Kept_example :
    Kept
      (codes "s")
      (fs_write (codes "/a") (codes "x") true)
      read_only
      (handle (codes "s") (fs_write (codes "/a") (codes "x") true) read_only)
handle-Kept_example =
    handle-Kept (codes "s") (fs_write (codes "/a") (codes "x") true) read_only refl

join_lines-split_lines_example : join_lines (split_lines (codes "a\n\nb")) ≡ codes "a\n\nb"
join_lines-split_lines_example = join_lines-split_lines (codes "a\n\nb")

abbrev two_lines : List Text
two_lines = codes "one\n" ∷ codes "two\n" ∷ []

slice-panics_example : (slice (some (pos 2)) (some (pos 9223372036854775807)) two_lines ≡ none) ↔ (
    (n : ℕ) × (positive (some (pos 9223372036854775807)) ≡ some n)
    × (int_bound ≤ start_of (some (pos 2)) (length two_lines) + n))
slice-panics_example =
    slice-panics (some (pos 2)) (some (pos 9223372036854775807)) two_lines (omega arith)
      (omega arith)

-- The largest number of lines, from the second line on.
second_line_panics :
    content_of (some (pos 2)) (some (pos 9223372036854775807)) (codes "one\ntwo\n") ≡ none
unfolding content_of slice start_of positive between end_of capped wrapped split_lines lines_from
    join_all
second_line_panics = refl
