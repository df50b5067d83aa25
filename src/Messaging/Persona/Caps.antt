-- ===== src/Messaging/Persona/Caps.antt =====
-- How long a memory gets.
use ringclaw.Prelude.{◌==◌, Bool, true, ◌||◌, length, leb}
use ringclaw.Prelude.Int.{ℤ, pos, negsuc}
use ringclaw.Prelude.Text.{Text}
use ringclaw.Prelude.Text.Bytes.{Bytes}
use ringclaw.Prelude.Assoc.{Assoc}

-- At most so many bytes, if there is a limit.
abbrev pub fits : ℤ → Bytes → Bool
fits (negsuc n) s = true
fits (pos max) s = max == 0 || leb (length s) max
