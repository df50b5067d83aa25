-- ===== src/Oob/FullAccess/Readers.antt =====
-- The readers of the grant, section by section: `FullAccessActive` and `FullAccessExpiresAt` of
-- messaging/oob/manager.go take the mutex three times, to clear an expired grant, to read the hook,
-- and to read the grant, and other calls may come between.
use ringclaw.Prelude.{ℕ, zero, suc, ◌+◌, ◌&&◌, not, some, List, [], ◌∷◌, length, if◌then◌else◌, ◌≡◌}
use ringclaw.Oob.FullAccess.Hook.{is_granted}
use ringclaw.Oob.FullAccess.{
  System, Call, set_hook, active, consume_if_expired, fire_revoke_hook, step,
}

-- The manager, and how many readers have cleared a grant and have not yet read the hook.
pub record Readers : Type 0 where
  pub system : System
  pub owed : ℕ

-- A call that takes the mutex once, or a reader's first or second section; its third changes
-- nothing.
pub data Section : Type 0 where
  whole : Call → Section
  consumes : Section
  tells : Section

-- A reader that owes the hook launches it.
unfoldable pub pay_hook : ℕ → Readers → Readers
pay_hook zero r = r
pay_hook (suc n) r = record { system = fire_revoke_hook r.system; owed = n }

unfoldable pub section : Section → Readers → Readers
section (whole c) r = record r { system = step c r.system }
section consumes r =
    let (s, expired) = consume_if_expired r.system in
    record { system = s; owed = if expired then suc r.owed else r.owed }
section tells r = pay_hook r.owed r

unfoldable pub sections : List Section → Readers → Readers
sections [] r = r
sections (s ∷ ss) r = sections ss (section s r)

-- The same schedule with each reader in one step, at its first section.
pub whole_calls : List Section → List Call
whole_calls [] = []
whole_calls (whole c ∷ ss) = c ∷ whole_calls ss
whole_calls (consumes ∷ ss) = active ∷ whole_calls ss
whole_calls (tells ∷ ss) = whole_calls ss

-- The state less the hooks that were launched.
abbrev pub quiet : System → System
quiet s = record s { launched = [] }

-- No call of the schedule puts in another hook.
abbrev pub KeepsHook : Section → Type 0
KeepsHook (whole (set_hook hook)) = ⊥
KeepsHook _ = Unit

-- The hooks that a call launches, where one is installed.
abbrev launches : Call → System → ℕ
launches c s = if is_granted s && not (is_granted (step c s)) then 1 else 0

-- The readers' sections and their one step agree but for the hooks that are still owed.
pub record Agrees (hook : ℕ) (r : Readers) (s : System) : Type 0 where
  pub installed : r.system.revoke_hook ≡ some hook
  pub same : quiet r.system ≡ quiet s
  pub counted : length r.system.launched + r.owed ≡ length s.launched
