-- ===== src/Agent/Files/Access.antt =====
-- Who reaches files and terminals.
use ringclaw.Prelude.{
  true, false, Option, none, some, if_intro, ◌≡◌, refl, inl, inr, ◌⊎◌, ◌∷◌, arith, Bool-cases,
}
use ringclaw.Prelude.Text.{Text}
use ringclaw.Agent.Session.{Agent, gate_non_owner_tool_call}
use ringclaw.Agent.Session.Gate.{OwnerDriven, gate-exact}
use ringclaw.Agent.Files.{
  Client, Request, fs_read, fs_write, terminal_create, terminal_output, terminal_wait_for_exit,
  terminal_kill, terminal_release, method_of, serve, gated, handle, read_file, send, after_create,
  after_output, failed,
}

-- Nothing is sent but, at most, one refusal.
abbrev pub Refused : Client → Client → Type 0
Refused c d = (d.sent ≡ c.sent) ⊎ (d.sent ≡ failed ∷ c.sent)

-- There is no panic, no file, no terminal and no wait is touched, and nothing is told.
abbrev pub Untouched : Client → Option Client → Type 0
Untouched c none = false ≡ true
Untouched c (some d) =
    (d.files ≡ c.files) × (d.term_mgr ≡ c.term_mgr) × (d.waits ≡ c.waits) × Refused c d

denied_of :
    (sid : Text) (r : Request) (a : Agent)
    → ¬ OwnerDriven sid a
    → (gate_non_owner_tool_call (method_of r) sid a).1 ≡ true
denied_of sid r a n = elim (Bool-cases (gate_non_owner_tool_call (method_of r) sid a).1) [
  | inl e ↦ e
  | inr e ↦ absurd (n ((gate-exact (method_of r) sid a).0.0 e))
]

gated-Untouched :
    (sid : Text) (r : Request) (c : Client)
    → ¬ OwnerDriven sid c.agent
    → Untouched c (gated sid r c)
unfolding gated
gated-Untouched sid r c n = rw (denied_of sid r c.agent n) (refl, refl, refl, inl refl)

-- A request for a session that is unknown, or that no owner drives, touches no file, no terminal
-- and no wait, whatever it asks for, and nothing of them is sent back: beside the gate's own denial
-- there is at most the refusal of a write that is not permitted.
pub handle-Untouched :
    (sid : Text) (r : Request) (c : Client)
    → ¬ OwnerDriven sid c.agent
    → Untouched c (handle sid r c)
unfolding handle send
handle-Untouched sid (fs_write path bytes ok) c n =
    if_intro (Untouched c) c.allow_write (λ _. gated-Untouched sid (fs_write path bytes ok) c n)
      (λ _. (refl, refl, refl, inr refl))
handle-Untouched sid (fs_read path line limit) c n =
    gated-Untouched sid (fs_read path line limit) c n
handle-Untouched sid (terminal_create limit starts runs) c n =
    gated-Untouched sid (terminal_create limit starts runs) c n
handle-Untouched sid (terminal_output id) c n = gated-Untouched sid (terminal_output id) c n
handle-Untouched sid (terminal_wait_for_exit id) c n =
    gated-Untouched sid (terminal_wait_for_exit id) c n
handle-Untouched sid (terminal_kill id code) c n = gated-Untouched sid (terminal_kill id code) c n
handle-Untouched sid (terminal_release id code) c n =
    gated-Untouched sid (terminal_release id code) c n

-- The files are as they were, if there is no panic.
abbrev pub SameFiles : Client → Option Client → Type 0
SameFiles c none = Unit
SameFiles c (some d) = d.files ≡ c.files

-- A command is started.
abbrev pub Starts : Request → Type 0
Starts (terminal_create limit true runs) = Unit
Starts _ = ⊥

-- A write of the file handler.
abbrev IsWrite : Request → Type 0
IsWrite (fs_write path bytes ok) = Unit
IsWrite _ = ⊥

serve-SameFiles : (r : Request) (c : Client) → ¬ IsWrite r → SameFiles c (serve r c) ⊎ Starts r
unfolding serve send after_create after_output read_file
serve-SameFiles (fs_write path bytes ok) c n = absurd (n tt)
serve-SameFiles (fs_read path line limit) c n = inl (ground arith)
serve-SameFiles (terminal_create limit true runs) c n = inr tt
serve-SameFiles (terminal_create limit false runs) c n = inl (ground arith)
serve-SameFiles (terminal_output id) c n = inl (ground arith)
serve-SameFiles (terminal_wait_for_exit id) c n = inl refl
serve-SameFiles (terminal_kill id code) c n = inl refl
serve-SameFiles (terminal_release id code) c n = inl refl

-- The files are the same, or a command is started for a session that an owner drives.
abbrev pub Kept : Text → Request → Client → Option Client → Type 0
Kept sid r c o = SameFiles c o ⊎ (Starts r × OwnerDriven sid c.agent)

gated-Kept : (sid : Text) (r : Request) (c : Client) → ¬ IsWrite r → Kept sid r c (gated sid r c)
unfolding gated
gated-Kept sid r c n = elim (Bool-cases (gate_non_owner_tool_call (method_of r) sid c.agent).1) [
  | inl e ↦ inl (rw e refl)
  | inr e ↦ elim (serve-SameFiles r c n) [
    | inl same ↦ inl (rw e same)
    | inr starts ↦ inr (starts, (gate-exact (method_of r) sid c.agent).0.0 e)
  ]
]

-- Without the permission to write, a request leaves the files as they are, unless it starts a
-- command for a session that an owner drives: what the command then does is not held back by the
-- permission.
pub handle-Kept :
    (sid : Text) (r : Request) (c : Client) → c.allow_write ≡ false → Kept sid r c (handle sid r c)
unfolding handle send
handle-Kept sid (fs_write path bytes ok) c e = inl (rw e refl)
handle-Kept sid (fs_read path line limit) c e = gated-Kept sid (fs_read path line limit) c (λ h. h)
handle-Kept sid (terminal_create limit starts runs) c e =
    gated-Kept sid (terminal_create limit starts runs) c (λ h. h)
handle-Kept sid (terminal_output id) c e = gated-Kept sid (terminal_output id) c (λ h. h)
handle-Kept sid (terminal_wait_for_exit id) c e =
    gated-Kept sid (terminal_wait_for_exit id) c (λ h. h)
handle-Kept sid (terminal_kill id code) c e = gated-Kept sid (terminal_kill id code) c (λ h. h)
handle-Kept sid (terminal_release id code) c e =
    gated-Kept sid (terminal_release id code) c (λ h. h)
