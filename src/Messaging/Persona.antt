-- ===== src/Messaging/Persona.antt =====
-- The memories of messaging/persona: `SanitizeID` and `IsSafeID` of sanitize.go, and the store of
-- store.go. Identifiers, paths and entries are text, which is written in UTF-8, and the files are a
-- map from a path to its bytes; a time stamp and whether the system lets a file be written are arguments, and a file that
-- is there can be read. SOUL.md, which no command writes, is not kept.
pub mod Ids
pub mod Caps
mod Tests
use ringclaw.Prelude.{
  ℕ, zero, suc, ◌+◌, ◌-◌, ◌==◌, Bool, true, false, not, ◌&&◌, ◌||◌, Option, none, some, List, [],
  ◌∷◌, ◌++◌, length, take, drop, if◌then◌else◌, ltb, leb,
}
use ringclaw.Prelude.Int.{ℤ, pos, negsuc}
use ringclaw.Prelude.Text.{Text, codes, trim_space, is_empty}
use ringclaw.Prelude.Text.Bytes.{Bytes, utf8}
use ringclaw.Prelude.Assoc.{Assoc, lookup, insert, remove}

pub data Scope : Type 0 where
  global user chat : Scope

-- `ResolvedConfig`, as far as memories go.
pub record ResolvedConfig : Type 0 where
  pub memory_dir : Text
  pub max_global_memory_chars : ℤ
  pub max_user_memory_chars : ℤ
  pub max_chat_memory_chars : ℤ

abbrev pub max_sanitized_id_len : ℕ
max_sanitized_id_len = 64

-- The `switch` of `SanitizeID`.
unfoldable pub is_safe_char : ℕ → Bool
is_safe_char r =
    leb b'a' r && leb r b'z'
    || leb b'A' r && leb r b'Z'
    || leb b'0' r && leb r b'9'
    || r == b'_'
    || r == b'-'

unfoldable pub replace_unsafe : Text → Text
replace_unsafe [] = []
replace_unsafe (r ∷ s) = (if is_safe_char r then r else b'_') ∷ replace_unsafe s

unfoldable pub sanitize_id : Text → Text
sanitize_id [] = codes "_"
sanitize_id (r ∷ s) =
    let out = replace_unsafe (r ∷ s) in
    if ltb max_sanitized_id_len (length out) then take max_sanitized_id_len out else out

-- The `switch` of `IsSafeID`.
unfoldable pub is_accepted_char : ℕ → Bool
is_accepted_char r =
    leb b'a' r && leb r b'z'
    || leb b'A' r && leb r b'Z'
    || leb b'0' r && leb r b'9'
    || r == b'_'
    || r == b'-'

unfoldable pub all_safe : Text → Bool
all_safe [] = true
all_safe (r ∷ s) = is_accepted_char r && all_safe s

-- `len` counts bytes; a text with a character outside ASCII is refused by the loop in any case.
unfoldable pub is_safe_id : Text → Bool
is_safe_id s = not (is_empty s) && not (ltb max_sanitized_id_len (length s)) && all_safe s

-- The path below the memory directory; `none`: no directory is configured.
unfoldable pub memory_file_path : ResolvedConfig → Scope → Text → Option Text
memory_file_path cfg global id = if is_empty cfg.memory_dir then none else some (codes "global.md")
memory_file_path cfg user id =
    if is_empty cfg.memory_dir then none else some (codes "user/" ++ sanitize_id id ++ codes ".md")
memory_file_path cfg chat id =
    if is_empty cfg.memory_dir then none else some (codes "chat/" ++ sanitize_id id ++ codes ".md")

unfoldable pub cap : ResolvedConfig → Scope → ℤ
cap cfg global = cfg.max_global_memory_chars
cap cfg user = cfg.max_user_memory_chars
cap cfg chat = cfg.max_chat_memory_chars

abbrev truncation_marker : Bytes
truncation_marker = codes "\n...[older entries truncated]...\n\n"

-- `s[len(s)-n:]`
abbrev tail_of : ℕ → Bytes → Bytes
tail_of n s = drop (length s - n) s

unfoldable pub truncate_tail : Bytes → ℤ → Bytes
truncate_tail s (negsuc n) = s
truncate_tail s (pos max) =
    if max == 0 || leb (length s) max
    then s
    else if leb max (length truncation_marker)
    then tail_of max s
    else truncation_marker ++ tail_of (max - length truncation_marker) s

-- A missing file reads as empty.
unfoldable pub contents : Option Bytes → Bytes
contents none = []
contents (some bytes) = bytes

-- `LoadMemory` behind the path.
unfoldable pub load_at : Option Text → ℤ → Assoc Bytes → Option Bytes
load_at none max files = none
load_at (some path) max files = some (truncate_tail (contents (lookup path files)) max)

unfoldable pub load_memory : ResolvedConfig → Scope → Text → Assoc Bytes → Option Bytes
load_memory cfg scope id files = load_at (memory_file_path cfg scope id) (cap cfg scope) files

-- The line that an entry becomes.
unfoldable pub entry_line : Text → Text → Bytes
entry_line timestamp entry =
    utf8 (codes "- [" ++ timestamp ++ codes "] " ++ trim_space entry ++ codes "\n")

-- The files behind a write and behind a removal, which the system may refuse, and whether it
-- was done.
unfoldable pub write_file : Bool → Text → Bytes → Assoc Bytes → Assoc Bytes × Bool
write_file writable path bytes files =
    if writable then (insert path bytes files, true) else (files, false)

unfoldable pub remove_file : Bool → Text → Assoc Bytes → Assoc Bytes × Bool
remove_file writable path files = if writable then (remove path files, true) else (files, false)

-- `AppendMemory` behind the path.
unfoldable pub append_at : Option Text → Bool → Bytes → ℤ → Assoc Bytes → Assoc Bytes × Bool
append_at none writable line max files = (files, false)
append_at (some path) writable line max files =
    write_file writable path (truncate_tail (contents (lookup path files) ++ line) max) files

unfoldable pub append_memory :
    ResolvedConfig → Text → Bool → Scope → Text → Text → Assoc Bytes → Assoc Bytes × Bool
append_memory cfg timestamp writable scope id entry files =
    if is_empty (trim_space entry)
    then (files, false)
    else append_at (memory_file_path cfg scope id) writable (entry_line timestamp entry)
        (cap cfg scope) files

-- `ClearMemory` behind the path.
unfoldable pub clear_at : Option Text → Bool → Assoc Bytes → Assoc Bytes × Bool
clear_at none writable files = (files, false)
clear_at (some path) writable files = remove_file writable path files

unfoldable pub clear_memory :
    ResolvedConfig → Bool → Scope → Text → Assoc Bytes → Assoc Bytes × Bool
clear_memory cfg writable scope id files = clear_at (memory_file_path cfg scope id) writable files
