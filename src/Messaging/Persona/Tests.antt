-- ===== src/Messaging/Persona/Tests.antt =====
-- The memory store, checked.
use ringclaw.Prelude.{◌∷◌, ◌++◌, true, [], ◌++◌, ◌≡◌, refl, ◌↔◌}
use ringclaw.Prelude.Int.{pos}
use ringclaw.Prelude.Text.{codes, trim_space, trim_left, trim_right, is_space}
use ringclaw.Prelude.Text.Bytes.{utf8, encode}
use ringclaw.Messaging.Persona.{
  ResolvedConfig, sanitize_id, replace_unsafe, is_safe_char, is_safe_id, truncate_tail, entry_line,
}
use ringclaw.Messaging.Persona.Ids.{FileName, sanitize_id-fixed}

abbrev cfg : ResolvedConfig
cfg = record {
  memory_dir = codes "/m";
  max_global_memory_chars = pos 100;
  max_user_memory_chars = pos 12;
  max_chat_memory_chars = pos 0;
}

-- A path that leads out of the directory becomes a plain name.
traversal_is_replaced : sanitize_id (codes "../etc") ≡ codes "___etc"
unfolding sanitize_id replace_unsafe is_safe_char
traversal_is_replaced = refl

sanitize_id-fixed_example :
    FileName (sanitize_id (codes "../etc"))
    × (is_safe_id (sanitize_id (codes "../etc")) ≡ true)
    × ((is_safe_id (codes "../etc") ≡ true) ↔ (sanitize_id (codes "../etc") ≡ codes "../etc"))
sanitize_id-fixed_example = sanitize_id-fixed (codes "../etc")

old_entries_go :
    truncate_tail (codes "- [t0] tea\n" ++ entry_line (codes "t1") (codes " bread ")) (pos 13)
    ≡ codes "- [t1] bread\n"
unfolding truncate_tail entry_line utf8 encode trim_space trim_left trim_right is_space
old_entries_go = refl

-- An umlaut counts for two bytes.
umlaut_is_encoded : entry_line (codes "t") (0xe4 ∷ []) ≡ codes "- [t] " ++ 0xc3 ∷ 0xa4 ∷ codes "\n"
unfolding entry_line utf8 encode trim_space trim_left trim_right is_space
umlaut_is_encoded = refl
