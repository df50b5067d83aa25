-- ===== src/Messaging/Commands/Tests.antt =====
-- Commands, checked.
use ringclaw.Prelude.{◌≡◌, refl, true, [], ◌∷◌, arith}
use ringclaw.Prelude.Text.{codes, text_eq, has_prefix, trim_space, trim_left, trim_right, is_space}
use ringclaw.Prelude.Assoc.{lookup}
use ringclaw.Messaging.Commands.{
  parse_loop, parse_command, unique, resolve_alias, resolve_all, strip_forwarded_prefix,
}
use ringclaw.Messaging.Commands.Names.{ends, parse_loop-ends, Distinct, parse_command-Distinct}
use ringclaw.Messaging.Commands.RoundTrip.{spell, parse_command-spell}

parse_loop-ends_example : ends (parse_loop 8 [] (codes "/a /b")) ≡ true
parse_loop-ends_example = parse_loop-ends 8 [] (codes "/a /b") (omega arith)

parse_command-spell_example :
    parse_command [] (spell (codes "cc" ∷ codes "cx" ∷ []) (codes "hi"))
    ≡ (unique [] (resolve_all [] (codes "cc" ∷ codes "cx" ∷ [])), codes "hi")
unfolding trim_left trim_right is_space has_prefix
parse_command-spell_example =
    parse_command-spell [] (codes "cc" ∷ codes "cx" ∷ []) (codes "hi")
      (((cc), refl), (((cc), refl), tt)) ((cc), refl, refl, refl)

parse_command-Distinct_example : Distinct (parse_command [] (codes "/cc /claude hi")).0
parse_command-Distinct_example = parse_command-Distinct [] (codes "/cc /claude hi")

-- An alias and its agent are one name.
aliases_are_resolved : parse_command [] (codes "/cc /claude hi") ≡ (codes "claude" ∷ [], codes "hi")
unfolding parse_command parse_loop has_prefix trim_space unique resolve_alias text_eq lookup
aliases_are_resolved = refl

-- The quoted text of a forwarded message is what is read.
forwarded_is_stripped :
    strip_forwarded_prefix (codes "Ann posted in ![:Team](5)\n> one\n> two") ≡ codes "one\ntwo"
unfolding strip_forwarded_prefix
forwarded_is_stripped = refl
