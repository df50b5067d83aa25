-- ===== src/Prelude/Text/Bytes.antt =====
-- The bytes of a Go string: the UTF-8 encoding of its code points.
use Prim.Native.Nat.{ℕ, ◌+◌, ◌/◌, ◌%◌}
use mathlib.Core.Bool.{Bool, true, false}
use mathlib.Core.List.{List, [], ◌∷◌, ◌++◌}
use mathlib.Core.Option.{Option, none, some}
use ringclaw.Prelude.Tests.{if◌then◌else◌, ltb}
use ringclaw.Prelude.Lists.{any}
use ringclaw.Prelude.Text.{Text, text_eq, has_prefix}

abbrev pub Bytes : Type 0
Bytes = List ℕ

-- A byte that goes on: the sixth part of a code point that the divisor names.
abbrev part : ℕ → ℕ → ℕ
part c d = 0x80 + c / d % 64

unfoldable pub encode : ℕ → Bytes
encode c =
    if ltb c 0x80
    then c ∷ []
    else if ltb c 0x800
    then (0xc0 + c / 64) ∷ part c 1 ∷ []
    else if ltb c 0x1_0000
    then (0xe0 + c / 4096) ∷ part c 64 ∷ part c 1 ∷ []
    else (0xf0 + c / 26_2144) ∷ part c 4096 ∷ part c 64 ∷ part c 1 ∷ []

unfoldable pub utf8 : Text → Bytes
utf8 [] = []
utf8 (c ∷ s) = encode c ++ utf8 s

-- The white space that `strings.TrimSpace` takes off.
abbrev spaces : Text
spaces =
    9 ∷ 10 ∷ 11 ∷ 12 ∷ 13 ∷ 32 ∷ 0x85 ∷ 0xa0 ∷ 0x1680 ∷ 0x2000 ∷ 0x2001 ∷ 0x2002 ∷ 0x2003 ∷ 0x2004
    ∷ 0x2005 ∷ 0x2006 ∷ 0x2007 ∷ 0x2008 ∷ 0x2009 ∷ 0x200a ∷ 0x2028 ∷ 0x2029 ∷ 0x202f ∷ 0x205f
    ∷ 0x3000 ∷ []

-- The bytes read of a character that has to be a space: those of a whole one leave nothing, those of
-- a part stay, and no space has any others.
after_bytes : Bytes → Option Bytes
after_bytes read =
    if any (λ c. text_eq (encode c) read) spaces
    then some []
    else if any (λ c. has_prefix (encode c) read) spaces
    then some read
    else none

blank_from : Bytes → Bytes → Bool
blank_from [] [] = true
blank_from (r ∷ read) [] = false
blank_from read (b ∷ s) = elim (after_bytes (read ++ b ∷ [])) [
  | none ↦ false
  | some rest ↦ blank_from rest s
]

-- `strings.TrimSpace(s) == ""`
unfoldable pub is_blank : Bytes → Bool
unfolding blank_from after_bytes
is_blank s = blank_from [] s
