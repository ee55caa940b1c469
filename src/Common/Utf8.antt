-- ===== src/Common/Utf8.antt =====
-- The bytes of a text, and the slashes at its end.
use Prim.Native.Nat.{ℕ, ◌+◌, ◌/◌, ◌%◌}
use Prim.Native.String.{String, [], ◌∷◌}
use Prim.Native.Char.{Char, code}
use mathlib.Core.Bool.{Bool, true}
use mathlib.Core.List.{List, [] as none_left, ◌∷◌ as prepend}
use nostr_storage_orchestrat.Common.Tests.{ltb, nat_beq, ◌==◌, string_eq, if◌then◌else◌}

-- The bytes of one character, by its number, before those of the text that follows.
abbrev bytes_before : ℕ → List ℕ → List ℕ
bytes_before c rest =
    if ltb c 128
    then prepend c rest
    else if ltb c 2048
    then prepend (192 + c / 64) (prepend (128 + c % 64) rest)
    else if ltb c 65536
    then prepend (224 + c / 4096) (prepend (128 + c / 64 % 64) (prepend (128 + c % 64) rest))
    else prepend (240 + c / 262144)
        (prepend (128 + c / 4096 % 64) (prepend (128 + c / 64 % 64) (prepend (128 + c % 64) rest)))

-- `new TextEncoder().encode(text)`, which is UTF-8
unfoldable pub encode : String → List ℕ
encode [] = none_left
encode (c ∷ s) = bytes_before (code c) (encode s)

abbrev strip_before : Bool → Char → String → String
strip_before true c [] = if nat_beq (code c) 47 then [] else c ∷ []
strip_before b c s = c ∷ s

-- `text.replace(/\/+$/, "")`
unfoldable pub strip_slashes : String → String
strip_slashes [] = []
strip_slashes (c ∷ s) = strip_before (strip_slashes s == []) c (strip_slashes s)
