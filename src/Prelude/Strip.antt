-- ===== src/Prelude/Strip.antt =====
-- Python's `str.strip()`.
use Prim.Native.Nat.{ℕ}
use Prim.Native.Char.{Char, code}
use Prim.Native.String.{String}
use mathlib.Core.Bool.{Bool, ◌&&◌, ◌||◌}
use smart_email_manager.Prelude.Tests.{leb, ◌==◌, if◌then◌else◌}

-- str.isspace of one character
unfoldable pub is_space : ℕ → Bool
is_space c =
    leb 9 c && leb c 13
    || leb 28 c && leb c 32
    || c == 133
    || c == 160
    || c == 5760
    || leb 8192 c && leb c 8202
    || c == 8232
    || c == 8233
    || c == 8239
    || c == 8287
    || c == 12288

unfoldable pub drop_spaces : String → String
unfolding is_space
drop_spaces String.[] = String.[]
drop_spaces (String.◌∷◌ c s) =
    let rest = drop_spaces s in if is_space (code c) then rest else String.◌∷◌ c s

abbrev pub keep_char : Char → String → String
keep_char c String.[] = if is_space (code c) then String.[] else String.◌∷◌ c String.[]
keep_char c (String.◌∷◌ d s) = String.◌∷◌ c (String.◌∷◌ d s)

unfoldable pub drop_end : String → String
unfolding is_space
drop_end String.[] = String.[]
drop_end (String.◌∷◌ c s) = keep_char c (drop_end s)

unfoldable pub strip : String → String
unfolding drop_spaces drop_end
strip s = drop_end (drop_spaces s)
