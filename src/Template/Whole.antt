-- ===== src/Template/Whole.antt =====
-- An expression inside of a longer text.
use Prim.Native.Char.{Char, code}
use Prim.Native.String.{◌++◌ as str_append}
use kidecar.Base.{String, Bool, true, false, eqb, if◌then◌else◌}

-- Whether a character is in a text.
unfoldable pub has_char : Char → String → Bool
has_char a String.[] = false
has_char a (String.◌∷◌ c s) =
    let rest = has_char a s in if eqb (code c) (code a) then true else rest

-- A text behind `${SELF:`.
abbrev pub open_self : String → String
open_self s = String.◌∷◌ "$" (
    String.◌∷◌ "{"
      (String.◌∷◌ "S" (String.◌∷◌ "E" (String.◌∷◌ "L" (String.◌∷◌ "F" (String.◌∷◌ ":" s))))))

-- `${SELF:NAME}`, and a text behind it.
abbrev pub expression : String → String → String
expression name post = open_self (str_append name (String.◌∷◌ "}" post))
