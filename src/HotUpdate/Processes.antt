-- ===== src/HotUpdate/Processes.antt =====
-- The reading of the process list in `loadHotUpdateFileBySignal` of
-- pkg/plugins/hot_update/executor.go, with what it uses of the packages strings and strconv.
pub mod Find
use Prim.Native.Nat.{◌*◌, ◌-◌}
use Prim.Native.Char.{Char, code}
use kidecar.Base.{
  ℕ, ◌+◌, ◌^◌, String, Bool, true, false, ◌&&◌, ◌||◌, Option, none, some, List, [], ◌∷◌, leb, eqb,
  if◌then◌else◌,
}

-- strings.HasPrefix
has_prefix : String → String → Bool
has_prefix s String.[] = true
has_prefix String.[] (String.◌∷◌ p ps) = false
has_prefix (String.◌∷◌ c s) (String.◌∷◌ p ps) = eqb (code c) (code p) && has_prefix s ps

-- strings.Contains
unfoldable pub contains : String → String → Bool
unfolding has_prefix
contains String.[] t = has_prefix String.[] t
contains (String.◌∷◌ c s) t = has_prefix (String.◌∷◌ c s) t || contains s t

-- unicode.IsSpace
is_space : Char → Bool
is_space c =
    (leb 9 (code c) && leb (code c) 13)
    || eqb (code c) 32
    || eqb (code c) 0x85
    || eqb (code c) 0xa0
    || eqb (code c) 0x1680
    || (leb 0x2000 (code c) && leb (code c) 0x200a)
    || eqb (code c) 0x2028
    || eqb (code c) 0x2029
    || eqb (code c) 0x202f
    || eqb (code c) 0x205f
    || eqb (code c) 0x3000

-- The pieces of a text between separators: the first one, and the others.
pieces : (Char → Bool) → String → String × List String
pieces sep String.[] = (String.[], [])
pieces sep (String.◌∷◌ c s) =
    let (w, ws) = pieces sep s in if sep c then (String.[], w ∷ ws) else (String.◌∷◌ c w, ws)

-- strings.Split(s, "\n")
unfoldable pub split_lines : String → List String
unfolding pieces
split_lines s = let (w, ws) = pieces (λ c. eqb (code c) 10) s in w ∷ ws

drop_empty : List String → List String
drop_empty [] = []
drop_empty (String.[] ∷ ws) = drop_empty ws
drop_empty (String.◌∷◌ c w ∷ ws) = String.◌∷◌ c w ∷ drop_empty ws

-- strings.Fields
unfoldable pub fields : String → List String
unfolding pieces is_space drop_empty
fields s = let (w, ws) = pieces is_space s in drop_empty (w ∷ ws)

-- The value of a text of digits, if it is one.
value : ℕ → String → Option ℕ
value n String.[] = some n
value n (String.◌∷◌ c s) =
    if leb b'0' (code c) && leb (code c) b'9' then value (n * 10 + (code c - b'0')) s else none

digits : String → Option ℕ
unfolding value
digits String.[] = none
digits (String.◌∷◌ c s) = value 0 (String.◌∷◌ c s)

at_most : ℕ → Option ℕ → Bool
at_most limit none = false
at_most limit (some n) = leb n limit

-- Whether strconv.Atoi succeeds: an optional sign, digits, and a value that fits an `int64`.
unfoldable pub is_number : String → Bool
unfolding digits at_most
is_number String.[] = false
is_number (String.◌∷◌ c s) =
    if eqb (code c) b'-'
    then at_most (2 ^ 63) (digits s)
    else if eqb (code c) b'+'
    then at_most (2 ^ 63 - 1) (digits s)
    else at_most (2 ^ 63 - 1) (digits (String.◌∷◌ c s))

-- The inner loop: the first field that is a number.
unfoldable pub first_number : List String → Option String
unfolding is_number
first_number [] = none
first_number (f ∷ fs) = if is_number f then some f else first_number fs

-- The outer loop: the first such field of a line that names the process.
unfoldable pub find_pid : String → List String → Option String
unfolding contains fields first_number
find_pid name [] = none
find_pid name (line ∷ rest) =
    let later = find_pid name rest in
    if contains line name
    then elim (first_number (fields line)) [ some pid ↦ some pid | none ↦ later ]
    else later
