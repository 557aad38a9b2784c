-- ===== src/HotUpdate/Processes/Find.antt =====
-- The process that is signalled.
use kidecar.Base.{
  String, ◌≡◌, refl, ap, subst, Bool-cases, inl, inr, ◌⊎◌, true, false, Option, Option-cases, none,
  some, List, [], ◌∷◌, ◌++◌, All,
}
use kidecar.HotUpdate.Processes.{contains, fields, is_number, first_number, find_pid}

abbrev pub NoNumber : List String → Type 0
NoNumber words = All (λ w. is_number w ≡ false) words

-- The word is a number, and the words in front of it are none.
abbrev pub IsFirstNumber : String → List String → Type 0
IsFirstNumber pid words =
    (before : List String) × (after : List String) × (words ≡ before ++ pid ∷ after)
    × NoNumber before
    × (is_number pid ≡ true)

-- What the inner loop promises.
abbrev Picked : List String → Option String → Type 0
Picked words none = NoNumber words
Picked words (some pid) = IsFirstNumber pid words

skipped :
    (w : String) (words : List String) (o : Option String)
    → is_number w ≡ false
    → Picked words o
    → Picked (w ∷ words) o
skipped w words none n p = (n, p)
skipped w words (some pid) n p = (w ∷ p.0, p.1, ap (◌∷◌ w) p.2, (n, p.3), p.4)

first_number-Picked : (words : List String) → Picked words (first_number words)
unfolding first_number
first_number-Picked [] = tt
first_number-Picked (w ∷ words) = elim (Bool-cases (is_number w)) [
  | inl y ↦
      let q : some w ≡ first_number (w ∷ words) = rw (first_number, y) refl in
      subst (Picked (w ∷ words)) q ([], words, refl, tt, y)
  | inr n ↦
      let q : first_number words ≡ first_number (w ∷ words) = rw (first_number, n) refl in
      subst (Picked (w ∷ words)) q
        (skipped w words (first_number words) n (first_number-Picked words))
]

-- A line that gives no process: it does not name it, or has no number.
abbrev pub IsPassed : String → String → Type 0
IsPassed name line = (contains line name ≡ false) ⊎ NoNumber (fields line)

unfoldable pub AllPassed : String → List String → Type 0
AllPassed name [] = Unit
AllPassed name (line ∷ rest) = IsPassed name line × AllPassed name rest

-- What the search promises.
abbrev pub Found : String → List String → Option String → Type 0
Found name lines none = AllPassed name lines
Found name lines (some pid) =
    (before : List String) × (line : String) × (after : List String) × (lines
      ≡ before ++ line ∷ after)
    × AllPassed name before
    × (contains line name ≡ true)
    × IsFirstNumber pid (fields line)

passed :
    (name line : String) (rest : List String) (o : Option String)
    → IsPassed name line
    → Found name rest o
    → Found name (line ∷ rest) o
unfolding AllPassed
passed name line rest none p f = (p, f)
passed name line rest (some pid) p f = (line ∷ f.0, f.1, f.2, ap (◌∷◌ line) f.3, (p, f.4), f.5, f.6)

-- The search over the lines of the process list ends with a word that is a number, of a line that
-- contains the name: no word in front of it is a number, and no line in front of that line both
-- contains the name and has a number. It ends with nothing only if no line does.
pub find_pid-Found : (name : String) (lines : List String) → Found name lines (find_pid name lines)
unfolding find_pid AllPassed
find_pid-Found name [] = tt
find_pid-Found name (line ∷ rest) = elim (Bool-cases (contains line name)) [
  | inl c ↦ elim (Option-cases (first_number (fields line))) [
    | inl n ↦
        let q : find_pid name rest ≡ find_pid name (line ∷ rest) = rw (find_pid, c, n) refl in
        subst (Found name (line ∷ rest)) q (
          passed name line rest (find_pid name rest)
            (inr (subst (Picked (fields line)) n (first_number-Picked (fields line))))
            (find_pid-Found name rest))
    | inr n ↦
        let q : some n.0 ≡ find_pid name (line ∷ rest) = rw (find_pid, c, n.1) refl in
        subst (Found name (line ∷ rest)) q (
          [],
          line,
          rest,
          refl,
          tt,
          c,
          subst (Picked (fields line)) n.1 (first_number-Picked (fields line)),
        )
  ]
  | inr c ↦
      let q : find_pid name rest ≡ find_pid name (line ∷ rest) = rw (find_pid, c) refl in
      subst (Found name (line ∷ rest)) q
        (passed name line rest (find_pid name rest) (inl c) (find_pid-Found name rest))
]
