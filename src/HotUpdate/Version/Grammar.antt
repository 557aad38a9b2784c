-- ===== src/HotUpdate/Version/Grammar.antt =====
-- The texts that isValidVersion accepts, as the texts that a list of numbers prints to.
use Prim.Native.Char.{Char, code}
use text.Mathlib.TextEquality.{Char-path}
use kidecar.Base.{
  String, ◌≡◌, ◌↔◌, refl, ap, ◌∙◌, Bool, true, false, Bool-cases, inl, inr, List, [], ◌∷◌, arith,
  eqb, ◌&&◌,
}
use kidecar.HotUpdate.Version.{is_digit, digit_groups, is_valid_version}

-- A number is its first digit and the others.
abbrev pub Number : Type 0
Number = Char × List Char

abbrev AllDigits : List Char → Type 0
AllDigits [] = Unit
AllDigits (c ∷ cs) = (is_digit c ≡ true) × AllDigits cs

abbrev pub AreNumbers : List Number → Type 0
AreNumbers [] = Unit
AreNumbers ((c, cs) ∷ ns) = (is_digit c ≡ true) × AllDigits cs × AreNumbers ns

print_chars : List Char → String → String
print_chars [] s = s
print_chars (c ∷ cs) s = String.◌∷◌ c (print_chars cs s)

-- The numbers, each behind a dot.
print_more : List Number → String
unfolding print_chars
print_more [] = ""
print_more ((c, cs) ∷ ns) = String.◌∷◌ "." (String.◌∷◌ c (print_chars cs (print_more ns)))

-- `v`, and the numbers with dots between them.
unfoldable pub print_version : Number → List Number → String
unfolding print_chars print_more
print_version (c, cs) ns = String.◌∷◌ "v" (String.◌∷◌ c (print_chars cs (print_more ns)))

groups-chars :
    (cs : List Char) (s : String)
    → AllDigits cs
    → digit_groups false s ≡ true
    → digit_groups false (print_chars cs s) ≡ true
unfolding print_chars digit_groups
groups-chars [] s d h = h
groups-chars (c ∷ cs) s d h = rw d.0 (groups-chars cs s d.1 h)

groups-more : (ns : List Number) → AreNumbers ns → digit_groups false (print_more ns) ≡ true
unfolding print_more digit_groups is_digit
groups-more [] d = refl
groups-more ((c, cs) ∷ ns) d = rw d.0 (groups-chars cs (print_more ns) d.1 (groups-more ns d.2))

-- What a list of groups reads as, behind digits.
abbrev Rest : String → Type 0
Rest s =
    (cs : List Char) × (ns : List Number) × AllDigits cs
    × AreNumbers ns
    × (s ≡ print_chars cs (print_more ns))

abbrev First : String → Type 0
First s =
    (n : Number) × (ns : List Number) × AreNumbers (n ∷ ns)
    × (s ≡ String.◌∷◌ n.0 (print_chars n.1 (print_more ns)))

and-true : (a b : Bool) → (a && b) ≡ true → (a ≡ true) × (b ≡ true)
and-true a b h = (ground arith, ground arith)

abbrev Reads : Bool → String → Type 0
Reads true s = First s
Reads false s = Rest s

read : (b : Bool) (s : String) → digit_groups b s ≡ true → Reads b s
unfolding digit_groups print_chars print_more
read true String.[] h = cc
read true (String.◌∷◌ c s) h =
    let p = and-true (is_digit c) (digit_groups false s) h in
    let r = read false s p.1 in ((c, r.0), r.1, (p.0, r.2, r.3), ap (String.◌∷◌ c) r.4)
read false String.[] h = ([], [], tt, tt, refl)
read false (String.◌∷◌ c s) h = elim (Bool-cases (is_digit c)) [
  | inl d ↦ let r = read false s (rw d at h) in (c ∷ r.0, r.1, (d, r.2), r.3, ap (String.◌∷◌ c) r.4)
  | inr d ↦
      let p = and-true (eqb (code c) b'.') (digit_groups true s) (rw d at h) in
      let r = read true s p.1 in
      ([], r.0 ∷ r.1, tt, r.2, cc (Char-path c "." (ground (arith, p.0)), r.3))
]

-- isValidVersion accepts a text exactly when it is a `v` and then one or more numbers of decimal
-- digits, with single dots between them.
pub is_valid_version_iff :
    (s : String)
    → (is_valid_version s ≡ true)
      ↔ ((n : Number) × (ns : List Number) × AreNumbers (n ∷ ns) × (s ≡ print_version n ns))
unfolding is_valid_version print_version
is_valid_version_iff s = (of_valid s, λ x. ap is_valid_version x.3 ∙ printed x.0 x.1 x.2)
  where
    of_valid :
        (s : String)
        → is_valid_version s ≡ true
        → (n : Number) × (ns : List Number) × AreNumbers (n ∷ ns) × (s ≡ print_version n ns)
    of_valid String.[] h = cc
    of_valid (String.◌∷◌ c s) h =
        let p = and-true (eqb (code c) b'v') (digit_groups true s) h in
        let r = read true s p.1 in (r.0, r.1, r.2, cc (Char-path c "v" (ground (arith, p.0)), r.3))

    printed :
        (n : Number) (ns : List Number)
        → AreNumbers (n ∷ ns)
        → is_valid_version (print_version n ns) ≡ true
    printed (c, cs) ns d = rw d.0 (groups-chars cs (print_more ns) d.1 (groups-more ns d.2))
