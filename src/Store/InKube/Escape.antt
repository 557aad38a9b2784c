-- ===== src/Store/InKube/Escape.antt =====
-- rfc6901Encoder, and the decoding that RFC 6901 prescribes for a reference token.
use Prim.Native.Char.{Char, code}
use text.Mathlib.TextEquality.{Char-path}
use kidecar.Base.{
  String, Option, none, some, ◌≡◌, refl, ap, sym, ◌∙◌, Bool, true, false, Bool-cases, inl, inr,
  arith, eqb, if◌then◌else◌,
}
use kidecar.Store.InKube.{rfc6901_encode}

char_before : Char → Option String → Option String
char_before c none = none
char_before c (some s) = some (String.◌∷◌ c s)

-- "~1" stands for "/", and "~0" for "~"; a "~" before anything else, or at the end, is no token.
unfoldable pub rfc6901_decode : String → Option String
unfolding char_before
rfc6901_decode String.[] = some String.[]
rfc6901_decode (String.◌∷◌ a String.[]) =
    if eqb (code a) b'~' then none else some (String.◌∷◌ a String.[])
rfc6901_decode (String.◌∷◌ a (String.◌∷◌ b s)) =
    let rest = rfc6901_decode s in
    let next = rfc6901_decode (String.◌∷◌ b s) in
    if eqb (code a) b'~'
    then (if eqb (code b) b'0'
        then char_before "~" rest
        else if eqb (code b) b'1'
        then char_before "/" rest
        else none)
    else char_before a next

decode-plain :
    (c : Char) (s : String)
    → eqb (code c) b'~' ≡ false
    → rfc6901_decode (String.◌∷◌ c s) ≡ char_before c (rfc6901_decode s)
unfolding rfc6901_decode
decode-plain c String.[] h = rw h refl
decode-plain c (String.◌∷◌ d s) h = rw h refl

char_eq : (c d : Char) → eqb (code c) (code d) ≡ true → c ≡ d
char_eq c d h = Char-path c d (ground arith)

-- Every encoded key is a token of RFC 6901, and decoding it gives back the key.
pub rfc6901_decode-encode : (s : String) → rfc6901_decode (rfc6901_encode s) ≡ some s
unfolding rfc6901_encode rfc6901_decode
rfc6901_decode-encode String.[] = refl
rfc6901_decode-encode (String.◌∷◌ c s) =
    let rest = rfc6901_decode-encode s in
    elim (Bool-cases (eqb (code c) b'~')) [
      | inl t ↦ rw (t, rest) (ap (λ d. some (String.◌∷◌ d s)) (sym (char_eq c "~" t)))
      | inr n ↦ elim (Bool-cases (eqb (code c) b'/')) [
        | inl t ↦ rw (n, t, rest) (ap (λ d. some (String.◌∷◌ d s)) (sym (char_eq c "/" t)))
        | inr m ↦ rw (n, m) (decode-plain c (rfc6901_encode s) n ∙ ap (char_before c) rest)
      ]
    ]

unfoldable pub has_slash : String → Bool
has_slash String.[] = false
has_slash (String.◌∷◌ c s) = let rest = has_slash s in if eqb (code c) b'/' then true else rest

-- An encoded key has no separator of a JSON pointer in it.
has_slash-encode : (s : String) → has_slash (rfc6901_encode s) ≡ false
unfolding rfc6901_encode has_slash
has_slash-encode String.[] = refl
has_slash-encode (String.◌∷◌ c s) = elim (Bool-cases (eqb (code c) b'~')) [
  | inl t ↦ rw t (has_slash-encode s)
  | inr n ↦ elim (Bool-cases (eqb (code c) b'/')) [
    | inl t ↦ rw (n, t) (has_slash-encode s)
    | inr m ↦ rw (n, m) (rw m (has_slash-encode s))
  ]
]
