-- ===== src/Base/Maps.antt =====
-- Go's `map[string]V` as an association list. A nil map is `none`: reading it finds nothing, and
-- writing to it is a run-time panic. The order of the entries is the order in which `range` visits
-- them; Go leaves it open, and so do the theorems, which hold for every list.
use mathlib.Core.Path.{◌≡◌, refl}
use mathlib.Core.Option.{Option, none, some}
use mathlib.Core.List.{List, [], ◌∷◌}
use Prim.Native.String.{String}
use native.Mathlib.Omega.{arith}
use text.Mathlib.Text.{◌==◌ as str_eq}
use text.Mathlib.TextEquality.{eq_iff}
use kidecar.Base.Tests.{if◌then◌else◌}

abbrev pub Entries {ℓ} : Type ℓ → Type ℓ
Entries V = List (String × V)

abbrev pub GoMap {ℓ} : Type ℓ → Type ℓ
GoMap V = Option (Entries V)

-- What a read falls back to.
abbrev pub or_else {ℓ} : {V : Type ℓ} → Option V → Option V → Option V
or_else (some v) o = some v
or_else none o = o

module _ {ℓ} {V : Type ℓ} where
  unfoldable pub lookup : String → Entries V → Option V
  lookup k [] = none
  lookup k ((j, v) ∷ m) = if str_eq j k then some v else lookup k m

  -- m[k] = v
  unfoldable pub insert : String → V → Entries V → Entries V
  insert k v [] = (k, v) ∷ []
  insert k v ((j, w) ∷ m) = if str_eq j k then (k, v) ∷ m else (j, w) ∷ insert k v m

  -- delete(m, k)
  unfoldable pub without : String → Entries V → Entries V
  without k [] = []
  without k ((j, w) ∷ m) = let rest = without k m in if str_eq j k then rest else (j, w) ∷ rest

  -- for k, v := range es { m[k] = v }
  unfoldable pub put_all : Entries V → Entries V → Entries V
  put_all [] m = m
  put_all ((k, v) ∷ es) m = put_all es (insert k v m)

  -- The entries of a Go map have different keys.
  abbrev pub HasKeysOnce : Entries V → Type ℓ
  HasKeysOnce [] = Unit
  HasKeysOnce ((k, v) ∷ m) = (lookup k m ≡ none) × HasKeysOnce m

  -- The reading of a map that may be nil.
  abbrev pub entries : GoMap V → Entries V
  entries none = []
  entries (some m) = m

  abbrev pub find : String → GoMap V → Option V
  find k m = lookup k (entries m)

  pub lookup-insert :
      (k j : String) (v : V) (m : Entries V)
      → lookup j (insert k v m) ≡ (if str_eq k j then some v else lookup j m)
  unfolding lookup insert
  lookup-insert k j v [] = refl
  lookup-insert k j v ((old, w) ∷ rest) =
      let later = lookup-insert k j v rest in
      ground (arith, later, eq_iff old j, eq_iff old k, eq_iff k j)

  pub lookup-without :
      (k j : String) (m : Entries V)
      → lookup j (without k m) ≡ (if str_eq k j then none else lookup j m)
  unfolding lookup without
  lookup-without k j [] = ground arith
  lookup-without k j ((i, w) ∷ m) =
      ground (arith, eq_iff k j, eq_iff i k, eq_iff i j, lookup-without k j m)

  -- Copying a map over another: its own entries win, whatever the order of the visit.
  pub lookup-put_all :
      (es m : Entries V) (j : String)
      → HasKeysOnce es
      → lookup j (put_all es m) ≡ or_else (lookup j es) (lookup j m)
  unfolding lookup put_all
  lookup-put_all [] m j h = refl
  lookup-put_all ((k, v) ∷ es) m j h =
      ground (arith, eq_iff k j, h, lookup-insert k j v m, lookup-put_all es (insert k v m) j)

  pub insert-HasKeysOnce :
      (k : String) (v : V) (m : Entries V) → HasKeysOnce m → HasKeysOnce (insert k v m)
  unfolding insert lookup
  insert-HasKeysOnce k v [] h = (refl, tt)
  insert-HasKeysOnce k v ((j, w) ∷ m) h =
      ground (arith, eq_iff j k, eq_iff k j, lookup-insert k j v m, insert-HasKeysOnce k v m)

  -- Copying a map over another keeps the keys different.
  pub put_all-HasKeysOnce : (es m : Entries V) → HasKeysOnce m → HasKeysOnce (put_all es m)
  unfolding put_all
  put_all-HasKeysOnce [] m h = h
  put_all-HasKeysOnce ((k, v) ∷ es) m h =
      put_all-HasKeysOnce es (insert k v m) (insert-HasKeysOnce k v m h)
