-- ===== src/Store/Persistent/Put.antt =====
-- The loops of SetPersistenceInfo over the decoded results.
use kidecar.Base.{
  String, ◌≡◌, refl, ◌∙◌, Option, some, [], ◌∷◌, arith, str_eq, eq_iff, eq_refl, if◌then◌else◌,
}
use kidecar.Base.Maps.{Entries, GoMap, find, lookup, insert, put_all, lookup-insert}
use kidecar.Base.Outcome.{ok}
use kidecar.Store.Persistent.{Results, or_nil, put_results, put_result, put_inner}

-- What a map holds for a type and a version.
abbrev pub held : String → String → Results → Option String
held type version info = find version (or_nil (find type info))

-- One map holds what another does.
abbrev pub SameResults : Results → Results → Type 0
SameResults a b = (type version : String) → held type version a ≡ held type version b

-- The entry of the type is a map that can be written to.
abbrev pub IsReady : String → Results → Type 0
IsReady type info = (inner : Entries String) × (find type info ≡ some (some inner))

put_result-ready :
    (type k v : String) (m : Entries (GoMap String)) (inner : Entries String)
    → lookup type m ≡ some (some inner)
    → put_result type k v (some m) ≡ ok (some (insert type (some (insert k v inner)) m))
unfolding put_result put_inner
put_result-ready type k v m inner h = rw h refl

-- The loop writes every entry of the result, and gives no panic.
pub put_results-ready :
    (type : String) (es : Entries String) (m : Entries (GoMap String)) (inner : Entries String)
    → lookup type m ≡ some (some inner)
    → (m' : Entries (GoMap String)) × (put_results type es (some m) ≡ ok (some m'))
      × ((j : String)
          → lookup j m' ≡ (if str_eq type j then some (some (put_all es inner)) else lookup j m))
unfolding put_results put_all
put_results-ready type [] m inner h = (m, refl, λ j. ground (arith, eq_iff type j, h))
put_results-ready type ((k, v) ∷ es) m inner h =
    let m1 = insert type (some (insert k v inner)) m in
    let rest = put_results-ready type es m1 (insert k v inner) (rw (lookup-insert, eq_refl) refl) in
    (
      rest.0,
      rw (put_result-ready type k v m inner h) rest.1,
      λ j. rest.2 j ∙ ground (arith, lookup-insert type j (some (insert k v inner)) m),
    )
