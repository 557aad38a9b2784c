-- ===== src/Store/Persistent/Text.antt =====
-- The text that SetPersistenceInfo makes, and what is read back from it.
use kidecar.Base.{
  String, ◌≡◌, refl, sym, ap, ◌∙◌, subst, Option, none, some, [], ◌∷◌, arith, eq_iff, eq_refl,
}
use kidecar.Base.Maps.{
  Entries, GoMap, HasKeysOnce, entries, find, lookup, insert, or_else, lookup-insert,
  lookup-put_all,
}
use kidecar.Base.Outcome.{Outcome, ok, panic, nil_map, and_then, or_wrapped}
use kidecar.Base.Inversion.{and_then-ok, or_wrapped-ok}
use kidecar.Process.{Environ, KubeInterface}
use kidecar.Store.Persistent.{
  Results, Yaml, PersistentConfig, or_nil, decode, ensure_type, put_results, put_result, put_inner,
  new_text, own_results,
}
use kidecar.Store.Persistent.Put.{held, SameResults, put_results-ready}

-- What yaml.v3 documents of these maps: a marshalled map is decoded, into an empty one, with the
-- same contents, and neither call panics.
pub record YamlLaws (yaml : Yaml) : Type 0 where
  pub decoded :
      (a : Results) (text : String)
      → yaml.marshal a ≡ ok text
      → (b : Results) × (yaml.unmarshal text (some []) ≡ ok b) × SameResults a b

put_inner_same :
    (type : String) (m : Entries (GoMap String)) (j version : String)
    → lookup type m ≡ none
    → held j version (some m) ≡ held j version (some (insert type (some []) m))
unfolding lookup
put_inner_same type m j version h =
    ground (arith, lookup-insert type j (some []) m, eq_iff type j, h)

ensured :
    (type : String) (m : Entries (GoMap String)) (o : Option (GoMap String)) (b : Results)
    → lookup type m ≡ o
    → ensure_type type (some m) ≡ ok b
    → (m' : Entries (GoMap String)) × (i : GoMap String) × (b ≡ some m')
      × (lookup type m' ≡ some i)
      × SameResults (some m) b
unfolding ensure_type
ensured type m none b e h =
    let q : some (insert type (some []) m) ≡ b = let k = rw (e, ensure_type) at h in cc k in
    (
      insert type (some []) m,
      some [],
      sym q,
      rw (lookup-insert, eq_refl) refl,
      subst (SameResults (some m)) q (λ j version. put_inner_same type m j version e),
    )
ensured type m (some i) b e h =
    let q : some m ≡ b = let k = rw (e, ensure_type) at h in cc k in
    (m, i, sym q, e, subst (SameResults (some m)) q (λ j version. refl))

none_held : (version : String) (o : Option String) → o ≡ or_else (lookup version []) o
unfolding lookup
none_held version o = refl

-- What the loop leaves for each version of the type, whatever map was there.
put_results-nil : (type : String) (m : Results) → put_results type [] m ≡ ok m
unfolding put_results
put_results-nil type m = refl

nil_panics :
    (type k v : String) (es : Entries String) (m : Entries (GoMap String))
    → lookup type m ≡ some none
    → put_results type ((k, v) ∷ es) (some m) ≡ panic nil_map
unfolding put_results put_result put_inner
nil_panics type k v es m e = rw e refl

put_results-held :
    (type version : String) (es : Entries String) (m : Entries (GoMap String)) (i : GoMap String)
    (b : Results)
    → HasKeysOnce es
    → lookup type m ≡ some i
    → put_results type es (some m) ≡ ok b
    → held type version b ≡ or_else (lookup version es) (held type version (some m))
put_results-held type version es m (some inner) b once e h =
    let r = put_results-ready type es m inner e in
    let q : some r.0 ≡ b = cc (h, r.1) in
    subst (λ x. held type version x ≡ or_else (lookup version es) (held type version (some m))) q
      (rw (r.2 type, eq_refl, e) (lookup-put_all es inner version once))
put_results-held type version [] m none b once e h =
    let q : some m ≡ b = cc (h, put_results-nil type (some m)) in
    subst (λ x. held type version x ≡ or_else (lookup version []) (held type version (some m))) q
      (none_held version (held type version (some m)))
put_results-held type version ((k, v) ∷ es) m none b once e h = cc (h, nil_panics type k v es m e)

module _ {W : Type 0} (kube : KubeInterface W) (yaml : Yaml) (env : Environ) where
  -- The rest of the text's making, from the decoded results on.
  full_text-held :
      (p : PersistentConfig) (m : Entries (GoMap String)) (text : String) (typed : Results)
      → YamlLaws yaml
      → HasKeysOnce (entries p.result)
      → ensure_type p.type (some m) ≡ ok typed
      → and_then
          (put_results p.type (entries p.result) typed)
          (λ full. or_wrapped "failed to marshal hotUpdateInfo" (yaml.marshal full))
        ≡ ok text
      → (after : Results) × (yaml.unmarshal text (some []) ≡ ok after)
        × ((version : String)
            → held p.type version after
              ≡ or_else (find version p.result) (held p.type version (some m)))
  full_text-held p m text typed laws once e h =
      let n = ensured p.type m (lookup p.type m) typed refl e in
      let c = and_then-ok (put_results p.type (entries p.result) typed) _ text h in
      let l = laws.decoded c.0 text (or_wrapped-ok _ _ text c.2) in
      (
        l.0,
        l.1,
        λ version.
            let put =
              put_results-held p.type version (entries p.result) n.0 n.1 c.0 once n.3
                (cc (n.2, c.1)) in
            sym (l.2 p.type version)
            ∙ put
            ∙ ap (or_else (find version p.result))
                (sym (n.4 p.type version ∙ ap (held p.type version) n.2)),
      )

  typed_text-held :
      (p : PersistentConfig) (info before : Results) (text : String)
      → YamlLaws yaml
      → HasKeysOnce (entries p.result)
      → before ≡ info
      → and_then (ensure_type p.type info) (λ typed.
        and_then
          (put_results p.type (entries p.result) typed)
          (λ full. or_wrapped "failed to marshal hotUpdateInfo" (yaml.marshal full)))
        ≡ ok text
      → (after : Results) × (yaml.unmarshal text (some []) ≡ ok after)
        × ((version : String)
            → held p.type version after
              ≡ or_else (find version p.result) (held p.type version before))
  unfolding ensure_type
  typed_text-held p none before text laws once q h = cc
  typed_text-held p (some m) before text laws once q h =
      let b = and_then-ok (ensure_type p.type (some m)) _ text h in
      rw q (full_text-held p m text b.0 laws once b.1 b.2)

  -- The text that is written decodes to the old results with the new ones put over them.
  pub new_text-held :
      (p : PersistentConfig) (old : Option String) (before : Results) (text : String)
      → YamlLaws yaml
      → HasKeysOnce (entries p.result)
      → decode yaml old ≡ ok before
      → new_text kube yaml env p old ≡ ok text
      → (after : Results) × (yaml.unmarshal text (some []) ≡ ok after)
        × ((version : String)
            → held p.type version after
              ≡ or_else (find version p.result) (held p.type version before))
  unfolding new_text
  new_text-held p old before text laws once d h =
      let a =
        and_then-ok (or_wrapped "failed to unmarshal hotUpdateInfo" (decode yaml old)) _ text h in
      let q : before ≡ a.0 =
        let k = or_wrapped-ok "failed to unmarshal hotUpdateInfo" (decode yaml old) a.0 a.1 in
        cc (d, k) in
      typed_text-held p a.0 before text laws once q a.2

  pub own_results-held :
      (type text : String) (after : Results)
      → yaml.unmarshal text (some []) ≡ ok after
      → (r : GoMap String) × (own_results kube yaml env type text ≡ ok r)
        × ((version : String) → find version r ≡ held type version after)
  unfolding own_results
  own_results-held type text after h = rw h (own (find type after))
    where
      own :
          (o : Option (GoMap String))
          → (r : GoMap String) × (◌≡◌ {A = Outcome (GoMap String)}
              (elim o [ some res ↦ ok res | none ↦ ok (some []) ])
              (ok r))
            × ((version : String) → find version r ≡ find version (or_nil o))
      own none = (some [], refl, λ v. refl)
      own (some i) = (i, refl, λ v. refl)
