-- ===== src/Assembler/Add/Installed.antt =====
-- Which plugins the sidecar holds after InitPlugins.
use Prim.Native.String.{◌++◌ as str_append}
use kidecar.Base.{
  ◌≡◌, ◌≢◌, refl, sym, ◌∙◌, ap, subst, ◌⊎◌, inl, inr, String, Bool, true, false, Option, none, some,
  List, [], ◌∷◌, All, str_eq, eq_iff, arith, if◌then◌else◌,
}
use kidecar.Base.Maps.{Entries, lookup, insert, lookup-insert}
use kidecar.Base.Outcome.{Outcome, ok, nil_pointer}
use kidecar.Base.Exec.{Exec, crash, mask_end, wrap_end}
use kidecar.Base.Inversion.{continue-ok, wrap_end-ok, mask_end-ok}
use kidecar.Api.{Binary}
use kidecar.Api.Sidecar.{PluginConfig, SidecarConfig}
use kidecar.Assembler.Convert.{Json, convert_json_object_to_struct}
use kidecar.Assembler.State.{Plugins, PluginLaws, Sidecar, present, on_plugins}
use kidecar.Assembler.Add.{
  put_plugin, init_found, convert_found, add_plugin, make_binary, init_plugin, init_each,
  init_plugins,
}

present-ok : {A : Type 0} (t : String) (o : Option A) (a : A) → present t o ≡ ok a → o ≡ some a
unfolding present
present-ok t none a h = cc
present-ok t (some b) a h = ground arith

module _ {P H J C M : Type 0} (plugins : Plugins P H C M) (json : Json J C)
    (laws : PluginLaws plugins) where
  -- The plugin that an entry of the configuration is for.
  abbrev pub IsFor : PluginConfig J → H → Type 0
  IsFor p h =
      ((p.binary ≡ none) × (lookup p.name plugins.registry ≡ some h))
      ⊎ ((b : Binary) × (w : P) × (p.binary ≡ some b) × (h ≡ (plugins.new_binary b w).0))

  abbrev HasPut : PluginConfig J → Sidecar P H J M → Sidecar P H J M → Type 0
  HasPut p s s' = (h : H) × IsFor p h × (s'.plugins ≡ insert p.name h s.plugins)

  on_plugins-plugins :
      {A : Type 0} (m : Exec P A) (s : Sidecar P H J M) → (on_plugins m s).1.plugins ≡ s.plugins
  unfolding on_plugins
  on_plugins-plugins m s = refl

  init_found-HasPut :
      (h : H) (c : C) (s s' : Sidecar P H J M)
      → init_found plugins json h c s ≡ (ok tt, s')
      → s'.plugins ≡ insert (plugins.name h) h s.plugins
  unfolding init_found put_plugin
  init_found-HasPut h c s s' e =
      let run = on_plugins (plugins.init h c s.manager) s in
      let t = str_append "init plugin " (str_append (plugins.name h) " failed") in
      let (u, s1, e1, f1) =
        continue-ok (mask_end t run) (λ _. put_plugin plugins json (plugins.name h) h) tt s' e in
      let same = ap (λ x. x.1.plugins) (mask_end-ok t run u s1 e1) in
      let put = ap (λ x. x.1.plugins) f1 in sym put ∙ sym (ap (insert (plugins.name h) h) same)

  convert_found-HasPut :
      (o : Option J) (h : H) (s s' : Sidecar P H J M)
      → convert_found plugins json o h s ≡ (ok tt, s')
      → s'.plugins ≡ insert (plugins.name h) h s.plugins
  unfolding convert_found
  convert_found-HasPut o h s s' e =
      let r = convert_json_object_to_struct json o (some (plugins.get_config_type h)) in
      let (c, s1, e1, f1) =
        continue-ok (wrap_end "convert plugin config failed,err" (r, s)) (init_found plugins json h)
          tt s' e in
      let kept = ap (λ x. x.1.plugins) (wrap_end-ok _ (r, s) c s1 e1) in
      init_found-HasPut h c s1 s' f1 ∙ sym (ap (insert (plugins.name h) h) kept)

  add_plugin-HasPut :
      (p : PluginConfig J) (s s' : Sidecar P H J M)
      → p.binary ≡ none
      → add_plugin plugins json p.name p.config s ≡ (ok tt, s')
      → HasPut p s s'
  unfolding add_plugin
  add_plugin-HasPut p s s' built_in e =
      let r =
        present (str_append "failed to find plugin " p.name) (lookup p.name plugins.registry) in
      let (h, s1, e1, f1) = continue-ok (r, s) (convert_found plugins json p.config) tt s' e in
      let found = present-ok _ (lookup p.name plugins.registry) h (ap (λ x. x.0) e1) in
      let kept = ap (λ x. x.1.plugins) e1 in
      let put = convert_found-HasPut p.config h s1 s' f1 in
      let named = laws.registered p.name h found in (h, inl (built_in, found), cc)

  init_plugin-HasPut :
      (p : PluginConfig J) (o : Option Binary) (s s' : Sidecar P H J M)
      → p.binary ≡ o
      → init_plugin plugins json p o s ≡ (ok tt, s')
      → HasPut p s s'
  unfolding init_plugin make_binary on_plugins put_plugin
  init_plugin-HasPut p (some b) s s' o e =
      ((plugins.new_binary b s.world).0, inr (b, s.world, o, refl), sym (ap (λ x. x.1.plugins) e))
  init_plugin-HasPut p none s s' o e =
      add_plugin-HasPut p s s' o (wrap_end-ok _ (add_plugin plugins json p.name p.config s) tt s' e)

  -- No entry of the list has the name.
  abbrev pub NoneNamed : String → List (PluginConfig J) → Type 0
  NoneNamed k ps = All (λ p. p.name ≢ k) ps

  -- Some entry of the list has the name, and the plugin is for it.
  pub data HasSource (k : String) (h : H) : List (PluginConfig J) → Type 0 where
    first :
        {p : PluginConfig J} {ps : List (PluginConfig J)}
        → p.name ≡ k
        → IsFor p h
        → HasSource k h (p ∷ ps)
    later :
        {p : PluginConfig J} {ps : List (PluginConfig J)}
        → HasSource k h ps
        → HasSource k h (p ∷ ps)

  -- What is found under a name, when the entries are installed over the plugins `m`.
  abbrev pub IsInstalled : List (PluginConfig J) → Entries H → Entries H → String → Type 0
  IsInstalled ps m m' k =
      (NoneNamed k ps × (lookup k m' ≡ lookup k m))
      ⊎ ((h : H) × (lookup k m' ≡ some h) × HasSource k h ps)

  add_first :
      (p : PluginConfig J) (ps : List (PluginConfig J)) (h : H) (m m' : Entries H) (k : String)
      → IsFor p h
      → IsInstalled ps (insert p.name h m) m' k
      → IsInstalled (p ∷ ps) m m' k
  add_first p ps h m m' k f (inr (h', e, source)) = inr (h', e, later source)
  add_first p ps h m m' k f (inl (others, e)) =
      by_name (str_eq p.name k) refl (e ∙ lookup-insert p.name k h m)
    where
      by_name :
          (b : Bool)
          → str_eq p.name k ≡ b
          → lookup k m' ≡ (if str_eq p.name k then some h else lookup k m)
          → IsInstalled (p ∷ ps) m m' k
      by_name true q l = inr (h, rw q at l, first (ground (arith, eq_iff p.name k, q)) f)
      by_name false q l = inl ((λ n. ground (arith, eq_iff p.name k, q, n), others), rw q at l)

  init_each-IsInstalled :
      (ps : List (PluginConfig J)) (s s' : Sidecar P H J M) (k : String)
      → init_each plugins json ps s ≡ (ok tt, s')
      → IsInstalled ps s.plugins s'.plugins k
  unfolding init_each
  init_each-IsInstalled [] s s' k e = inl (tt, ap (λ x. lookup k x.1.plugins) (sym e))
  init_each-IsInstalled (p ∷ ps) s s' k e =
      let (u, s1, e1, f1) =
        continue-ok (init_plugin plugins json p p.binary s) (λ _. init_each plugins json ps) tt s'
          e in
      let (h, f, put) = init_plugin-HasPut p p.binary s s1 refl e1 in
      let ih = init_each-IsInstalled ps s1 s' k f1 in
      add_first p ps h s.plugins s'.plugins k f (subst (λ m. IsInstalled ps m s'.plugins k) put ih)

  -- Where the registry holds each plugin under its name: after an InitPlugins that ends without an error,
  -- with a configuration that was loaded, a plugin is found under every name of the
  -- configuration, and it is for one of the entries with that name: the built-in plugin of the name,
  -- or a binary plugin made of the entry's section. Under every other name, what was found before is
  -- found.
  pub init_plugins-IsInstalled :
      (c : SidecarConfig J) (s s' : Sidecar P H J M)
      → s.config ≡ some c
      → init_plugins plugins json s ≡ (ok tt, s')
      → (k : String) → IsInstalled c.plugins s.plugins s'.plugins k
  unfolding init_plugins
  init_plugins-IsInstalled c s s' e run k =
      let chosen : Option (SidecarConfig J) → Outcome (Unit {0}) × Sidecar P H J M = elim [
        | none ↦ crash nil_pointer s
        | some c ↦ init_each plugins json c.plugins s
      ] in
      init_each-IsInstalled c.plugins s s' k (ap chosen (sym e) ∙ run)
