-- ===== src/Assembler/Add/Ready.antt =====
-- After InitPlugins, every plugin that the sidecar holds is ready to be asked for its status.
use Prim.Native.String.{◌++◌ as str_append}
use kidecar.Base.{◌≡◌, refl, ap, subst, String, Option, none, some, List, [], ◌∷◌, All}
use kidecar.Base.Maps.{lookup}
use kidecar.Base.Outcome.{Outcome, ok, err, panic, nil_pointer}
use kidecar.Base.Exec.{continue, mask_end, wrap_end, crash}
use kidecar.Base.Inversion.{continue-ok, wrap_end-ok}
use kidecar.Api.{Binary}
use kidecar.Api.Sidecar.{PluginConfig, SidecarConfig}
use kidecar.Assembler.Convert.{Json, convert_json_object_to_struct}
use kidecar.Assembler.State.{Plugins, Sidecar, present, on_plugins}
use kidecar.Assembler.Ready.{ReadyLaws, IsFit, insert-All, All-map}
use kidecar.Assembler.Add.{
  put_plugin, init_found, convert_found, add_plugin, make_binary, init_plugin, init_each,
  init_plugins,
}

module _ {P H J C M : Type 0} (plugins : Plugins P H C M) (json : Json J C)
    (IsReady : H → P → Type 0) (laws : ReadyLaws plugins IsReady) where
  settled :
      (t : String) (h : H) (s s' : Sidecar P H J M) (x : Outcome (Unit {0}) × P)
      → (x ≡ (ok tt, x.1) → IsReady h x.1)
      → All (λ e. IsReady e.1 x.1) s.plugins
      → continue
          (mask_end t (x.0, record s { world = x.1 }))
          (λ u. put_plugin plugins json (plugins.name h) h)
        ≡ (ok tt, s')
      → IsFit IsReady s'
  unfolding put_plugin
  settled t h s s' (ok u, w) ready others e =
      subst (IsFit IsReady) (ap (λ y. y.1) e)
        (insert-All (λ g. IsReady g w) (plugins.name h) h s.plugins (ready refl) others)
  settled t h s s' (err f, w) ready others e = cc
  settled t h s s' (panic f, w) ready others e = cc

  init_found-IsFit :
      (h : H) (c : C) (s s' : Sidecar P H J M)
      → IsFit IsReady s
      → init_found plugins json h c s ≡ (ok tt, s')
      → IsFit IsReady s'
  unfolding init_found on_plugins
  init_found-IsFit h c s s' fit e =
      settled _ h s s' (plugins.init h c s.manager s.world)
        (laws.init_readies h c s.manager s.world (plugins.init h c s.manager s.world).1)
        (All-map (λ g. IsReady g s.world) (λ g. IsReady g (plugins.init h c s.manager s.world).1)
          s.plugins (laws.init_keeps h c s.manager s.world) fit)
        e

  convert_found-IsFit :
      (o : Option J) (h : H) (s s' : Sidecar P H J M)
      → IsFit IsReady s
      → convert_found plugins json o h s ≡ (ok tt, s')
      → IsFit IsReady s'
  unfolding convert_found
  convert_found-IsFit o h s s' fit e =
      let r = convert_json_object_to_struct json o (some (plugins.get_config_type h)) in
      let (c, s1, e1, f1) =
        continue-ok (wrap_end "convert plugin config failed,err" (r, s)) (init_found plugins json h)
          tt s' e in
      let same = ap (λ x. x.1) (wrap_end-ok _ (r, s) c s1 e1) in
      init_found-IsFit h c s1 s' (subst (IsFit IsReady) same fit) f1

  add_plugin-IsFit :
      (name : String) (o : Option J) (s s' : Sidecar P H J M)
      → IsFit IsReady s
      → add_plugin plugins json name o s ≡ (ok tt, s')
      → IsFit IsReady s'
  unfolding add_plugin
  add_plugin-IsFit name o s s' fit e =
      let r = present (str_append "failed to find plugin " name) (lookup name plugins.registry) in
      let (h, s1, e1, f1) = continue-ok (r, s) (convert_found plugins json o) tt s' e in
      convert_found-IsFit o h s1 s' (subst (IsFit IsReady) (ap (λ x. x.1) e1) fit) f1

  init_plugin-IsFit :
      (p : PluginConfig J) (o : Option Binary) (s s' : Sidecar P H J M)
      → IsFit IsReady s
      → init_plugin plugins json p o s ≡ (ok tt, s')
      → IsFit IsReady s'
  unfolding init_plugin make_binary on_plugins put_plugin
  init_plugin-IsFit p (some b) s s' fit e =
      let made = plugins.new_binary b s.world in
      subst (IsFit IsReady) (ap (λ x. x.1) e) (
        insert-All (λ g. IsReady g made.1) p.name made.0 s.plugins (laws.new_readies b s.world)
          (All-map (λ g. IsReady g s.world) (λ g. IsReady g made.1) s.plugins
            (laws.new_keeps b s.world) fit))
  init_plugin-IsFit p none s s' fit e =
      add_plugin-IsFit p.name p.config s s' fit
        (wrap_end-ok _ (add_plugin plugins json p.name p.config s) tt s' e)

  init_each-IsFit :
      (ps : List (PluginConfig J)) (s s' : Sidecar P H J M)
      → IsFit IsReady s
      → init_each plugins json ps s ≡ (ok tt, s')
      → IsFit IsReady s'
  unfolding init_each
  init_each-IsFit [] s s' fit e = subst (IsFit IsReady) (ap (λ x. x.1) e) fit
  init_each-IsFit (p ∷ ps) s s' fit e =
      let (u, s1, e1, f1) =
        continue-ok (init_plugin plugins json p p.binary s) (λ u. init_each plugins json ps) tt s'
          e in
      init_each-IsFit ps s1 s' (init_plugin-IsFit p p.binary s s1 fit e1) f1

  with_config :
      (o : Option (SidecarConfig J)) (s s' : Sidecar P H J M)
      → IsFit IsReady s
      → elim o [
        | none ↦ crash {A = Unit {0}} nil_pointer s
        | some c ↦ init_each plugins json c.plugins s
      ]
        ≡ (ok tt, s')
      → IsFit IsReady s'
  with_config none s s' fit e = cc
  with_config (some c) s s' fit e = init_each-IsFit c.plugins s s' fit e

  -- An InitPlugins that ends without an error keeps it so that every plugin that the sidecar holds
  -- is ready.
  pub init_plugins-IsFit :
      (s s' : Sidecar P H J M)
      → IsFit IsReady s
      → init_plugins plugins json s ≡ (ok tt, s')
      → IsFit IsReady s'
  unfolding init_plugins
  init_plugins-IsFit s s' fit e = with_config s.config s s' fit e
