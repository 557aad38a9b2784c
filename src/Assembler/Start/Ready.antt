-- ===== src/Assembler/Start/Ready.antt =====
-- startAllPlugins comes to its end where every plugin is ready to be asked.
use kidecar.Base.{
  ◌≡◌, refl, ap, subst, String, Option, none, some, List, [], ◌∷◌, All, inl, inr, if◌then◌else◌,
}
use kidecar.Base.Maps.{lookup}
use kidecar.Base.Outcome.{Outcome, ok, err, panic}
use kidecar.Base.Exec.{continue, caught_end, mask_end, pure}
use kidecar.Api.Sidecar.{PluginStatus}
use kidecar.Assembler.State.{Plugins, Sidecar, present, on_plugins}
use kidecar.Assembler.Ready.{ReadyLaws, IsFit, lookup-All, All-map}
use kidecar.Assembler.Polls.{
  plugin_not_found, says_running, keep_status, ask_found, or_poll, update_plugin_status,
  plugin_status, is_plugin_running,
}
use kidecar.Assembler.Start.{values, start_each, start_all_plugins}
use kidecar.Assembler.Start.Launched.{Launched, IsStarted, start_all_plugins-IsStarted}

module _ {P H J C M : Type 0} (plugins : Plugins P H C M) (IsReady : H → P → Type 0)
    (laws : ReadyLaws plugins IsReady) where
  -- A call that did not panic, and left every plugin ready.
  Calm : {A : Type 0} → Outcome A × Sidecar P H J M → Type 0
  Calm (ok a, s) = IsFit IsReady s
  Calm (err e, s) = IsFit IsReady s
  Calm (panic p, s) = ⊥

  kept-Calm :
      (name text : String) (h : H) (s : Sidecar P H J M) (x : Outcome PluginStatus × P)
      → plugins.status h s.world ≡ x
      → IsReady h s.world
      → All (λ e. IsReady e.1 x.1) s.plugins
      → Calm (continue (mask_end text (x.0, record s { world = x.1 })) (keep_status plugins name))
  unfolding Calm keep_status
  kept-Calm name text h s (ok t, w) e ready others = others
  kept-Calm name text h s (err f, w) e ready others = others
  kept-Calm name text h s (panic p, w) e ready others =
      laws.status_answers h s.world p ready (ap (λ y. y.0) e)

  found-Calm :
      (name : String) (s : Sidecar P H J M) (o : Option H)
      → IsFit IsReady s
      → lookup name s.plugins ≡ o
      → Calm (continue (present (plugin_not_found name) o, s) (ask_found plugins name))
  unfolding Calm present ask_found on_plugins
  found-Calm name s none fit e = fit
  found-Calm name s (some h) fit e =
      let ready = lookup-All (λ g. IsReady g s.world) name h s.plugins e fit in
      kept-Calm name _ h s (plugins.status h s.world) refl ready (
        All-map (λ g. IsReady g s.world) (λ g. IsReady g (plugins.status h s.world).1) s.plugins
          (laws.status_keeps h s.world) fit)

  or_poll-Calm :
      (name : String) (s : Sidecar P H J M) (o : Option PluginStatus)
      → IsFit IsReady s
      → Calm (or_poll plugins name o s)
  unfolding or_poll Calm update_plugin_status
  or_poll-Calm name s (some t) fit = fit
  or_poll-Calm name s none fit = found-Calm name s (lookup name s.plugins) fit refl

  -- It did not fail either.
  Succeeds : {A : Type 0} → Outcome A × Sidecar P H J M → Type 0
  Succeeds {A} x = (a : A) × (s : Sidecar P H J M) × (x ≡ (ok a, s)) × IsFit IsReady s

  asked-Succeeds :
      (x : Outcome PluginStatus × Sidecar P H J M)
      → Calm x
      → Succeeds (continue (caught_end x) (λ r. pure (says_running r)))
  unfolding Calm Succeeds
  asked-Succeeds (ok t, s) c = (says_running (inr t), s, refl, c)
  asked-Succeeds (err e, s) c = (says_running (inl e), s, refl, c)
  asked-Succeeds (panic p, s) c = elim c [ ]

  is_plugin_running-Succeeds :
      (name : String) (s : Sidecar P H J M)
      → IsFit IsReady s
      → Succeeds (is_plugin_running plugins name s)
  unfolding is_plugin_running plugin_status
  is_plugin_running-Succeeds name s fit =
      asked-Succeeds (or_poll plugins name (lookup name s.plugin_statuses) s)
        (or_poll-Calm name s (lookup name s.plugin_statuses) fit)

  module _ (others : H → P → P)
      (others_keep : (h g : H) (w : P) → IsReady g w → IsReady g (others h w)) where
    start_each-Succeeds :
        (hs : List H) (s : Sidecar P H J M)
        → IsFit IsReady s
        → Succeeds (start_each plugins others hs s)
    unfolding start_each Succeeds
    start_each-Succeeds [] s fit = ([], s, refl, fit)
    start_each-Succeeds (h ∷ hs) s fit =
        let s0 : Sidecar P H J M = record s { world = others h s.world } in
        let fit0 =
          All-map (λ g. IsReady g s.world) (λ g. IsReady g (others h s.world)) s.plugins
            (λ g. others_keep h g s.world) fit in
        let (b, s1, e1, fit1) = is_plugin_running-Succeeds (plugins.name h) s0 fit0 in
        let (l, s2, e2, fit2) = start_each-Succeeds hs s1 fit1 in
        (if b then l else h ∷ l, s2, rw (e1, e2) refl, fit2)

    -- If every plugin that the sidecar holds is ready, and what the goroutines do in between keeps the
    -- plugins ready, then startAllPlugins comes to its end.
    pub start_all_plugins-ends :
        (s : Sidecar P H J M)
        → IsFit IsReady s
        → (l : List H) × (s' : Sidecar P H J M) × (start_all_plugins plugins others s ≡ (ok l, s'))
          × Launched plugins s' (values s.plugins) l
    unfolding start_all_plugins Succeeds
    start_all_plugins-ends s fit =
        let (l, s', e, f) = start_each-Succeeds (values s.plugins) s fit in
        (
          l,
          s',
          e,
          subst (IsStarted plugins (values s.plugins)) e
              (start_all_plugins-IsStarted plugins others s),
        )
