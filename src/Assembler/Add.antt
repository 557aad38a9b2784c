-- ===== src/Assembler/Add.antt =====
-- InitPlugins and AddPlugin of pkg/assembler/mgr.go.
pub mod Installed
pub mod Ready
use Prim.Native.String.{◌++◌ as str_append}
use kidecar.Base.{
  ◌≡◌, ℕ, String, Bool, true, false, ◌⊎◌, inl, inr, Option, none, some, List, [], ◌∷◌, map, str_eq,
  ltb, if◌then◌else◌,
}
use kidecar.Base.Maps.{Entries, lookup, insert, without}
use kidecar.Base.Outcome.{Err, Outcome, ok, err, msg, and_then, or_wrapped, nil_pointer, explicit}
use kidecar.Base.Exec.{
  Exec, pure, fail, crash, lift, gets, modify, wrapping, masking, attempt, ◌>>=◌, ◌>>◌,
}
use kidecar.Api.{Binary}
use kidecar.Api.Sidecar.{PluginConfig, SidecarConfig, PluginStatus}
use kidecar.Assembler.Convert.{Json, convert_json_object_to_struct}
use kidecar.Assembler.State.{Plugins, Files, Sidecar, present, on_plugins}

module _ {P H J C M : Type 0} (plugins : Plugins P H C M) (json : Json J C) where
  put_plugin : String → H → Exec (Sidecar P H J M) (Unit {0})
  put_plugin name h = modify (λ s. record s { plugins = insert name h s.plugins })

  -- AddPlugin, behind the conversion of the configuration, and behind the look into the registry
  init_found : H → C → Exec (Sidecar P H J M) (Unit {0})
  unfolding on_plugins put_plugin
  init_found h c = do
    m ← gets (λ s. s.manager)
    masking (str_append "init plugin " (str_append (plugins.name h) " failed"))
        (on_plugins (plugins.init h c m))
    put_plugin (plugins.name h) h

  convert_found : Option J → H → Exec (Sidecar P H J M) (Unit {0})
  unfolding convert_json_object_to_struct init_found
  convert_found config h = do
    c ←
        wrapping "convert plugin config failed,err"
          (lift (convert_json_object_to_struct json config (some (plugins.get_config_type h))))
    init_found h c

  add_plugin : String → Option J → Exec (Sidecar P H J M) (Unit {0})
  unfolding present convert_found
  add_plugin name config = do
    h ← lift (present (str_append "failed to find plugin " name) (lookup name plugins.registry))
    convert_found config h

  -- binary.NewPlugin, and the loop's two branches
  make_binary : Binary → Exec (Sidecar P H J M) H
  unfolding on_plugins
  make_binary b = on_plugins (λ w. let (h, w') = plugins.new_binary b w in (ok h, w'))

  init_plugin : PluginConfig J → Option Binary → Exec (Sidecar P H J M) (Unit {0})
  unfolding add_plugin make_binary put_plugin
  init_plugin p (some b) = do h ← make_binary b; put_plugin p.name h
  init_plugin p none =
      wrapping (str_append "failed to add built in plugin " (str_append p.name ",err"))
        (add_plugin p.name p.config)

  init_each : List (PluginConfig J) → Exec (Sidecar P H J M) (Unit {0})
  unfolding init_plugin
  init_each [] = pure tt
  init_each (p ∷ ps) = init_plugin p p.binary >> init_each ps

  unfoldable pub init_plugins : Exec (Sidecar P H J M) (Unit {0})
  unfolding init_each
  init_plugins s = elim s.config [ none ↦ crash nil_pointer s | some c ↦ init_each c.plugins s ]
