-- ===== src/Assembler/Polls/Removed.antt =====
-- What is left of a plugin that was removed.
use Prim.Native.String.{◌++◌ as str_append}
use kidecar.Base.{◌≡◌, ◌≢◌, refl, sym, ◌∙◌, ap, String, none, eq_iff, eq_refl, arith, if◌then◌else◌}
use kidecar.Base.Maps.{lookup, without, lookup-without}
use kidecar.Base.Outcome.{ok, err, msg}
use kidecar.Base.Exec.{mask_end}
use kidecar.Base.Inversion.{continue-ok, mask_end-ok}
use kidecar.Assembler.State.{Plugins, Sidecar, present, on_plugins}
use kidecar.Assembler.Polls.{
  plugin_not_found, update_plugin_status, or_poll, plugin_status, remove_plugin, drop_plugin,
  stop_found,
}

module _ {P H J C M : Type 0} (plugins : Plugins P H C M) where
  -- The plugins but for the one of the name, and the statuses, as before.
  abbrev IsLeft : String → Sidecar P H J M → Sidecar P H J M → Type 0
  IsLeft name s s' =
      (s'.plugins ≡ without name s.plugins) × (s'.plugin_statuses ≡ s.plugin_statuses)

  stop_found-IsLeft :
      (name : String) (h : H) (s s' : Sidecar P H J M)
      → stop_found plugins name h s ≡ (ok tt, s')
      → IsLeft name s s'
  unfolding stop_found drop_plugin on_plugins
  stop_found-IsLeft name h s s' e =
      let run = on_plugins (plugins.stop h) s in
      let t = str_append "stop plugin " (str_append name " failed") in
      let (u, s1, e1, f1) = continue-ok (mask_end t run) (λ _. drop_plugin plugins name) tt s' e in
      let stopped = mask_end-ok t run u s1 e1 in
      let left = ap (λ x. x.1.plugins) stopped in
      let statuses = ap (λ x. x.1.plugin_statuses) stopped in
      (
        sym (ap (λ x. x.1.plugins) f1) ∙ sym (ap (without name) left),
        sym (ap (λ x. x.1.plugin_statuses) f1) ∙ sym statuses,
      )

  remove_plugin-IsLeft :
      (name : String) (s s' : Sidecar P H J M)
      → remove_plugin plugins name s ≡ (ok tt, s')
      → IsLeft name s s'
  unfolding remove_plugin
  remove_plugin-IsLeft name s s' e =
      let r = present (plugin_not_found name) (lookup name s.plugins) in
      let (h, s1, e1, f1) = continue-ok (r, s) (stop_found plugins name) tt s' e in
      let (left, statuses) = stop_found-IsLeft name h s1 s' f1 in
      (
        left ∙ sym (ap (λ x. without name x.1.plugins) e1),
        statuses ∙ sym (ap (λ x. x.1.plugin_statuses) e1),
      )

  update-missing :
      (name : String) (s : Sidecar P H J M)
      → lookup name s.plugins ≡ none
      → update_plugin_status plugins name s ≡ (err (msg (plugin_not_found name)), s)
  unfolding update_plugin_status present
  update-missing name s e = rw e refl

  plugin_status-missing :
      (name : String) (s : Sidecar P H J M)
      → lookup name s.plugin_statuses ≡ none
      → lookup name s.plugins ≡ none
      → plugin_status plugins name s ≡ (err (msg (plugin_not_found name)), s)
  unfolding plugin_status or_poll
  plugin_status-missing name s e gone =
      ap (λ o. or_poll plugins name o s) e ∙ update-missing name s gone

  -- After a RemovePlugin that ends without an error, the plugin is gone and every other is there, and
  -- a poll of its status fails and changes nothing; so does PluginStatus, if no poll had found a status
  -- of the plugin, as none does of a binary plugin.
  pub remove_plugin-IsGone :
      (name : String) (s s' : Sidecar P H J M)
      → remove_plugin plugins name s ≡ (ok tt, s')
      → (lookup name s'.plugins ≡ none)
        × ((k : String) → k ≢ name → lookup k s'.plugins ≡ lookup k s.plugins)
        × (update_plugin_status plugins name s' ≡ (err (msg (plugin_not_found name)), s'))
        × (lookup name s.plugin_statuses ≡ none
            → plugin_status plugins name s' ≡ (err (msg (plugin_not_found name)), s'))
  remove_plugin-IsGone name s s' e =
      let (left, statuses) = remove_plugin-IsLeft name s s' e in
      let gone : lookup name s'.plugins ≡ none =
        ap (lookup name) left
        ∙ lookup-without name name s.plugins
        ∙ ap (λ b. if b then none else lookup name s.plugins) (eq_refl name) in
      (
        gone,
        λ k other.
            ap (lookup k) left
            ∙ lookup-without name k s.plugins
            ∙ ground (arith, eq_iff name k, other),
        update-missing name s' gone,
        λ fresh. plugin_status-missing name s' (ap (lookup name) statuses ∙ fresh) gone,
      )
