-- ===== src/Store/Config/Checks.antt =====
-- Which configurations pass InKubeConfig.IsValid.
use kidecar.Base.{
  ◌≡◌, ◌≢◌, ◌↔◌, ◌⊎◌, refl, true, false, Option, none, some, arith, eq_iff, is_some, is_empty,
}
use kidecar.Base.Outcome.{Outcome, ok, err, panic}
use kidecar.Store.Config.{
  TargetKubeObject, InKubeConfig, in_kube_is_valid, check_target, after_target, check_keys,
}

abbrev pub HasTarget : Option TargetKubeObject → Type 0
HasTarget none = Unit
HasTarget (some t) = (t.version ≢ "") × (t.resource ≢ "") × (t.name ≢ "")

-- Something to store: a path, a key, or a policy.
abbrev pub HasKey : InKubeConfig → Type 0
HasKey c =
    (is_some c.json_path ≡ true)
    ⊎ (is_some c.annotation_key ≡ true)
    ⊎ (is_some c.label_key ≡ true)
    ⊎ (is_empty c.marker_polices ≡ false)

check_target_iff : (t : Option TargetKubeObject) → (check_target t ≡ ok tt) ↔ HasTarget t
unfolding check_target
check_target_iff none = (λ h. tt, λ h. refl)
check_target_iff (some t) = (
  λ h. ground (arith, eq_iff t.version "", eq_iff t.resource "", eq_iff t.name ""),
  λ h. ground (arith, eq_iff t.version "", eq_iff t.resource "", eq_iff t.name ""),
)

check_keys_iff : (c : InKubeConfig) → (check_keys c ≡ ok tt) ↔ HasKey c
unfolding check_keys
check_keys_iff c = (λ h. ground arith, λ h. ground arith)

after_target-ok :
    (x : Outcome (Unit {0})) (c : InKubeConfig)
    → after_target x c ≡ ok tt
    → (x ≡ ok tt) × (check_keys c ≡ ok tt)
unfolding after_target
after_target-ok (ok tt) c h = (refl, h)
after_target-ok (err e) c h = cc
after_target-ok (panic p) c h = cc

-- IsValid accepts a configuration exactly when its target, if it has one, has a version, a resource
-- and a name, and it names a JSON path, an annotation, a label or a policy.
in_kube_is_valid_iff :
    (c : InKubeConfig) → (in_kube_is_valid c ≡ ok tt) ↔ (HasTarget c.target × HasKey c)
unfolding in_kube_is_valid after_target
in_kube_is_valid_iff c = (
  λ h.
      let parts = after_target-ok (check_target c.target) c h in
      ((check_target_iff c.target).0 parts.0, (check_keys_iff c).0 parts.1),
  λ h. rw ((check_target_iff c.target).1 h.0, after_target) ((check_keys_iff c).1 h.1),
)
