-- ===== src/Injector/Match/First.antt =====
-- The SidecarConfig that is chosen for a pod.
use Prim.Native.String.{◌++◌ as str_append}
use kidecar.Base.{
  String, ◌⊎◌, inl, inr, ◌∙◌, ◌≡◌, refl, ap, subst, Bool, true, false, Option, none, some, List, [],
  ◌∷◌, ◌++◌, if◌then◌else◌,
}
use kidecar.Base.Outcome.{ok}
use kidecar.Base.Exec.{pure, wrap_end, wrapping, ◌>>=◌}
use kidecar.Base.Inversion.{continue-ok, wrap_end-ok}
use kidecar.Base.Maps.{GoMap}
use kidecar.Kube.{Pod, LabelSelector}
use kidecar.Api.{SidecarConfig, SidecarConfigSpec, InjectConfig}
use kidecar.Injector.Client.{Client}
use kidecar.Injector.Match.{match_label_selector, match_namespace, match_pod, first_match}

module _ {W : Type 0} (client : Client W) (pod : Pod) where
  -- What a selector says of labels; without a selector every object is taken.
  abbrev LabelsAnswer : Option LabelSelector → GoMap String → Bool → Type 0
  LabelsAnswer none labels b = b ≡ true
  LabelsAnswer (some selector) labels b =
      (takes : GoMap String → Bool) × (client.label_selector_as_selector (some selector) ≡ ok takes)
      × (takes labels ≡ b)

  -- What a selector says of the namespace of the pod, whose labels the server is asked for.
  abbrev NamespaceAnswers : Option LabelSelector → Bool → W → W → Type 0
  NamespaceAnswers none b w w' = (b ≡ true) × (w ≡ w')
  NamespaceAnswers (some selector) b w w' =
      (takes : GoMap String → Bool) × (labels : GoMap String) × (client.label_selector_as_selector
          (some selector)
        ≡ ok takes)
      × (client.get_namespace pod.namespace w ≡ (ok labels, w'))
      × (takes labels ≡ b)

  -- A configuration takes the pod if both its selectors do, and does not if one of them does not.
  abbrev pub Fits : InjectConfig → Bool → W → W → Type 0
  Fits injection true w w' =
      NamespaceAnswers injection.namespace_selector true w w'
      × LabelsAnswer injection.selector pod.labels true
  Fits injection false w w' =
      NamespaceAnswers injection.namespace_selector false w w'
      ⊎ NamespaceAnswers injection.namespace_selector true w w'
        × LabelsAnswer injection.selector pod.labels false

  match_label_selector-LabelsAnswer :
      (o : Option LabelSelector) (labels : GoMap String) (b : Bool) (w w' : W)
      → match_label_selector client o labels w ≡ (ok b, w')
      → LabelsAnswer o labels b × (w ≡ w')
  unfolding match_label_selector
  match_label_selector-LabelsAnswer none labels b w w' h = (cc h, ap (λ x. x.1) h)
  match_label_selector-LabelsAnswer (some selector) labels b w w' h =
      let m =
        continue-ok (client.label_selector_as_selector (some selector), w)
          (λ takes. pure (takes labels)) b w' h in
      ((m.0, ap (λ x. x.0) m.2, cc m.3), ap (λ x. x.1) m.2 ∙ ap (λ x. x.1) m.3)

  match_namespace-NamespaceAnswers :
      (o : Option LabelSelector) (b : Bool) (w w' : W)
      → match_namespace client pod.namespace o w ≡ (ok b, w')
      → NamespaceAnswers o b w w'
  unfolding match_namespace
  match_namespace-NamespaceAnswers none b w w' h = (cc h, ap (λ x. x.1) h)
  match_namespace-NamespaceAnswers (some selector) b w w' h =
      let text = str_append "failed to get namespace " pod.namespace in
      let m =
        continue-ok (client.label_selector_as_selector (some selector), w)
          (λ takes.
            wrapping text (client.get_namespace pod.namespace) >>= λ labels. pure (takes labels))
          b w' h in
      let l =
        continue-ok (wrap_end text (client.get_namespace pod.namespace m.1))
          (λ labels. pure (m.0 labels)) b w' m.3 in
      let e = wrap_end-ok text (client.get_namespace pod.namespace m.1) l.0 l.1 l.2 in
      (m.0, l.0, ap (λ x. x.0) m.2, cc (e, ap (λ x. x.1) m.2, ap (λ x. x.1) l.3), cc l.3)

  fits :
      (spec : SidecarConfigSpec) (here b : Bool) (w v w' : W)
      → NamespaceAnswers spec.injection.namespace_selector here w v
      → (if here
            then match_label_selector client spec.injection.selector pod.labels
            else pure false)
          v
        ≡ (ok b, w')
      → Fits spec.injection b w w'
  fits spec true true w v w' n h =
      let l = match_label_selector-LabelsAnswer spec.injection.selector pod.labels true v w' h in
      (subst (NamespaceAnswers spec.injection.namespace_selector true w) l.1 n, l.0)
  fits spec true false w v w' n h =
      let l = match_label_selector-LabelsAnswer spec.injection.selector pod.labels false v w' h in
      inr (subst (NamespaceAnswers spec.injection.namespace_selector true w) l.1 n, l.0)
  fits spec false true w v w' n h = cc h
  fits spec false false w v w' n h =
      inl (subst (NamespaceAnswers spec.injection.namespace_selector false w) (ap (λ x. x.1) h) n)

  match_pod-Fits :
      (spec : SidecarConfigSpec) (b : Bool) (w w' : W)
      → match_pod client pod spec w ≡ (ok b, w')
      → Fits spec.injection b w w'
  unfolding match_pod
  match_pod-Fits spec b w w' h =
      let selector = spec.injection.namespace_selector in
      let m =
        continue-ok (match_namespace client pod.namespace selector w)
          (λ here.
            if here
            then match_label_selector client spec.injection.selector pod.labels
            else pure false)
          b w' h in
      let n = match_namespace-NamespaceAnswers selector m.0 w m.1 m.2 in
      fits spec m.0 b w m.1 w' n m.3

  -- Each configuration of the list, asked in turn, does not take the pod; the server goes from the
  -- first state to the last.
  unfoldable pub NoneFits : List SidecarConfig → W → W → Type 0
  NoneFits [] w w' = w ≡ w'
  NoneFits (config ∷ rest) w w' =
      (v : W) × Fits config.spec.injection false w v × NoneFits rest v w'

  -- What the choice promises.
  abbrev pub Chosen : List SidecarConfig → W → Option SidecarConfig → W → Type 0
  Chosen items w none w' = NoneFits items w w'
  Chosen items w (some config) w' =
      (before : List SidecarConfig) × (after : List SidecarConfig) × (v : W) × (items
        ≡ before ++ config ∷ after)
      × NoneFits before w v
      × Fits config.spec.injection true v w'

  later :
      (config : SidecarConfig) (rest : List SidecarConfig) (w v : W) (o : Option SidecarConfig)
      (w' : W)
      → Fits config.spec.injection false w v
      → Chosen rest v o w'
      → Chosen (config ∷ rest) w o w'
  unfolding NoneFits
  later config rest w v none w' m c = (v, m, c)
  later config rest w v (some d) w' m c =
      (config ∷ c.0, c.1, c.2, ap (◌∷◌ config) c.3, (v, m, c.4), c.5)

  decided :
      (config : SidecarConfig) (rest : List SidecarConfig) (o : Option SidecarConfig) (w w' : W)
      (b : Bool) (v : W)
      → ((u : W) → first_match client pod rest u ≡ (ok o, w') → Chosen rest u o w')
      → match_pod client pod config.spec w ≡ (ok b, v)
      → (if b then pure (some config) else first_match client pod rest) v ≡ (ok o, w')
      → Chosen (config ∷ rest) w o w'
  unfolding NoneFits
  decided config rest o w w' true v f e k =
      let q : some config ≡ o = cc k in
      subst (λ x. Chosen (config ∷ rest) w x w') q
        ([], rest, w, refl, refl, match_pod-Fits config.spec true w w' (cc (e, k)))
  decided config rest o w w' false v f e k =
      later config rest w v o w' (match_pod-Fits config.spec false w v e) (f v k)

  -- If the loop over the listed configurations ends without an error, then it ends with the first
  -- configuration whose selectors of namespaces and of pods both take the pod, a selector that is not
  -- set taking every pod, or with none if no configuration does; it asks for none behind the one that
  -- it chose.
  pub first_match-Chosen :
      (items : List SidecarConfig) (w w' : W) (o : Option SidecarConfig)
      → first_match client pod items w ≡ (ok o, w')
      → Chosen items w o w'
  unfolding first_match NoneFits
  first_match-Chosen [] w w' o h =
      let q : none ≡ o = cc h in
      let e : w ≡ w' = ap (λ x. x.1) h in subst (λ x. Chosen [] w x w') q e
  first_match-Chosen (config ∷ rest) w w' o h =
      let m =
        continue-ok (wrap_end "failed to match SidecarConfig" (match_pod client pod config.spec w))
          _ o w' h in
      let e =
        wrap_end-ok "failed to match SidecarConfig" (match_pod client pod config.spec w) m.0 m.1
          m.2 in
      decided config rest o w w' m.0 m.1 (λ v. first_match-Chosen rest v w' o) e m.3
