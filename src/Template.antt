-- ===== src/Template.antt =====
-- pkg/template: environment variables in a configuration, `${SELF:NAME}` and `${POD:NAME}`.
pub mod Whole
pub mod Reflect
use Prim.Native.Char.{code}
use Prim.Native.String.{◌++◌ as str_append}
use kidecar.Base.{String, Option, none, some, List, [], ◌∷◌, str_eq, eqb, if◌then◌else◌}
use kidecar.Base.Maps.{lookup}
use kidecar.Base.Outcome.{Outcome, ok, err, panic, msg, out_of_range}
use kidecar.Base.Exec.{Exec, pure, lift, gets, modify, wrapping, on_first, ◌>>=◌, ◌>>◌}
use kidecar.Kube.{EnvVar, Container, Pod}
use kidecar.Process.{Environ, Process, KubeInterface}
use kidecar.Info.{get_current_pod}
use kidecar.Store.Config.{TargetKubeObject, InKubeConfig, StorageConfig, HttpMetricConfig}

-- The text behind a prefix.
strip : String → String → Option String
strip String.[] s = some s
strip (String.◌∷◌ p ps) String.[] = none
strip (String.◌∷◌ p ps) (String.◌∷◌ c s) = if eqb (code p) (code c) then strip ps s else none

-- `[^}]*\}`: the text up to the first closing brace, if there is one.
up_to_brace : String → Option String
up_to_brace String.[] = none
up_to_brace (String.◌∷◌ c s) =
    let rest = up_to_brace s in
    if eqb (code c) b'}'
    then some String.[]
    else elim rest [ none ↦ none | some name ↦ some (String.◌∷◌ c name) ]

-- `[^}]+\}`
name_of : String → Option String
unfolding up_to_brace
name_of s = elim (up_to_brace s) [
  | none ↦ none
  | some name ↦ if str_eq name "" then none else some name
]

named : String → Option String → Option (String × String)
unfolding name_of
named type none = none
named type (some rest) = elim (name_of rest) [ none ↦ none | some name ↦ some (type, name) ]

-- The groups of `\$\{(SELF|POD):([^}]+)\}` at the start of a text.
match_here : String → Option (String × String)
unfolding strip named
match_here s = elim (named "SELF" (strip "${SELF:" s)) [
  | some m ↦ some m
  | none ↦ named "POD" (strip "${POD:" s)
]

-- Regexp.FindStringSubmatch: the leftmost match.
unfoldable pub find_submatch : String → Option (String × String)
unfolding match_here
find_submatch String.[] = match_here String.[]
find_submatch (String.◌∷◌ c s) =
    let later = find_submatch s in
    elim (match_here (String.◌∷◌ c s)) [ some m ↦ some m | none ↦ later ]

-- The loop over container.Env.
unfoldable pub find_env : String → List EnvVar → Option String
find_env name [] = none
find_env name (v ∷ vs) = if str_eq v.name name then some v.value else find_env name vs

pub or_not_found : String → Option String → Outcome String
or_not_found name none =
    err (msg (str_append "environment variable " (str_append name " not found")))
or_not_found name (some v) = ok v

resolve : Environ → List EnvVar → String → String → Outcome String
unfolding lookup find_env or_not_found
resolve env vars type name =
    if str_eq type "SELF"
    then or_not_found name (lookup name env)
    else if str_eq type "POD"
    then or_not_found name (find_env name vars)
    else err (msg (str_append "unknown environment variable type: " type))

-- ReplaceValue
unfoldable pub replace_value : Environ → String → Container → Outcome String
unfolding find_submatch resolve
replace_value env value container = elim (find_submatch value) [
  | none ↦ ok value
  | some (type, name) ↦ resolve env container.env type name
]

-- expressionReplaceValue: pod.Spec.Containers[0] panics for a pod with no container.
unfoldable pub expression_replace_value : Environ → String → Pod → Outcome String
unfolding replace_value
expression_replace_value env value pod = elim pod.containers [
  | [] ↦ panic out_of_range
  | c ∷ cs ↦ replace_value env value c
]

-- ParseConfig walks a structure by reflection. These are its walks over the one structure that the
-- program gives it, a StorageConfig: each level reads the current pod, the fields with the tag
-- `parse:"true"` are replaced in place, and structures behind pointers are walked in their turn.
module _ {W : Type 0} (kube : KubeInterface W) (env : Environ) where
  this_pod : {C : Type 0} → Exec (Process W × C) Pod
  unfolding get_current_pod
  this_pod = on_first (wrapping "failed to get current pod" (get_current_pod kube env))

  unfoldable pub replace_target : Pod → Exec (Process W × TargetKubeObject) (Unit {0})
  unfolding expression_replace_value
  replace_target pod = do
    t ← gets (λ s. s.1)
    namespace ←
        wrapping "failed to parse field Namespace"
          (lift (expression_replace_value env t.namespace pod))
    modify (λ s. (s.0, record (s.1) { namespace = namespace }))
    name ← wrapping "failed to parse field Name" (lift (expression_replace_value env t.name pod))
    modify (λ s. (s.0, record (s.1) { name = name }))

  unfoldable pub parse_target : Exec (Process W × TargetKubeObject) (Unit {0})
  unfolding this_pod replace_target
  parse_target = this_pod >>= replace_target

  put_target :
      InKubeConfig
      → Outcome (Unit {0}) × (Process W × TargetKubeObject)
      → Outcome (Unit {0}) × (Process W × InKubeConfig)
  put_target c (r, (p, t)) = (r, (p, record c { target = some t }))

  walk_target : Option TargetKubeObject → Exec (Process W × InKubeConfig) (Unit {0})
  unfolding put_target parse_target
  walk_target none s = (ok tt, s)
  walk_target (some t) (p, c) = put_target c (parse_target (p, t))

  -- Of the fields of InKubeConfig, the first alone is a pointer to a structure.
  replace_in_kube : Exec (Process W × InKubeConfig) (Unit {0})
  unfolding walk_target
  replace_in_kube = do c ← gets (λ s. s.1); walk_target c.target

  unfoldable pub parse_in_kube : Exec (Process W × InKubeConfig) (Unit {0})
  unfolding this_pod replace_in_kube
  parse_in_kube = this_pod >> replace_in_kube

  put_in_kube :
      StorageConfig
      → Outcome (Unit {0}) × (Process W × InKubeConfig)
      → Outcome (Unit {0}) × (Process W × StorageConfig)
  put_in_kube c (r, (p, k)) = (r, (p, record c { in_kube = some k }))

  walk_in_kube : Option InKubeConfig → Exec (Process W × StorageConfig) (Unit {0})
  unfolding put_in_kube parse_in_kube
  walk_in_kube none s = (ok tt, s)
  walk_in_kube (some k) (p, c) = put_in_kube c (parse_in_kube (p, k))

  -- HTTPMetricConfig has no field to replace; the walk over it reads the current pod.
  walk_http_metric : Option HttpMetricConfig → Exec (Process W × StorageConfig) (Unit {0})
  unfolding this_pod
  walk_http_metric none = pure tt
  walk_http_metric (some m) = do this_pod; pure tt

  replace_storage : Exec (Process W × StorageConfig) (Unit {0})
  unfolding walk_in_kube walk_http_metric
  replace_storage = do c ← gets (λ s. s.1); walk_in_kube c.in_kube; walk_http_metric c.http_metric

  -- ParseConfig, at a StorageConfig
  unfoldable pub parse_config : Exec (Process W × StorageConfig) (Unit {0})
  unfolding this_pod replace_storage
  parse_config = this_pod >> replace_storage
