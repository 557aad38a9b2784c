-- ===== src/Info/Names.antt =====
-- The key under which a pod's results are kept.
use Prim.Native.String.{◌++◌ as str_append}
use kidecar.Base.{◌∙◌, String, ◌≡◌, ◌≢◌, ap, [], ◌∷◌, arith, eq_iff}
use text.Mathlib.TextLemmas.{append_assoc, append-eq-nil_iff}
use kidecar.Base.Maps.{lookup}
use kidecar.Base.Outcome.{ok}
use kidecar.Info.{getenv, get_current_pod_info}
use kidecar.Process.{Environ}

-- The environment of a pod.
abbrev pub pod_environ : String → String → Environ
pod_environ namespace name = ("POD_NAMESPACE", namespace) ∷ ("POD_NAME", name) ∷ []

get_current_pod_info-ok :
    (namespace name : String)
    → namespace ≢ ""
    → name ≢ ""
    → get_current_pod_info (pod_environ namespace name)
      ≡ ok (str_append namespace (str_append "-" name))
unfolding get_current_pod_info getenv lookup
get_current_pod_info-ok namespace name h k = ground (arith, eq_iff namespace "", eq_iff name "")

-- The pod `c` of the namespace `a-b` and the pod `b-c` of the namespace `a` have the same key, for
-- all texts of which `a` and `c` are not empty: each overwrites the other's results.
get_current_pod_info-collision :
    (a b c : String)
    → a ≢ ""
    → c ≢ ""
    → (key : String) × (get_current_pod_info (pod_environ (str_append a (str_append "-" b)) c)
        ≡ ok key)
      × (get_current_pod_info (pod_environ a (str_append b (str_append "-" c))) ≡ ok key)
get_current_pod_info-collision a b c h k = (
  str_append a (str_append "-" (str_append b (str_append "-" c))),
  get_current_pod_info-ok (str_append a (str_append "-" b)) c (λ e. h (append-eq-nil_iff.0 e).0) k
      ∙ ap ok (
          append_assoc a (str_append "-" b) (str_append "-" c)
          ∙ ap (str_append a) (append_assoc "-" b (str_append "-" c))),
  get_current_pod_info-ok a (str_append b (str_append "-" c)) h
      (λ e. k (append-eq-nil_iff.0 (append-eq-nil_iff.0 e).1).1),
)
