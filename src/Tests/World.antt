-- ===== src/Tests/World.antt =====
-- A small API server, and the libraries around it, as concrete functions.
use kidecar.Base.{
  subst, String, ◌≡◌, refl, ap, Bool, true, false, ◌&&◌, Option, none, some, [], ◌∷◌, arith, eq_iff,
  eq_refl, str_eq, if◌then◌else◌,
}
use kidecar.Base.Maps.{Entries, GoMap, entries, find}
use kidecar.Base.Outcome.{Err, Outcome, ok, err, msg}
use kidecar.Kube.{Pod, ConfigMap}
use kidecar.Process.{KubeInterface}
use kidecar.Api.{SidecarConfig}
use kidecar.Injector.Client.{Client}
use kidecar.Injector.Configmap.Ensure.{Server}
use kidecar.Injector.Encode.{Encoder}
use kidecar.Injector.Inject.{Controller}
use kidecar.Injector.Inject.Status.{ConfigServer}
use kidecar.Store.Metrics.{Prometheus}
use kidecar.Store.Persistent.{Yaml, Results}
use kidecar.Store.Persistent.Put.{SameResults, held}
use kidecar.Store.Persistent.RoundTrip.{ConfigmapLaws}
use kidecar.Store.Persistent.Text.{YamlLaws}

pub record World : Type 0 where
  pub configmap : Option ConfigMap
  pub config : Option SidecarConfig

abbrev pub named_configmap : String → String → Option ConfigMap → Option ConfigMap
named_configmap ns name none = none
named_configmap ns name (some cm) =
    if str_eq cm.namespace ns && str_eq cm.name name then some cm else none

abbrev pub named_config : String → String → Option SidecarConfig → Option SidecarConfig
named_config ns name none = none
named_config ns name (some c) = if str_eq c.namespace ns && str_eq c.name name then some c else none

abbrev pub answer : {A : Type 0} → Option A → World → Outcome A × World
answer (some a) w = (ok a, w)
answer none w = (err (msg "not found"), w)

abbrev pub create_at : ConfigMap → Option ConfigMap → World → Outcome (Unit {0}) × World
create_at cm none w = (ok tt, record w { configmap = some cm })
create_at cm (some d) w = (err (msg "exists"), w)

abbrev pub create : ConfigMap → World → Outcome (Unit {0}) × World
create cm w = create_at cm w.configmap w

abbrev pub is_subset : Entries String → GoMap String → Bool
is_subset [] labels = true
is_subset ((k, v) ∷ m) labels =
    (elim (find k labels) [ some w ↦ str_eq w v | none ↦ false ]) && is_subset m labels

abbrev pub client : Client World
client = record {
  list_sidecar_configs = λ w. (ok (elim w.config [ none ↦ [] | some c ↦ c ∷ [] ]), w);
  get_namespace = λ ns w. (ok none, w);
  get_service_account = λ ns name w. (ok tt, w);
  get_sidecar_config = λ ns name w. answer (named_config ns name w.config) w;
  update_status = λ c w. (ok tt, record w { config = some c });
  get_configmap = λ ns name w. answer (named_configmap ns name w.configmap) w;
  create_configmap = create;
  update_configmap = λ cm w. (ok tt, record w { configmap = some cm });
  list_pods = λ ns labels w. (ok [], w);
  is_not_found = λ e. elim e [ msg t ↦ str_eq t "not found" | Err.wrap t f ↦ false ];
  is_already_exists = λ e. elim e [ msg t ↦ str_eq t "exists" | Err.wrap t f ↦ false ];
  label_selector_as_selector = λ s. elim s [
    | none ↦ ok (λ labels. false)
    | some l ↦ ok (is_subset (entries l.match_labels))
  ];
  retry_on_conflict = λ fn. fn;
}

pub answer-ok :
    {A : Type 0} (o : Option A) (w w' : World) (a : A)
    → answer o w ≡ (ok a, w')
    → (o ≡ some a) × (w ≡ w')
answer-ok (some b) w w' a h = (cc, ap (λ x. x.1) h)
answer-ok none w w' a h = cc

pub configmap-named :
    (ns name : String) (o : Option ConfigMap) (cm : ConfigMap)
    → named_configmap ns name o ≡ some cm
    → (cm.namespace ≡ ns) × (cm.name ≡ name)
configmap-named ns name none cm h = cc
configmap-named ns name (some c) cm h = ground (arith, eq_iff c.namespace ns, eq_iff c.name name, h)

pub config-named :
    (ns name : String) (o : Option SidecarConfig) (c : SidecarConfig)
    → named_config ns name o ≡ some c
    → (c.namespace ≡ ns) × (c.name ≡ name)
config-named ns name none c h = cc
config-named ns name (some d) c h = ground (arith, eq_iff d.namespace ns, eq_iff d.name name, h)

pub configmap_self : (cm : ConfigMap) → named_configmap cm.namespace cm.name (some cm) ≡ some cm
configmap_self cm = rw (eq_refl cm.namespace, eq_refl cm.name) refl

pub config_self : (c : SidecarConfig) → named_config c.namespace c.name (some c) ≡ some c
config_self c = rw (eq_refl c.namespace, eq_refl c.name) refl

created_at :
    (cm : ConfigMap) (o : Option ConfigMap) (w w' : World)
    → create_at cm o w ≡ (ok tt, w')
    → named_configmap cm.namespace cm.name w'.configmap ≡ some cm
created_at cm none w w' h =
    subst (λ v. named_configmap cm.namespace cm.name v.configmap ≡ some cm) (ap (λ x. x.1) h)
      (configmap_self cm)
created_at cm (some d) w w' h = cc

pub created :
    (cm : ConfigMap) (w w' : World)
    → create cm w ≡ (ok tt, w')
    → named_configmap cm.namespace cm.name w'.configmap ≡ some cm
created cm w w' h = created_at cm w.configmap w w' h

abbrev pub server : Server client
server = record {
  held = λ w ns name. named_configmap ns name w.configmap;
  named = λ ns name w w' cm h.
      let a = answer-ok (named_configmap ns name w.configmap) w w' cm h in
      configmap-named ns name w.configmap cm a.0;
  created = created;
  updated = λ cm w w' h.
      subst (λ v. named_configmap cm.namespace cm.name v.configmap ≡ some cm) (ap (λ x. x.1) h)
        (configmap_self cm);
  retried = λ fn w w' h. (w, h);
  retry_panics = λ fn w w' p h. h;
}

abbrev pub config_server : ConfigServer client
config_server = record {
  held = λ w ns name. named_config ns name w.config;
  got = λ ns name w w' c h.
      config-named ns name w.config c (answer-ok (named_config ns name w.config) w w' c h).0;
  updated = λ c w w' h.
      subst (λ v. named_config c.namespace c.name v.config ≡ some c) (ap (λ x. x.1) h)
        (config_self c);
}

abbrev pub encoder : Encoder String
encoder = record { unmarshal = λ text. ok text; marshal = λ c. ok "plugins: []" }

abbrev pub controller : Controller World String
controller = record { client = client; encoder = encoder; hash = λ t. t; image = "" }

abbrev pub own_pod : Pod
own_pod = record {
  name = "web-0";
  namespace = "shop";
  labels = some (("app", "web") ∷ []);
  annotations = none;
  service_account_name = "";
  containers =
      record {
        name = "web";
        image = "nginx";
        env = [];
        ports = [];
        volume_mounts =
            record { name = "logs"; mount_path = "/logs" }
            ∷ record {
              name = "token";
              mount_path = "/var/run/secrets/kubernetes.io/serviceaccount";
            }
            ∷ [];
        restart_policy = none;
      }
      ∷ [];
  init_containers = [];
  volumes = [];
  share_process_namespace = none;
  phase = "Running";
}

abbrev pub kube : KubeInterface World
kube = record {
  get_pod = λ ns name w. (ok own_pod, w);
  patch_pod = λ ns name patch w. (ok tt, w);
  get_configmap = λ ns name w. answer (named_configmap ns name w.configmap) w;
  update_configmap = λ cm w. (ok tt, record w { configmap = some cm });
  patch_resource = λ gvr ns name ops w. (ok tt, w);
  new_dynamic = ok tt;
  name_string = λ n. n.name;
  retry_on_conflict = λ fn. fn;
}

abbrev pub configmap_laws : ConfigmapLaws kube
configmap_laws = record {
  named = λ ns name w w' cm h.
      configmap-named ns name w.configmap cm
        (answer-ok (named_configmap ns name w.configmap) w w' cm h).0;
  served = λ cm w w' h.
      subst (λ v. answer (named_configmap cm.namespace cm.name v.configmap) v ≡ (ok cm, v))
        (ap (λ x. x.1) h) (rw (configmap_self cm) refl);
}

-- A YAML library that knows the documents with one version of the plugin hot_update.
abbrev pub one_version : String → Results
one_version url = some (("hot_update", some (("v1", url) ∷ [])) ∷ [])

abbrev pub marshal_one : Results → Outcome String
marshal_one (some ((type, some ((version, url) ∷ [])) ∷ [])) =
    if str_eq type "hot_update" && str_eq version "v1" then ok url else err (msg "unknown")
marshal_one m = err (msg "unknown")

abbrev pub yaml : Yaml
yaml = record { unmarshal = λ text m. ok (one_version text); marshal = marshal_one }

one-parts :
    (type version url text : String)
    → (if str_eq type "hot_update" && str_eq version "v1" then ok url else err (msg "unknown"))
      ≡ ok text
    → (type ≡ "hot_update") × (version ≡ "v1") × (url ≡ text)
one-parts type version url text h = ground (arith, eq_iff type "hot_update", eq_iff version "v1", h)

pub one-same :
    (type version url text : String)
    → (if str_eq type "hot_update" && str_eq version "v1" then ok url else err (msg "unknown"))
      ≡ ok text
    → SameResults (some ((type, some ((version, url) ∷ [])) ∷ [])) (one_version text)
one-same type version url text h t v =
    let p = one-parts type version url text h in
    let q : some ((type, some ((version, url) ∷ [])) ∷ []) ≡ one_version text =
      cc (p.0, p.1, p.2) in
    ap (held t v) q

pub marshal_one-same :
    (a : Results) (text : String) → marshal_one a ≡ ok text → SameResults a (one_version text)
marshal_one-same (some ((type, some ((version, url) ∷ [])) ∷ [])) text h =
    one-same type version url text h
marshal_one-same (some ((type, some ((version, url) ∷ e ∷ m)) ∷ [])) text h = cc
marshal_one-same (some ((type, some []) ∷ [])) text h = cc
marshal_one-same (some ((type, none) ∷ [])) text h = cc
marshal_one-same (some ((type, none) ∷ b ∷ m)) text h = cc
marshal_one-same (some ((type, some []) ∷ b ∷ m)) text h = cc
marshal_one-same (some ((type, some ((version, url) ∷ [])) ∷ b ∷ m)) text h = cc
marshal_one-same (some ((type, some ((version, url) ∷ e ∷ i)) ∷ b ∷ m)) text h = cc
marshal_one-same (some []) text h = cc
marshal_one-same none text h = cc

abbrev pub yaml_laws : YamlLaws yaml
yaml_laws = record { decoded = λ a text h. (one_version text, refl, marshal_one-same a text h) }

abbrev pub prom : Prometheus World String
prom = record {
  must_register = λ name w. (ok tt, w);
  set_gauge = λ name f w. (ok tt, w);
  parse_float = λ text. ok text;
}
