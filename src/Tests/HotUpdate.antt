-- ===== src/Tests/HotUpdate.antt =====
-- The plugin hot_update on a host that has every file and every page.
use Prim.Native.String.{count}
use kidecar.Base.{String, refl, ◌≡◌, ◌↔◌, ◌⊎◌, true, false, none, List, [], ◌∷◌, arith, ltb, str_eq}
use kidecar.Base.Maps.{lookup}
use kidecar.Base.Outcome.{ok, err, msg}
use kidecar.Store.Factory.{new_storage_factory}
use kidecar.HotUpdate.Config.{HotUpdateConfig}
use kidecar.HotUpdate.Version.{Semver, newest, is_valid_version}
use kidecar.HotUpdate.Version.Grammar.{Number, AreNumbers, print_version, is_valid_version_iff}
use kidecar.HotUpdate.Version.Newest.{SemverLaws, AtMost, IsEntry, newest-AtMost}
use kidecar.HotUpdate.Processes.{find_pid}
use kidecar.HotUpdate.Processes.Find.{Found, find_pid-Found}
use kidecar.HotUpdate.State.{form_value, Host, HttpRequest, HotUpdate, Services}
use kidecar.HotUpdate.Handler.{hot_update_handle}
use kidecar.HotUpdate.Handler.Refused.{is_accepted, OnlyAnswered, hot_update_handle-refused}
use kidecar.HotUpdate.Health.{new_status}
use kidecar.HotUpdate.Plugin.{Filled, status, set_up, register, serve}
use kidecar.Info.Names.{pod_environ}
use kidecar.Tests.World.{World, kube, yaml, prom}

-- The longer version is the newer one.
abbrev by_length : Semver
by_length = record { less = λ a b. ltb (count a) (count b) }

by_length_laws : SemverLaws by_length
by_length_laws = record {
  irreflexive = λ a. ground arith;
  asymmetric = λ a b h. ground (arith, h);
  through = λ a b c h k. ground (arith, h, k);
}

abbrev pub host : Host World
host = record {
  missing = λ dir w. (ok false, w);
  exists = λ path w. (ok true, w);
  mkdir_all = λ dir w. (ok tt, w);
  remove = λ path w. (ok tt, w);
  create = λ path w. (ok tt, w);
  copy = λ path text w. (ok tt, w);
  url_path = λ url. ok url;
  base = λ path. path;
  join = λ dir path. path;
  http_get = λ url w. (ok (200, "file"), w);
  ps_aux = λ w. (ok "root 7 nginx", w);
  kill = λ name pid w. (ok tt, w);
  listen_and_serve = λ address w. (ok tt, w);
}

abbrev pub lib : Services World String
lib = record {
  kube = kube;
  prom = prom;
  yaml = yaml;
  semver = by_length;
  host = host;
  env = pod_environ "shop" "web-0";
}

abbrev pub by_signal : HotUpdateConfig
by_signal = record {
  load_patch_type = "signal";
  signal = record { signal_name = "SIGHUP"; process_name = "nginx" };
  request = record { address = ""; port = 0 };
  file_dir = "/files";
  storage_config = record { type = "InKube"; in_kube = none; http_metric = none };
}

abbrev plugin : HotUpdate World
plugin = record {
  config = by_signal;
  factory = new_storage_factory;
  result = record { result = ""; version = ""; url = "" };
  proc = record { cache = []; handlers = []; api = record { configmap = none; config = none } };
  response = record { codes = []; body = [] };
}

abbrev bad_version : HttpRequest
bad_version = record { method = "POST"; form = ("version", "1.0") ∷ ("url", "http://files/1") ∷ [] }

refused : is_accepted bad_version ≡ false
unfolding is_valid_version form_value lookup
refused = refl

hot_update_handle-refused_example :
    ((hot_update_handle lib bad_version plugin).0 ≡ ok tt)
    × (((str_eq "POST" "POST" ≡ false)
          × OnlyAnswered 405 plugin (hot_update_handle lib bad_version plugin).1)
        ⊎ ((str_eq "POST" "POST" ≡ true)
            × OnlyAnswered 400 plugin (hot_update_handle lib bad_version plugin).1))
hot_update_handle-refused_example = hot_update_handle-refused lib bad_version plugin refused

is_valid_version_iff_example :
    (is_valid_version "v1.20" ≡ true)
    ↔ ((n : Number) × (ns : List Number) × AreNumbers (n ∷ ns) × ("v1.20" ≡ print_version n ns))
is_valid_version_iff_example = is_valid_version_iff "v1.20"

newest-AtMost_example :
    ((newest by_length ("", "") (("v1", "a") ∷ ("v1.2", "b") ∷ []) ≡ ("", ""))
      ⊎ IsEntry
          (newest by_length ("", "") (("v1", "a") ∷ ("v1.2", "b") ∷ []))
          (("v1", "a") ∷ ("v1.2", "b") ∷ []))
    × AtMost by_length
        (newest by_length ("", "") (("v1", "a") ∷ ("v1.2", "b") ∷ [])).0
        (("v1", "a") ∷ ("v1.2", "b") ∷ [])
newest-AtMost_example = newest-AtMost by_length by_length_laws (("v1", "a") ∷ ("v1.2", "b") ∷ [])

find_pid-Found_example :
    Found "nginx"
      ("root 7 sh" ∷ "root 12 nginx" ∷ [])
      (find_pid "nginx" ("root 7 sh" ∷ "root 12 nginx" ∷ []))
find_pid-Found_example = find_pid-Found "nginx" ("root 7 sh" ∷ "root 12 nginx" ∷ [])

-- A server that fails when it is closed.
abbrev closing : Services World String
closing = record lib {
  host = record host { listen_and_serve = λ address w. (err (msg "closed"), w) };
}

abbrev filled : Filled World
filled = record { fields = plugin; status = new_status }

abbrev some_request : HttpRequest
some_request = record { method = "GET"; form = [] }

abbrev after_request : Filled World
after_request = (serve closing (some_request ∷ []) (register closing (set_up closing filled).1).1).1
