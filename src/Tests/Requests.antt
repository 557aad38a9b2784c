-- ===== src/Tests/Requests.antt =====
-- Two requests to the plugin hot_update at the same time.
use kidecar.Base.{◌≡◌, refl, true, ℕ, none, List, [], ◌∷◌, ◌++◌}
use kidecar.Base.Maps.{lookup}
use kidecar.Store.Factory.{new_storage_factory}
use kidecar.HotUpdate.Config.{url_key}
use kidecar.HotUpdate.Version.{is_valid_version}
use kidecar.HotUpdate.State.{HttpRequest, HotUpdate, Response, form_value}
use kidecar.HotUpdate.Load.{store_data_to_configmap}
use kidecar.HotUpdate.Handler.Refused.{is_accepted}
use kidecar.HotUpdate.Pair.{pair_of}
use kidecar.HotUpdate.Requests.{turns}
use kidecar.HotUpdate.Requests.Mixed.{two_requests, both_addressed, store_pair, pair_of-turns}
use kidecar.Tests.World.{World}
use kidecar.Tests.HotUpdate.{lib, by_signal}

abbrev silent : Response
silent = record { codes = []; body = [] }

abbrev plugin : HotUpdate World
plugin = record {
  config = by_signal;
  factory = new_storage_factory;
  result = record { result = ""; version = ""; url = "" };
  proc = record { cache = []; handlers = []; api = record { configmap = none; config = none } };
  response = silent;
}

abbrev older : HttpRequest
older = record { method = "POST"; form = ("version", "v1") ∷ ("url", "http://files/v1") ∷ [] }

abbrev newer : HttpRequest
newer = record { method = "POST"; form = ("version", "v2") ∷ ("url", "http://files/v2") ∷ [] }

older_accepted : is_accepted older ≡ true
unfolding is_valid_version form_value lookup
older_accepted = refl

newer_accepted : is_accepted newer ≡ true
unfolding is_valid_version form_value lookup
newer_accepted = refl

pair_of-turns_example :
    (ns : List ℕ) × ((turns lib ns (two_requests older newer silent silent, plugin)).0
      ≡ both_addressed silent silent)
    × ((more : List ℕ)
        → (pair_of (turns lib (ns ++ more) (two_requests older newer silent silent, plugin)).1
            ≡ (form_value newer "version", form_value older url_key))
          × (store_data_to_configmap lib
                (turns lib (ns ++ more) (two_requests older newer silent silent, plugin)).1
              ≡ store_pair lib
                  (form_value newer "version", form_value older url_key)
                  (turns lib (ns ++ more) (two_requests older newer silent silent, plugin)).1))
pair_of-turns_example =
    pair_of-turns lib older newer silent silent plugin older_accepted newer_accepted
