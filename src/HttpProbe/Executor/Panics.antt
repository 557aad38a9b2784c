-- ===== src/HttpProbe/Executor/Panics.antt =====
-- A path of the JSON text at which there is no text.
use kidecar.Base.{String, ◌≡◌, refl, true, arith, some, none, eqb}
use kidecar.Base.Outcome.{ok, panic, bad_type}
use kidecar.Store.Factory.{StoreState}
use kidecar.HttpProbe.Config.{JsonPathConfig, EndpointConfig}
use kidecar.HttpProbe.Executor.{
  Libraries, probe, ask, check_status, extract_and_store, extract_data, as_text,
}

module _ {W F B J : Type 0} (lib : Libraries W F B J) where
  -- The body is a JSON text that has a number, an object, or another value that is no text at the
  -- configured path.
  abbrev pub HasOtherValue : EndpointConfig → String → Type 0
  HasOtherValue config body =
      (c : JsonPathConfig) × (v : J) × (config.json_path_config ≡ some c)
      × (lib.gjson.valid body ≡ true)
      × (lib.gjson.get body c.json_path ≡ some v)
      × (lib.gjson.as_string v ≡ none)

  probe-panics :
      (config : EndpointConfig) (s s1 : StoreState W) (body : String)
      → ask lib config s ≡ (ok (config.expected_status_code, body), s1)
      → HasOtherValue config body
      → probe lib config s ≡ (panic bad_type, s1)
  unfolding probe check_status extract_and_store extract_data as_text
  probe-panics config s s1 body a h =
      let k : eqb config.expected_status_code config.expected_status_code ≡ true = ground arith in
      rw (a, k, h.2, h.3, h.4, h.5) refl
