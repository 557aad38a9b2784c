-- ===== src/Tests/HttpProbe.antt =====
-- A probe of an endpoint that answers "ready", and a prober of one endpoint.
use kidecar.Base.{String, refl, ◌≡◌, true, false, none, some, [], arith}
use kidecar.Base.Int.{pos}
use kidecar.Base.Outcome.{ok}
use kidecar.Store.Factory.{StoreState, new_storage_factory}
use kidecar.HttpProbe.Config.{EndpointConfig}
use kidecar.HttpProbe.Executor.{Libraries, probe}
use kidecar.HttpProbe.Executor.Probed.{IsProbed, probe-IsProbed}
use kidecar.HttpProbe.Workers.{
  Workers, at_start, begin, launch, probe_again, launched, Run, here, next, waiting,
}
use kidecar.HttpProbe.Health.{increment_goroutines}
use kidecar.HttpProbe.Workers.Invariant.{IsSound, Run-IsSound}
use kidecar.HttpProbe.Workers.Endless.{IsUp, Run-endless}
use kidecar.Tests.World.{World, kube, prom}
use kidecar.Tests.Store.{marked, env}

abbrev lib : Libraries World String String String
lib = record {
  kube = kube;
  prom = prom;
  web = record {
    new_request = λ method url. ok tt;
    send = λ method url headers w. (ok (200, "ready"), w);
    read_all = λ body w. (ok body, w);
  };
  gjson = record { valid = λ t. true; get = λ t path. none; as_string = λ v. some v };
  env = env;
}

abbrev endpoint : EndpointConfig
endpoint = record {
  url = "http://localhost/healthz";
  method = "GET";
  headers = none;
  timeout = pos 1;
  expected_status_code = 200;
  storage_config = record { type = "InKube"; in_kube = some marked; http_metric = none };
  json_path_config = none;
}

abbrev state : StoreState World
state = record {
  factory = new_storage_factory;
  config = endpoint.storage_config;
  proc = record { cache = []; handlers = []; api = record { configmap = none; config = none } };
}

abbrev probed : StoreState World
unfolding probe
probed = (probe lib endpoint state).1

probe_runs : probe lib endpoint state ≡ (ok tt, probed)
unfolding probe new_storage_factory
probe_runs = refl

probe-IsProbed_example : IsProbed lib endpoint state probed
probe-IsProbed_example = probe-IsProbed lib endpoint state probed probe_runs

-- The prober of one endpoint under a context that never ends, until it waits.
abbrev probing_one : Workers
probing_one = record at_start {
  phase = waiting;
  shared = record { status = "Running"; err = none; active = 1 };
  probing = 1;
}

four_steps : Run false 1 4 probing_one
unfolding increment_goroutines
four_steps =
    next
      (next (next (next here (begin refl (ground arith) refl)) (launch 0 refl refl))
        (probe_again 0 refl refl refl))
      (launched refl refl)

Run-IsSound_example : IsSound 1 probing_one
Run-IsSound_example = Run-IsSound (omega arith) four_steps

Run-endless_example :
    IsUp probing_one.phase
    × (probing_one.phase ≡ waiting
        → (probing_one.shared.status ≡ "Running") × (probing_one.shared.active ≡ 1))
Run-endless_example = Run-endless (ground arith) (omega arith) four_steps
