-- ===== src/Tests/Template.antt =====
-- An address with the name of the pod in it.
use Prim.Native.String.{◌++◌ as str_append}
use kidecar.Base.{[], ◌∷◌, none}
use kidecar.Kube.{Container}
use kidecar.Process.{Environ}

abbrev env : Environ
env = ("POD_NAME", "web-0") ∷ []

abbrev web : Container
web = record {
  name = "web";
  image = "nginx";
  env = [];
  ports = [];
  volume_mounts = [];
  restart_policy = none;
}
