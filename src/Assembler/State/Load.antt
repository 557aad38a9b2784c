-- ===== src/Assembler/State/Load.antt =====
-- LoadConfig of a file that can be read.
use kidecar.Base.{String, Option, ◌≡◌, refl}
use kidecar.Base.Outcome.{ok}
use kidecar.Api.Sidecar.{SidecarConfig}
use kidecar.Assembler.State.{Files, Sidecar, read_config, load_config}

pub load_config-ok :
    {P H J M : Type 0} (files : Files J) (path text : String) (o : Option (SidecarConfig J))
    (s : Sidecar P H J M)
    → files.read_file path ≡ ok text
    → files.unmarshal text ≡ ok o
    → load_config files path s ≡ (ok tt, record s { config = o })
unfolding load_config read_config
load_config-ok files path text o s r u = rw (r, u) refl
