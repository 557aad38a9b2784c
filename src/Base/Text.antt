-- ===== src/Base/Text.antt =====
-- Texts that are not equal.
use kidecar.Base.{String, ◌≢◌, ◌≡◌, false, str_eq, eq_iff, arith}

pub different : (s t : String) → str_eq s t ≡ false → s ≢ t
different s t h e = ground (arith, eq_iff s t)
