-- ===== src/HotUpdate/Config/Valid.antt =====
-- Which configurations pass validateConfig.
use kidecar.Base.{
  Bool-cases, inl, inr, String, true, false, str_eq, refl, ◌≡◌, ◌≢◌, ◌↔◌, ◌⊎◌, arith, eq_iff,
}
use kidecar.Base.Outcome.{ok}
use kidecar.HotUpdate.Config.{
  HotUpdateConfig, validate_config, load_by_request_type, load_by_signal_type,
}

-- A way to load that has what it needs, and a directory.
abbrev pub CanLoad : HotUpdateConfig → Type 0
CanLoad c =
    (((c.load_patch_type ≡ load_by_signal_type) × (c.signal.signal_name ≢ ""))
      ⊎ ((c.load_patch_type ≡ load_by_request_type)
          × (c.request.address ≢ "")
          × (c.request.port ≢ 0)))
    × (c.file_dir ≢ "")

apart : (t : String) → str_eq t load_by_signal_type ≡ true → str_eq t load_by_request_type ≡ false
apart t h = rw ((eq_iff t load_by_signal_type).0 h) refl

-- validateConfig accepts a configuration exactly when it loads by signal and names a signal, or
-- loads by request and names an address and a port other than 0, and in both cases names a
-- directory. The name of the process is not looked at.
validate_config_iff : (c : HotUpdateConfig) → (validate_config c ≡ ok tt) ↔ CanLoad c
unfolding validate_config
validate_config_iff c = (
  λ h. elim (Bool-cases (str_eq c.load_patch_type load_by_signal_type)) [
    | inl a ↦ ground (
      arith,
      a,
      apart c.load_patch_type a,
      eq_iff c.load_patch_type load_by_signal_type,
      eq_iff c.load_patch_type load_by_request_type,
      eq_iff c.signal.signal_name "",
      eq_iff c.request.address "",
      eq_iff c.file_dir "",
    )
    | inr a ↦ elim (Bool-cases (str_eq c.load_patch_type load_by_request_type)) [
      | inl b ↦ ground (
        arith,
        a,
        b,
        eq_iff c.load_patch_type load_by_signal_type,
        eq_iff c.load_patch_type load_by_request_type,
        eq_iff c.signal.signal_name "",
        eq_iff c.request.address "",
        eq_iff c.file_dir "",
      )
      | inr b ↦ ground (
        arith,
        a,
        b,
        eq_iff c.load_patch_type load_by_signal_type,
        eq_iff c.load_patch_type load_by_request_type,
        eq_iff c.signal.signal_name "",
        eq_iff c.request.address "",
        eq_iff c.file_dir "",
      )
    ]
  ],
  λ h. elim (Bool-cases (str_eq c.load_patch_type load_by_signal_type)) [
    | inl a ↦ ground (
      arith,
      a,
      apart c.load_patch_type a,
      eq_iff c.load_patch_type load_by_signal_type,
      eq_iff c.load_patch_type load_by_request_type,
      eq_iff c.signal.signal_name "",
      eq_iff c.request.address "",
      eq_iff c.file_dir "",
    )
    | inr a ↦ elim (Bool-cases (str_eq c.load_patch_type load_by_request_type)) [
      | inl b ↦ ground (
        arith,
        a,
        b,
        eq_iff c.load_patch_type load_by_signal_type,
        eq_iff c.load_patch_type load_by_request_type,
        eq_iff c.signal.signal_name "",
        eq_iff c.request.address "",
        eq_iff c.file_dir "",
      )
      | inr b ↦ ground (
        arith,
        a,
        b,
        eq_iff c.load_patch_type load_by_signal_type,
        eq_iff c.load_patch_type load_by_request_type,
        eq_iff c.signal.signal_name "",
        eq_iff c.request.address "",
        eq_iff c.file_dir "",
      )
    ]
  ],
)
