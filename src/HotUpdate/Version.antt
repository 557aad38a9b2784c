-- ===== src/HotUpdate/Version.antt =====
-- `isValidVersion` of pkg/plugins/hot_update/help.go: the pattern `^v\d+(?:\.\d+)*$`, and the choice
-- of the newest version in `setHotUpdateConfigWhenStart` of executor.go.
pub mod Grammar
pub mod Newest
use Prim.Native.Char.{Char, code}
use kidecar.Base.{String, Bool, true, false, ◌&&◌, [], ◌∷◌, leb, eqb, if◌then◌else◌}
use kidecar.Base.Maps.{Entries}

unfoldable pub is_digit : Char → Bool
is_digit c = leb b'0' (code c) && leb (code c) b'9'

-- The pattern behind the `v`; the flag says whether a digit must come next.
unfoldable pub digit_groups : Bool → String → Bool
unfolding is_digit
digit_groups true String.[] = false
digit_groups false String.[] = true
digit_groups true (String.◌∷◌ c s) = is_digit c && digit_groups false s
digit_groups false (String.◌∷◌ c s) =
    let more = digit_groups false s in
    let next = digit_groups true s in if is_digit c then more else eqb (code c) b'.' && next

unfoldable pub is_valid_version : String → Bool
unfolding digit_groups
is_valid_version String.[] = false
is_valid_version (String.◌∷◌ c s) = eqb (code c) b'v' && digit_groups true s

-- golang.org/x/mod/semver: `less a b` is `Compare(a, b) < 0`.
pub record Semver : Type 0 where
  pub less : String → String → Bool

-- for v, u := range result { if semver.Compare(version, v) < 0 { version, url = v, u } }
unfoldable pub newest : Semver → String × String → Entries String → String × String
newest semver best [] = best
newest semver best ((v, u) ∷ rest) =
    newest semver (if semver.less best.0 v then (v, u) else best) rest
