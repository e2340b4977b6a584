-- ===== src/Bom/Channel.antt =====
-- `ReleaseChannel` of pkg/distribution/bom/types.go.
use sealos_lifecycle.Base.{
  String, ◌==◌, contains, string_eq, if◌then◌else◌, text, errorf, Result, ok, err, ◌>>◌, fail_if,
  [], ◌∷◌,
}

abbrev pub ReleaseChannel : Type 0
ReleaseChannel = String

abbrev pub alpha : ReleaseChannel
alpha = "alpha"

abbrev pub beta : ReleaseChannel
beta = "beta"

abbrev pub stable : ReleaseChannel
stable = "stable"

unfoldable pub validate : ReleaseChannel → Result (Unit {0})
validate c =
    if c == ""
    then ok tt
    else if contains c (alpha ∷ beta ∷ stable ∷ [])
    then ok tt
    else err (errorf "invalid release channel %q" (text c ∷ []))

unfoldable pub validate_required : ReleaseChannel → Result (Unit {0})
unfolding validate
validate_required c = do fail_if (c == "") (errorf "release channel cannot be empty" []); validate c
