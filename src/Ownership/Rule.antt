-- ===== src/Ownership/Rule.antt =====
-- pkg/distribution/ownership/types.go: the plane and the scope of an object.
use sealos_lifecycle.Base.{
  String, ◌==◌, contains, string_eq, if◌then◌else◌, Bool, [], ◌∷◌, text, errorf, Result, ok, err,
  ◌>>◌, fail_if, wrap,
}

abbrev pub Plane : Type 0
Plane = String

abbrev pub Scope : Type 0
Scope = String

pub record Rule : Type 0 where
  pub group : String
  pub kind : String
  pub name : String
  pub plane : Plane
  pub scope : Scope
  pub promotable : Bool

unfoldable pub validate_plane : Plane → Result (Unit {0})
validate_plane p =
    if contains p ("infra" ∷ "user" ∷ [])
    then ok tt
    else err (errorf "invalid plane %q" (text p ∷ []))

unfoldable pub validate_scope : Scope → Result (Unit {0})
validate_scope s =
    if contains s ("global" ∷ "local" ∷ [])
    then ok tt
    else err (errorf "invalid scope %q" (text s ∷ []))

unfoldable pub validate : Rule → Result (Unit {0})
unfolding validate_plane validate_scope
validate r = do
  fail_if (r.kind == "") (errorf "kind cannot be empty" [])
  wrap "plane: %w" [] (validate_plane r.plane)
  wrap "scope: %w" [] (validate_scope r.scope)
