-- ===== src/State/Document/Validity.antt =====
-- A valid document stays valid when it is marked, so that saving it cannot fail in the checks.
use sealos_lifecycle.Base.{
  ℕ, ◌+◌, ◌≡◌, refl, String, ◌==◌, contains, string_eq, Bool-cases, inl, inr, Option, none, some,
  List, [], ◌∷◌, arith, ok, wrap, check_some, Error, All,
}
use sealos_lifecycle.State.Types.{
  Time, ClusterState, clean, dirty, orphan, degraded, new_condition, ObservedSummary,
  RevisionSnapshot, AppliedRevision, AppliedRevisionSpec,
}
use sealos_lifecycle.State.Validate.{
  validate, validate_status, validate_spec, validate_condition, validate_conditions,
  validate_cluster_state, validate_observed_summary, validate_snapshot, validate_revisions,
}
use sealos_lifecycle.State.Conditions.{validate_conditions-upsert}
use sealos_lifecycle.State.History.{
  revision_history_key, prepend_history, candidates, recorded, max_successful_revision_history,
}
use sealos_lifecycle.State.History.Laws.{distinct, prepend_history-eq-take, All-take}
use sealos_lifecycle.State.Document.{
  condition_type_applied, condition_type_observed, stamped_summary, degraded_document,
  observed_document, observed_state_condition, applied, snapshot_of,
}

degraded_is_valid : validate_cluster_state degraded ≡ ok tt
unfolding validate_cluster_state string_eq
degraded_is_valid = refl

clean_is_valid : validate_cluster_state clean ≡ ok tt
unfolding validate_cluster_state string_eq
clean_is_valid = refl

-- The three statuses are valid, under both condition types.
module _ (now : Time) (reason message : String) where
  applied_false :
      validate_condition (new_condition now condition_type_applied "False" reason message) ≡ ok tt
  unfolding validate_condition new_condition string_eq
  applied_false = refl

  applied_true :
      validate_condition (new_condition now condition_type_applied "True" reason message) ≡ ok tt
  unfolding validate_condition new_condition string_eq
  applied_true = refl

  observed_false :
      validate_condition (new_condition now condition_type_observed "False" reason message) ≡ ok tt
  unfolding validate_condition new_condition string_eq
  observed_false = refl

  observed_true :
      validate_condition (new_condition now condition_type_observed "True" reason message) ≡ ok tt
  unfolding validate_condition new_condition string_eq
  observed_true = refl

  observed_unknown :
      validate_condition (new_condition now condition_type_observed "Unknown" reason message)
      ≡ ok tt
  unfolding validate_condition new_condition string_eq
  observed_unknown = refl

validate-observed_state_condition :
    (now : Time) (state : ClusterState) (message : String)
    → validate_condition (observed_state_condition now state message) ≡ ok tt
unfolding observed_state_condition
validate-observed_state_condition now state message = elim (Bool-cases (state == clean)) [
  | inl is_clean ↦ rw is_clean (observed_false now _ _)
  | inr not_clean ↦ rw not_clean (elim (Bool-cases (state == dirty)) [
    | inl is_dirty ↦ rw is_dirty (observed_true now _ _)
    | inr not_dirty ↦ rw not_dirty (elim (Bool-cases (state == orphan)) [
      | inl is_orphan ↦ rw is_orphan (observed_true now _ _)
      | inr other ↦ rw other (observed_unknown now _ _)
    ])
  ])
]

applied_conditions :
    (now : Time) (reason message : String)
    → validate_conditions 0 [] (new_condition now condition_type_applied "True" reason message ∷ [])
      ≡ ok tt
unfolding validate_conditions validate_condition new_condition string_eq
applied_conditions now reason message = refl

validate-stamped_summary :
    (now : Time) (summary : Option ObservedSummary)
    → check_some validate_observed_summary summary ≡ ok tt
    → check_some
        (λ o. wrap "observedSummary: %w" [] (validate_observed_summary o))
        (stamped_summary now summary)
      ≡ ok tt
unfolding validate_observed_summary
validate-stamped_summary now none h = refl
validate-stamped_summary now (some s) h = rw h

module _ (parse_digest : String → Option Error) where
  -- Whatever the reason and the message are, a valid document is valid when it is marked degraded.
  pub validate-degraded_document :
      (now : Time) (reason message : String) (doc : AppliedRevision)
      → validate parse_digest doc ≡ ok tt
      → validate parse_digest (degraded_document now reason message doc) ≡ ok tt
  unfolding validate validate_status degraded_document
  validate-degraded_document now reason message doc h = ground (
    arith,
    degraded_is_valid,
    validate_conditions-upsert 0 [] doc.status.conditions
        (new_condition now condition_type_applied "False" reason message)
        (applied_false now reason message) refl,
  )

  -- A valid document is valid with a valid observed state and a valid summary.
  pub validate-observed_document :
      (now later : Time) (state : ClusterState) (summary : Option ObservedSummary)
      (message : String) (doc : AppliedRevision)
      → validate parse_digest doc ≡ ok tt
      → validate_cluster_state state ≡ ok tt
      → check_some validate_observed_summary summary ≡ ok tt
      → validate parse_digest (observed_document now later state summary message doc) ≡ ok tt
  unfolding validate validate_status observed_document
  validate-observed_document now later state summary message doc h hs ho = ground (
    arith,
    validate-stamped_summary now summary ho,
    validate_conditions-upsert 0 [] doc.status.conditions
        (observed_state_condition later state message)
        (validate-observed_state_condition later state message) refl,
  )

  abbrev AllValid : List RevisionSnapshot → Type 0
  AllValid = All (λ r. validate_snapshot parse_digest r ≡ ok tt)

  validate_revisions_of_all :
      (i : ℕ) (rs : List RevisionSnapshot)
      → AllValid rs
      → validate_revisions parse_digest i rs ≡ ok tt
  unfolding validate_revisions
  validate_revisions_of_all i [] h = refl
  validate_revisions_of_all i (r ∷ rs) h = rw (h.0, validate_revisions_of_all (i + 1) rs h.1)

  validate_revisions-all :
      (i : ℕ) (rs : List RevisionSnapshot)
      → validate_revisions parse_digest i rs ≡ ok tt
      → AllValid rs
  unfolding validate_revisions
  validate_revisions-all i [] h = tt
  validate_revisions-all i (r ∷ rs) h =
      (ground arith, validate_revisions-all (i + 1) rs (ground arith))

  distinct-AllValid :
      (seen : List String) (rs : List RevisionSnapshot) → AllValid rs → AllValid (distinct seen rs)
  unfolding distinct
  distinct-AllValid seen [] h = tt
  distinct-AllValid seen (r ∷ rs) h = elim (Bool-cases (contains (revision_history_key r) seen)) [
    | inl old ↦ rw old (distinct-AllValid seen rs h.1)
    | inr new ↦ rw new (h.0, distinct-AllValid (revision_history_key r ∷ seen) rs h.1)
  ]

  recorded-AllValid :
      (rs : List RevisionSnapshot) (last : Option RevisionSnapshot)
      → AllValid rs
      → check_some
          (λ r. wrap "lastSuccessfulRevision: %w" [] (validate_snapshot parse_digest r))
          last
        ≡ ok tt
      → AllValid (recorded rs last)
  unfolding recorded
  recorded-AllValid [] none h hl = tt
  recorded-AllValid [] (some last) h hl = (ground arith, tt)
  recorded-AllValid (r ∷ rs) last h hl = h

  validate_snapshot_of :
      (spec : AppliedRevisionSpec)
      → validate_spec parse_digest spec ≡ ok tt
      → validate_snapshot parse_digest (snapshot_of spec) ≡ ok tt
  unfolding validate_spec validate_snapshot snapshot_of
  validate_snapshot_of spec h = ground arith

  candidates-AllValid :
      (spec : AppliedRevisionSpec) (doc : AppliedRevision)
      → validate_spec parse_digest spec ≡ ok tt
      → validate parse_digest doc ≡ ok tt
      → AllValid (candidates (snapshot_of spec) (some doc))
  unfolding candidates validate validate_status
  candidates-AllValid spec doc hs h = (
    validate_snapshot_of spec hs,
    recorded-AllValid doc.status.successful_revisions doc.status.last_successful_revision
        (validate_revisions-all 0 doc.status.successful_revisions (ground arith)) (ground arith),
  )

  prepend_history-AllValid :
      (snapshot : RevisionSnapshot) (existing : Option AppliedRevision)
      → AllValid (candidates snapshot existing)
      → AllValid (prepend_history snapshot existing)
  prepend_history-AllValid snapshot existing h = rw prepend_history-eq-take (
      All-take _ max_successful_revision_history _
        (distinct-AllValid [] (candidates snapshot existing) h))

  -- A valid document is valid when it is marked as applied, with its old history behind it.
  pub validate-applied :
      (now later : Time) (doc : AppliedRevision)
      → validate parse_digest doc ≡ ok tt
      → validate parse_digest (applied now later doc (some doc)) ≡ ok tt
  unfolding validate validate_status applied
  validate-applied now later doc h =
      let spec_ok : validate_spec parse_digest doc.spec ≡ ok tt = ground arith in
      ground (
        arith,
        clean_is_valid,
        validate_snapshot_of doc.spec spec_ok,
        validate_revisions_of_all 0 (prepend_history (snapshot_of doc.spec) (some doc)) (
            prepend_history-AllValid (snapshot_of doc.spec) (some doc)
              (candidates-AllValid doc.spec doc spec_ok h)),
        applied_conditions later "ReconcileSucceeded" "desired revision applied",
      )
