-- ===== src/Lib.antt =====
-- The distribution lifecycle of sealos: what a cluster has applied, what may be promoted to a
-- release channel, and what a cluster may override of a distribution.
--
-- The parts, and where each is modelled:
--
-- * The applied revision of a cluster (pkg/distribution/state). State/Types and State/Validate are
--   types.go: the document, and every `Validate` method with its error on each branch. State/Store
--   is store.go: `LoadAppliedRevision` is `load`, `SaveAppliedRevision` is `save`,
--   `PersistRenderedStateWithOptions`, `PersistSuccessfulApplyWithOptions`, `MarkSuccessfulApply`,
--   `MarkDegraded` and `PersistObservedState` have their names without `WithOptions`. The documents
--   that they make stand apart from the file they are written to, in State/Document, with the history
--   of successful revisions in State/History and the conditions in State/Conditions.
--   State/Lifecycle runs sequences of these operations.
-- * Promotion between release channels (pkg/distribution/promotion/policy.go). Promotion/Types,
--   Promotion/Policy (the default policy, `RuleFor` and the checks) and Promotion/Evaluate
--   (`Policy.Evaluate`).
-- * Local patches (pkg/distribution/ownership). Ownership/Rule is types.go, Ownership/Policy and
--   Ownership/Paths are policy.go with the path helpers of localpatch.go, Ownership/Document is
--   document.go, Ownership/Overlay is localpatch.go (`ValidateLocalPatchOverlayWithPolicy` and
--   `ExtractAllowedLocalPatchOverlayWithPolicy`), and Ownership/Impact is impact.go.
--   Ownership/Value is a decoded YAML document.
-- * Bills of materials (pkg/distribution/bom). Of types.go, Bom/Types is the data with `PackageIndex`,
--   Bom/Validate has the `Validate` methods, and Bom/Channel is the release channel, which the
--   applied revision refers to. Bom/Resolve is resolve.go, with the loader of packages as a
--   parameter. Of derive.go, Bom/Derive is `mergeDerivedLabels` and `applyArtifactReplacements`.
--   Kinds is pkg/distribution/doc.go.
-- * Component packages (pkg/distribution/packageformat). Of types.go, Packageformat/Types is the
--   manifest and Packageformat/Validate has the `Validate` methods.
-- * The plan of a distribution (pkg/distribution/hydrate/plan.go). Hydrate/Dependencies is
--   `buildDependencySet`, Hydrate/Order is `topoSortDependencies`, Hydrate/Steps is `buildSteps` with
--   the orders it sorts by, and Hydrate/Plan is `BuildPlan` with `BuildPlanFromResolved`. Of
--   policy.go, Hydrate/PolicySelection is `SelectLocalPatchPolicy`.
-- * The compatibility of local patches with a policy (pkg/distribution/localrepo).
--   Localrepo/Compatibility is policy_compatibility.go, where reading and decoding a patch are
--   parameters.
-- * The gate for a new policy (pkg/distribution/policyreport). Policyreport/Types is the data,
--   Policyreport/Approval is approval.go, Policyreport/Impacts and Policyreport/Gate are gate.go
--   (`EvaluateGateWithApproval`), and Policyreport/Build is report.go (`Build`).
--
-- A promotion and a render concern different files; they meet in the bill of materials, which the
-- applied revision names with its channel and revision. A policy and its overlays meet in
-- Ownership/Overlay, and two policies in Ownership/Impact, which a policy's author consults before
-- the overlays of a cluster are checked against the new one, as Localrepo/Compatibility does.
-- Policyreport/Build joins the two in a report, and Policyreport/Gate decides on it. A plan starts
-- from a bill of materials with its component packages, which Bom/Resolve loads.
--
-- How the code is read:
--
-- * An error is its format string with its arguments and its cause (Base/Errors), so that two errors
--   differ where their texts do, and `errors.Is(err, os.ErrNotExist)` looks through the causes.
-- * The host is a record (State/Host): the disk, reading and writing a file of YAML, making a
--   directory, the root of the directories at run time, and `digest.Parse`. A host is lawful if a
--   file that is written without an error is read back and nothing else changes; of a failed step
--   nothing is assumed. Tests/Memory is such a host. `MarshalFile` and `UnmarshalFile` of
--   pkg/utils/yaml stand on a YAML encoder: they are not modelled, and their round trip on a document,
--   with its times of whole seconds, is assumed. Paths are taken as cleaned: different texts are
--   different files.
-- * An operation is given the readings of the clock as arguments. A time is the whole second that the
--   file records: the document that an operation of the code returns has the nanoseconds as well, which
--   the one read back has not.
-- * A pointer that may be nil is an option, and a call with a nil document has no counterpart. Values
--   are immutable, so the clone functions have none either.
-- * A Go `int` is an integer without bounds: the code counts with these numbers, compares and
--   prints them.
-- * A set of keys is the list of them. A Go map with values of any kind is the list of its fields, in
--   the order in which a loop meets them: what is shown holds for every such order. `sort.Slice`,
--   `slices.SortFunc` and `sort.Strings` are a stable insertion sort. The code's sorts may leave elements
--   that tie in any order; contents, inputs and hooks that tie (of one rank or type, path and name) do
--   not occur in a valid package, and the other orders tie equal elements only.
-- * `path.Clean` is a parameter of the checks of a bill of materials and of a component package. A map that is looked up only is
--   the function that looks a key up.
-- * The loop of `topoSortDependencies` that places the components runs on fuel, the number of the
--   components: each round places one, and `drain_all_ends` of Hydrate/Order/Laws shows that none is
--   still ready then, where no two entries have one name and each dependency is known. The printing of a number uses fuel as well, and a number is enough for its own digits. All
--   other recursion is structural.
-- * Where a loop over a Go map can fail at several keys, the one that the error names is the first in
--   the listed order.
-- * Times are a parameter of the gate (`Clock` in Policyreport/Types), and a span of time is an
--   integer of nanoseconds. The window of the warning wraps to an `int64` as the code's product does.
--
-- Not modelled: the files that a derivation reads and writes, the lookup of release channels, the
-- rendering of a plan, the comparison with a live cluster, the agent, the controller and what drives
-- hosts, images and registries. They are read in later work or are input and output. The functions
-- of the modelled packages that only read and decode a file before its checks are left out.
pub mod Base
pub mod Kinds
pub mod Packageformat
pub mod Bom
pub mod State
pub mod Promotion
pub mod Ownership
pub mod Localrepo
pub mod Policyreport
pub mod Hydrate
mod Tests
