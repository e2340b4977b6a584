-- ===== src/State/History/Laws.antt =====
-- The history is the first ten of the distinct candidates.
use sealos_lifecycle.Base.{
  ℕ, zero, suc, ◌+◌, ◌≤◌, ◌≡◌, ◌≢◌, String, contains, string_eq, nat_eq, if◌then◌else◌, true,
  Bool-cases, inl, inr, Option, none, some, List, [], ◌∷◌, ◌++◌, length, take, length-append, All,
  arith,
}
use mathlib.Core.List.{append-nil, append_assoc}
use sealos_lifecycle.State.Types.{RevisionSnapshot, AppliedRevision}
use sealos_lifecycle.State.History.{
  max_successful_revision_history, revision_history_key, candidates, collect, prepend_history,
}

-- The revisions whose key is neither among `seen` nor that of an earlier one.
unfoldable pub distinct : List String → List RevisionSnapshot → List RevisionSnapshot
distinct seen [] = []
distinct seen (r ∷ rs) =
    let key = revision_history_key r in
    let skip = distinct seen rs in
    let keep = r ∷ distinct (key ∷ seen) rs in if contains key seen then skip else keep

abbrev pub NodupKeys : List RevisionSnapshot → Type 0
NodupKeys [] = Unit
NodupKeys (r ∷ rs) = All (λ q. revision_history_key q ≢ revision_history_key r) rs × NodupKeys rs

collect-eq :
    (room : ℕ) (seen : List String) (out rs : List RevisionSnapshot)
    → length out + suc room ≡ max_successful_revision_history
    → collect seen out rs ≡ out ++ take (suc room) (distinct seen rs)
unfolding collect distinct
collect-eq room seen out [] h = rw append-nil
collect-eq zero seen out (r ∷ rs) h =
    ground (arith, collect-eq zero seen out rs h, length-append out (r ∷ []))
collect-eq (suc room) seen out (r ∷ rs) h = ground (
  arith,
  collect-eq (suc room) seen out rs h,
  collect-eq room (revision_history_key r ∷ seen) (out ++ (r ∷ [])) rs,
  length-append out (r ∷ []),
  append_assoc out (r ∷ []) (take (suc room) (distinct (revision_history_key r ∷ seen) rs)),
)

pub prepend_history-eq-take :
    (snapshot : RevisionSnapshot) (existing : Option AppliedRevision)
    → prepend_history snapshot existing
      ≡ take max_successful_revision_history (distinct [] (candidates snapshot existing))
unfolding prepend_history
prepend_history-eq-take snapshot existing =
    collect-eq 9 [] [] (candidates snapshot existing) (omega arith)

pub All-take {ℓ κ} :
    {A : Type ℓ} (P : A → Type κ) (n : ℕ) (xs : List A) → All P xs → All P (take n xs)
All-take P zero xs h = tt
All-take P (suc n) [] h = tt
All-take P (suc n) (x ∷ xs) h = (h.0, All-take P n xs h.1)

take-NodupKeys : (n : ℕ) (rs : List RevisionSnapshot) → NodupKeys rs → NodupKeys (take n rs)
take-NodupKeys zero rs h = tt
take-NodupKeys (suc n) [] h = tt
take-NodupKeys (suc n) (r ∷ rs) h = (
  All-take (λ q. revision_history_key q ≢ revision_history_key r) n rs h.0,
  take-NodupKeys n rs h.1,
)

length-take-le {ℓ} : {A : Type ℓ} (n : ℕ) (xs : List A) → length (take n xs) ≤ n
length-take-le zero xs = omega arith
length-take-le (suc n) [] = omega arith
length-take-le (suc n) (x ∷ xs) = omega (arith, length-take-le n xs)

-- What comes out has none of the keys that were seen.
distinct-All-ne :
    (k : String) (seen : List String) (rs : List RevisionSnapshot)
    → contains k seen ≡ true
    → All (λ q. revision_history_key q ≢ k) (distinct seen rs)
unfolding distinct
distinct-All-ne k seen [] h = tt
distinct-All-ne k seen (r ∷ rs) h = elim (Bool-cases (contains (revision_history_key r) seen)) [
  | inl old ↦ rw old (distinct-All-ne k seen rs h)
  | inr new ↦
      rw new (ground (arith), distinct-All-ne k (revision_history_key r ∷ seen) rs (ground arith))
]

distinct-NodupKeys :
    (seen : List String) (rs : List RevisionSnapshot) → NodupKeys (distinct seen rs)
unfolding distinct
distinct-NodupKeys seen [] = tt
distinct-NodupKeys seen (r ∷ rs) = elim (Bool-cases (contains (revision_history_key r) seen)) [
  | inl old ↦ rw old (distinct-NodupKeys seen rs)
  | inr new ↦ rw new (
    distinct-All-ne (revision_history_key r) (revision_history_key r ∷ seen) rs (ground arith),
    distinct-NodupKeys (revision_history_key r ∷ seen) rs,
  )
]

pub record IsHistory (rs : List RevisionSnapshot) : Type 0 where
  pub bounded : length rs ≤ max_successful_revision_history
  pub nodup : NodupKeys rs

-- The history that a new snapshot gives has at most ten revisions and no two with the same key,
-- whatever the recorded history was.
pub prepend_history-IsHistory :
    (snapshot : RevisionSnapshot) (existing : Option AppliedRevision)
    → IsHistory (prepend_history snapshot existing)
prepend_history-IsHistory snapshot existing = rw prepend_history-eq-take (record {
  bounded =
      length-take-le max_successful_revision_history (distinct [] (candidates snapshot existing));
  nodup =
      take-NodupKeys max_successful_revision_history _
        (distinct-NodupKeys [] (candidates snapshot existing));
})

-- The new snapshot stands first.
pub prepend_history-cons :
    (snapshot : RevisionSnapshot) (existing : Option AppliedRevision)
    → (rest : List RevisionSnapshot) × (prepend_history snapshot existing ≡ snapshot ∷ rest)
unfolding candidates distinct
prepend_history-cons snapshot none = (_, prepend_history-eq-take snapshot none)
prepend_history-cons snapshot (some existing) =
    (_, prepend_history-eq-take snapshot (some existing))
