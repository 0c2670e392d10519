-- ===== src/PdfExport/Issue.antt =====
-- What every contract of pdfExport/ reports and fingerprints (pdfExport/pdfExportOperation.ts).
-- A time is an exact ISO date-time, kept as its milliseconds since the epoch. An issue keeps its
-- code and its path: the severity is always "error", and the message is prose.
use flowdoc_vnext_backend.Common.{ℕ, String, ◌≡◌, refl, ◌↔◌, Bool, true, false, List, [], ◌∷◌, ◌++◌}
use flowdoc_vnext_backend.Common.Text.{is_fingerprint}

abbrev pub Time : Type 0
Time = ℕ

-- A path written out, or `admission.issues[index].path`.
pub data IssuePath : Type 0 where
  at : String → IssuePath
  core_issue : ℕ → String → IssuePath

pub record Issue : Type 0 where
  pub code : String
  pub path : IssuePath

abbrev pub issue : String → String → Issue
issue code path = record { code = code; path = at path }

-- A row of `if (broken) issues.push(issue(…))`.
abbrev pub reports : List (Bool × Issue) → List Issue
reports [] = []
reports ((true, i) ∷ rest) = i ∷ reports rest
reports ((false, i) ∷ rest) = reports rest

abbrev pub AllPass : List (Bool × Issue) → Type 0
AllPass [] = Unit
AllPass ((broken, i) ∷ rest) = (broken ≡ false) × AllPass rest

pub reports-nil : (l : List (Bool × Issue)) → (reports l ≡ []) ↔ AllPass l
reports-nil [] = (λ h. tt, λ h. refl)
reports-nil ((true, i) ∷ rest) = (λ h. cc, λ h. cc h.0)
reports-nil ((false, i) ∷ rest) =
    (λ h. (refl, (reports-nil rest).0 h), λ h. (reports-nil rest).1 h.1)

pub AllPass-append : (l m : List (Bool × Issue)) → AllPass (l ++ m) ↔ (AllPass l × AllPass m)
AllPass-append [] m = (λ h. (tt, h), λ h. h.1)
AllPass-append (row ∷ l) m = (
  λ h. let both = (AllPass-append l m).0 h.1 in ((h.0, both.0), both.1),
  λ h. (h.0.0, (AllPass-append l m).1 (h.0.1, h.1)),
)

-- `sha256:` and the SHA-256 of the JSON text, for the facts of one contract. Node's hash is not
-- modelled: it gives a text of the form that the contracts test.
pub record Digest (A : Type 0) : Type 0 where
  pub digest : A → String
  pub digest-is_fingerprint : (a : A) → is_fingerprint (digest a) ≡ true

abbrev pub fingerprint : {A : Type 0} ⦃d : Digest A⦄ → A → String
fingerprint ⦃d⦄ = d.digest

pub record Scope : Type 0 where
  pub tenant_id : String
  pub principal_id : String
