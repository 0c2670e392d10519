-- ===== src/PdfExport/Operation.antt =====
-- The immutable PDF export operation (pdfExport/pdfExportOperation.ts). Of the admission, which
-- Core makes, the fields that this code reads are kept, and `carried` stands for the others.
-- A value has the fields and the types of its V1 shape; what a parse tests beyond them is here.
pub mod Create
pub mod Validity
use flowdoc_vnext_backend.Common.{
  ℕ, String, Bool, true, false, not, ◌&&◌, ◌||◌, List, [], ◌∷◌, ◌++◌, ◌==◌, number_eq, text_eq,
}
use flowdoc_vnext_backend.Common.Text.{is_bounded, is_fingerprint}
use flowdoc_vnext_backend.PdfExport.Issue.{Time, Issue, issue, reports, Digest, fingerprint, Scope}

pub record AdmissionFacts : Type 0 where
  pub source : String
  pub contract_version : ℕ
  pub kind : String
  pub admission_id : String
  pub payload_fingerprint : String
  pub execution_deadline_ms : ℕ
  pub max_attempts : ℕ
  pub activation_status : String
  pub activation_production_binding : Bool
  pub production_binding : Bool
  pub renderer_execution : Bool
  pub carried : String

pub record Admission : Type 0 where
  pub facts : AdmissionFacts
  pub open facts use *
  pub admission_fingerprint : String

pub record OperationContracts : Type 0 where
  pub backend_owned : Bool
  pub imports_core_as_public_package : Bool
  pub uses_core_production_admission : Bool
  pub immutable_admission : Bool
  pub caller_key_bound_to_payload : Bool
  pub tenant_and_principal_scoped : Bool
  pub lifecycle_head : Bool
  pub worker_execution : Bool
  pub deadline_execution : Bool
  pub cancellation_execution : Bool
  pub renderer_execution : Bool
  pub storage_writes : Bool
  pub artifact_projection : Bool
  pub observability_writes : Bool
  pub backend_route : Bool
  pub authz_execution : Bool
  pub production_binding : Bool

pub record Idempotency : Type 0 where
  pub caller_key : String
  pub payload_fingerprint : String

pub record OperationFacts : Type 0 where
  pub source : String
  pub contract_version : ℕ
  pub kind : String
  pub operation_id : String
  pub status : String
  pub scope : Scope
  pub idempotency : Idempotency
  pub admission : Admission
  pub accepted_at : Time
  pub contracts : OperationContracts

pub record Operation : Type 0 where
  pub facts : OperationFacts
  pub open facts use *
  pub operation_fingerprint : String

pub data OperationResult : Type 0 where
  ready : Operation → OperationResult
  blocked : List Issue → OperationResult

abbrev pub operation_source : String
operation_source = "flowdoc-backend-pdf-export-operation"

-- The boundaries of the operation, the same in every one.
abbrev pub exact_contracts : OperationContracts
exact_contracts = record {
  backend_owned = true;
  imports_core_as_public_package = true;
  uses_core_production_admission = true;
  immutable_admission = true;
  caller_key_bound_to_payload = true;
  tenant_and_principal_scoped = true;
  lifecycle_head = false;
  worker_execution = false;
  deadline_execution = false;
  cancellation_execution = false;
  renderer_execution = false;
  storage_writes = false;
  artifact_projection = false;
  observability_writes = false;
  backend_route = false;
  authz_execution = false;
  production_binding = false;
}

-- Core's constants, which its package exports.
pub record CoreNames : Type 0 where
  pub admission_source : String
  pub admission_version : ℕ

abbrev literal_issue : String → Issue
literal_issue path = issue "pdf-export-operation-literal-invalid" path

abbrev string_issue : String → Issue
string_issue path = issue "pdf-export-operation-string-invalid" path

abbrev fingerprint_issue : String → Issue
fingerprint_issue path = issue "pdf-export-operation-fingerprint-invalid" path

-- `literal` for each flag of the contracts.
unfoldable pub contract_rows : OperationContracts → List (Bool × Issue)
contract_rows c =
    (not c.backend_owned, literal_issue "contracts.backendOwned")
    ∷ (not c.imports_core_as_public_package, literal_issue "contracts.importsCoreAsPublicPackage")
    ∷ (not c.uses_core_production_admission, literal_issue "contracts.usesCoreProductionAdmission")
    ∷ (not c.immutable_admission, literal_issue "contracts.immutableAdmission")
    ∷ (not c.caller_key_bound_to_payload, literal_issue "contracts.callerKeyBoundToPayload")
    ∷ (not c.tenant_and_principal_scoped, literal_issue "contracts.tenantAndPrincipalScoped")
    ∷ (c.lifecycle_head, literal_issue "contracts.lifecycleHead")
    ∷ (c.worker_execution, literal_issue "contracts.workerExecution")
    ∷ (c.deadline_execution, literal_issue "contracts.deadlineExecution")
    ∷ (c.cancellation_execution, literal_issue "contracts.cancellationExecution")
    ∷ (c.renderer_execution, literal_issue "contracts.rendererExecution")
    ∷ (c.storage_writes, literal_issue "contracts.storageWrites")
    ∷ (c.artifact_projection, literal_issue "contracts.artifactProjection")
    ∷ (c.observability_writes, literal_issue "contracts.observabilityWrites")
    ∷ (c.backend_route, literal_issue "contracts.backendRoute")
    ∷ (c.authz_execution, literal_issue "contracts.authzExecution")
    ∷ (c.production_binding, literal_issue "contracts.productionBinding")
    ∷ []

unfoldable pub is_empty : List Issue → Bool
is_empty [] = true
is_empty (_ ∷ _) = false

module _ (names : CoreNames) ⦃a : Digest AdmissionFacts⦄ ⦃o : Digest OperationFacts⦄ where
  -- The tests of parseAdmission.
  unfoldable pub admission_rows : Admission → List (Bool × Issue)
  admission_rows a =
      ((not (a.source == names.admission_source), literal_issue "admission.source")
        ∷ (
          not (a.contract_version == names.admission_version),
          literal_issue "admission.contractVersion",
        )
        ∷ (not (a.kind == "pdf-export-production-admission"), literal_issue "admission.kind")
        ∷ (not (is_bounded a.admission_id), string_issue "admission.admissionId")
        ∷ (
          not (is_fingerprint a.admission_fingerprint),
          fingerprint_issue "admission.admissionFingerprint",
        )
        ∷ (
          not (is_fingerprint a.payload_fingerprint),
          fingerprint_issue "admission.idempotency.payloadFingerprint",
        )
        ∷ (
          a.production_binding || a.renderer_execution,
          issue "pdf-export-operation-admission-boundary-invalid" "admission.contracts",
        )
        ∷ (
          not (a.activation_status == "blocked") || a.activation_production_binding,
          issue "pdf-export-operation-admission-activation-invalid" "admission.activation",
        )
        ∷ (
          is_fingerprint a.admission_fingerprint
              && not (fingerprint a.facts == a.admission_fingerprint),
          issue "pdf-export-operation-admission-fingerprint-mismatch"
              "admission.admissionFingerprint",
        )
        ∷ [])

  -- The tests before the admission is read.
  unfoldable pub head_rows : Operation → List (Bool × Issue)
  head_rows o =
      ((not (o.source == operation_source), literal_issue "source")
        ∷ (not (o.contract_version == 1), literal_issue "contractVersion")
        ∷ (not (o.kind == "pdf-export-operation"), literal_issue "kind")
        ∷ (not (o.status == "accepted"), literal_issue "status")
        ∷ (not (is_bounded o.operation_id), string_issue "operationId")
        ∷ (not (is_fingerprint o.operation_fingerprint), fingerprint_issue "operationFingerprint")
        ∷ (not (is_bounded o.scope.tenant_id), string_issue "scope.tenantId")
        ∷ (not (is_bounded o.scope.principal_id), string_issue "scope.principalId")
        ∷ (not (is_bounded o.idempotency.caller_key), string_issue "idempotency.callerKey")
        ∷ (
          not (is_fingerprint o.idempotency.payload_fingerprint),
          fingerprint_issue "idempotency.payloadFingerprint",
        )
        ∷ [])

  -- The tests after it. The parsed admission is null if anything was reported before, so the two
  -- comparisons with it are made only if nothing was.
  unfoldable pub binding_rows : Operation → Bool → List (Bool × Issue)
  binding_rows o has_admission =
      (
        is_bounded o.operation_id
            && has_admission
            && not (o.admission.admission_id == o.operation_id),
        issue "pdf-export-operation-admission-id-mismatch" "admission.admissionId",
      )
      ∷ (
        is_fingerprint o.idempotency.payload_fingerprint
            && has_admission
            && not (o.admission.payload_fingerprint == o.idempotency.payload_fingerprint),
        issue "pdf-export-operation-payload-fingerprint-mismatch" "idempotency.payloadFingerprint",
      )
      ∷ (
        is_fingerprint o.operation_fingerprint
            && not (fingerprint o.facts == o.operation_fingerprint),
        issue "pdf-export-operation-fingerprint-mismatch" "operationFingerprint",
      )
      ∷ []

  unfoldable pub operation_rows : Operation → List (Bool × Issue)
  unfolding admission_rows head_rows binding_rows contract_rows is_empty
  operation_rows o =
      let before = head_rows o ++ admission_rows o.admission in
      before ++ (contract_rows o.contracts ++ binding_rows o (is_empty (reports before)))

  -- parseFlowDocBackendPdfExportOperationV1
  unfoldable pub parse_operation : Operation → OperationResult
  parse_operation o = elim (reports (operation_rows o)) [ [] ↦ ready o | i ∷ is ↦ blocked (i ∷ is) ]
