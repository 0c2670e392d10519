-- ===== src/PdfExport/OperationRepository.antt =====
-- The in-memory operation repository (pdfExport/pdfExportOperationRepository.ts): operations by their
-- id, and an index from a caller's idempotency key, in its scope, to an id.
pub mod Admission
pub mod Idempotency
pub mod Isolation
use flowdoc_vnext_backend.Common.{
  String, Bool, not, ◌&&◌, ◌||◌, Option, none, some, List, [], ◌∷◌, ◌==◌, text_eq, pair_eq,
  if◌then◌else◌,
}
use flowdoc_vnext_backend.Common.Dict
use flowdoc_vnext_backend.Common.Dict.{Dict, set}
use flowdoc_vnext_backend.Common.Text.{is_bounded}
use flowdoc_vnext_backend.PdfExport.Issue.{Issue, issue, Digest, Scope}
use flowdoc_vnext_backend.PdfExport.Operation
use flowdoc_vnext_backend.PdfExport.Operation.{
  CoreNames, AdmissionFacts, OperationFacts, Operation, parse_operation,
}

-- `JSON.stringify([tenantId, principalId, callerIdempotencyKey])`
abbrev pub CallerKey : Type 0
CallerKey = String × (String × String)

pub record OperationRepository : Type 0 where
  pub by_operation_id : Dict String Operation
  pub operation_id_by_caller_key : Dict CallerKey String

abbrev pub empty : OperationRepository
empty = record { by_operation_id = Dict.empty; operation_id_by_caller_key = Dict.empty }

pub data AdmitResult : Type 0 where
  created : Operation → AdmitResult
  idempotent_replay : Operation → AdmitResult
  conflict : String → List Issue → AdmitResult
  invalid : List Issue → AdmitResult

pub data ReadResult : Type 0 where
  found : Operation → ReadResult
  not_found : ReadResult
  invalid : List Issue → ReadResult

-- callerKey
abbrev pub caller_key : Scope → String → CallerKey
caller_key scope key = (scope.tenant_id, (scope.principal_id, key))

abbrev pub key_of : Operation → CallerKey
key_of p = caller_key p.scope p.idempotency.caller_key

-- validScope
abbrev pub valid_scope : Scope → Bool
valid_scope s = is_bounded s.tenant_id && is_bounded s.principal_id

-- The caller's key is new: the id must be too.
unfoldable pub admit_new :
    OperationRepository → Operation → Option Operation → OperationRepository × AdmitResult
admit_new s p (some owner) =
    (s, conflict owner.operation_id (issue "pdf-export-operation-id-conflict" "operationId" ∷ []))
admit_new s p none = (
  record {
    by_operation_id = set s.by_operation_id p.operation_id p;
    operation_id_by_caller_key = set s.operation_id_by_caller_key (key_of p) p.operation_id;
  },
  created p,
)

-- The caller's key is taken by this operation.
unfoldable pub admit_again :
    OperationRepository → Operation → Option Operation → OperationRepository × AdmitResult
admit_again s p none = (
  s,
  invalid (issue "pdf-export-operation-idempotency-index-invalid" "idempotency.callerKey" ∷ []),
)
admit_again s p (some existing) =
    if existing.idempotency.payload_fingerprint == p.idempotency.payload_fingerprint
    then (s, idempotent_replay existing)
    else (
      s,
      conflict existing.operation_id
          (issue "pdf-export-operation-idempotency-conflict" "idempotency.payloadFingerprint" ∷ []),
    )

unfoldable pub admit_parsed :
    OperationRepository → Operation → Option String → OperationRepository × AdmitResult
unfolding admit_new admit_again
admit_parsed s p none = admit_new s p (s.by_operation_id.get p.operation_id)
admit_parsed s p (some id) = admit_again s p (s.by_operation_id.get id)

module _ (names : CoreNames) ⦃a : Digest AdmissionFacts⦄ ⦃o : Digest OperationFacts⦄ where
  -- admitOperation
  unfoldable pub admit_operation :
      OperationRepository → Operation → OperationRepository × AdmitResult
  unfolding admit_parsed
  admit_operation s value = elim (parse_operation names value) [
    | Operation.blocked is ↦ (s, invalid is)
    | Operation.ready p ↦ admit_parsed s p (s.operation_id_by_caller_key.get (key_of p))
  ]

abbrev invalid_read : String → ReadResult
invalid_read path = invalid (issue "pdf-export-operation-read-identity-invalid" path ∷ [])

-- readByOperationId
unfoldable pub read_by_operation_id : OperationRepository → Scope → String → ReadResult
read_by_operation_id s scope id =
    if not (valid_scope scope) || not (is_bounded id)
    then invalid_read "operationId"
    else elim (s.by_operation_id.get id) [
      | none ↦ not_found
      | some p ↦
          if not (p.scope.tenant_id == scope.tenant_id)
            || not (p.scope.principal_id == scope.principal_id)
          then not_found
          else found p
    ]

-- readByCallerKey
unfoldable pub read_by_caller_key : OperationRepository → Scope → String → ReadResult
read_by_caller_key s scope key =
    if not (valid_scope scope) || not (is_bounded key)
    then invalid_read "callerIdempotencyKey"
    else elim (s.operation_id_by_caller_key.get (caller_key scope key)) [
      | none ↦ not_found
      | some id ↦ elim (s.by_operation_id.get id) [
        | none ↦
            invalid
              (issue "pdf-export-operation-idempotency-index-invalid" "callerIdempotencyKey" ∷ [])
        | some p ↦ found p
      ]
    ]
