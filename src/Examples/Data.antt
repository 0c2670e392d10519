-- ===== src/Examples/Data.antt =====
-- An operation, its head and requests for it, with a concrete digest for each kind of facts.
use flowdoc_vnext_backend.Common.{ℕ, String, true, false, ◌≡◌, refl}
use flowdoc_vnext_backend.Common.Text.{is_fingerprint}
use flowdoc_vnext_backend.PdfExport.Issue.{Time, Digest}
use flowdoc_vnext_backend.PdfExport.Operation.{
  AdmissionFacts, Admission, OperationFacts, Operation, CoreNames, operation_source,
  exact_contracts,
}
use flowdoc_vnext_backend.PdfExport.Lifecycle.Head.{
  HeadFacts, TransitionKind, claim, force_shutdown, TransitionRequest, ReceiptFacts,
}
use flowdoc_vnext_backend.PdfExport.ShutdownDrain.{DrainFacts}

abbrev pub zeros : String
zeros = "sha256:0000000000000000000000000000000000000000000000000000000000000000"

abbrev pub ones : String
ones = "sha256:1111111111111111111111111111111111111111111111111111111111111111"

pub zeros-is_fingerprint : is_fingerprint zeros ≡ true
unfolding is_fingerprint
zeros-is_fingerprint = refl

pub ones-is_fingerprint : is_fingerprint ones ≡ true
unfolding is_fingerprint
ones-is_fingerprint = refl

abbrev pub constant : (A : Type 0) → Digest A
constant A = record { digest = λ a. zeros; digest-is_fingerprint = λ a. zeros-is_fingerprint }

instance abbrev pub admission_digest : Digest AdmissionFacts
admission_digest = constant AdmissionFacts

instance abbrev pub operation_digest : Digest OperationFacts
operation_digest = constant OperationFacts

instance abbrev pub head_digest : Digest HeadFacts
head_digest = constant HeadFacts

instance abbrev pub receipt_digest : Digest ReceiptFacts
receipt_digest = constant ReceiptFacts

instance abbrev pub drain_digest : Digest DrainFacts
drain_digest = constant DrainFacts

-- It tells a forced shutdown from the other requests.
abbrev pub kind_digest : TransitionKind → String
kind_digest force_shutdown = ones
kind_digest _ = zeros

pub kind_digest-is_fingerprint : (k : TransitionKind) → is_fingerprint (kind_digest k) ≡ true
kind_digest-is_fingerprint force_shutdown = ones-is_fingerprint
kind_digest-is_fingerprint _ = zeros-is_fingerprint

instance abbrev pub request_digest : Digest TransitionRequest
request_digest = record {
  digest = λ r. kind_digest r.kind;
  digest-is_fingerprint = λ r. kind_digest-is_fingerprint r.kind;
}

abbrev pub names : CoreNames
names = record { admission_source = "core"; admission_version = 1 }

abbrev pub admission : Admission
admission = record {
  facts = record {
    source = "core";
    contract_version = 1;
    kind = "pdf-export-production-admission";
    admission_id = "export-1";
    payload_fingerprint = zeros;
    execution_deadline_ms = 60000;
    max_attempts = 2;
    activation_status = "blocked";
    activation_production_binding = false;
    production_binding = false;
    renderer_execution = false;
    carried = "";
  };
  admission_fingerprint = zeros;
}

abbrev pub operation : Operation
operation = record {
  facts = record {
    source = operation_source;
    contract_version = 1;
    kind = "pdf-export-operation";
    operation_id = "export-1";
    status = "accepted";
    scope = record { tenant_id = "tenant"; principal_id = "principal" };
    idempotency = record { caller_key = "key"; payload_fingerprint = zeros };
    admission = admission;
    accepted_at = 1000;
    contracts = exact_contracts;
  };
  operation_fingerprint = zeros;
}

-- A request for the export, by its id, the revision that it expects, its time and its kind.
abbrev pub request : String → ℕ → Time → TransitionKind → TransitionRequest
request id revision at kind = record {
  transition_id = id;
  tenant_id = "tenant";
  principal_id = "principal";
  operation_id = "export-1";
  expected_head_revision = revision;
  transition_at = at;
  kind = kind;
}

-- A worker takes the export for ten seconds.
abbrev pub take : TransitionRequest
take = request "t-1" 0 2000 (claim "token" "worker" 12000)

abbrev pub shut : TransitionRequest
shut = request "t-1" 0 2000 force_shutdown
