-- ===== src/Examples/Operations.antt =====
-- Operations: what the parser accepts, and what creation makes.
use mathlib.Core.Path.{subst}
use flowdoc_vnext_backend.Common.{
  String, ◌≡◌, refl, sym, ◌↔◌, Bool-cases, inl, inr, [], ◌==◌, text_eq, if◌then◌else◌,
}
use flowdoc_vnext_backend.Common.Text.{is_fingerprint, is_bounded}
use flowdoc_vnext_backend.PdfExport.Operation
use flowdoc_vnext_backend.PdfExport.Operation.{
  Admission, Operation, OperationResult, ready, parse_operation,
}
use flowdoc_vnext_backend.PdfExport.Operation.Validity.{
  AdmissionIsValid, OperationIsValid, parse_operation-OperationIsValid,
}
use flowdoc_vnext_backend.PdfExport.Operation.Create.{
  CoreAnswer, admitted, not_admitted, CreateInput, create_operation, create_operation-parses,
  Creates,
}
use flowdoc_vnext_backend.Examples.Data.{
  admission_digest, operation_digest, names, admission, operation,
}

pub operation-parses : parse_operation names operation ≡ ready operation
unfolding parse_operation is_bounded is_fingerprint Operation.operation_rows
operation-parses = refl

pub operation-IsValid : OperationIsValid names operation
operation-IsValid = (parse_operation-OperationIsValid names operation).0 operation-parses

parse_operation-OperationIsValid_example :
    (parse_operation names operation ≡ ready operation) ↔ OperationIsValid names operation
parse_operation-OperationIsValid_example = parse_operation-OperationIsValid names operation

-- A Core that admits one id.
abbrev core : String → String → CoreAnswer
core id input = if id == "export-1" then admitted admission else not_admitted []

core_admits :
    (id : String) (input : String) (m : Admission)
    → core id input ≡ admitted m
    → AdmissionIsValid names m × (m.admission_id ≡ id)
core_admits id input m e = elim (Bool-cases (id == "export-1")) [
  | inl same ↦
      let answer : admitted admission ≡ admitted m = rw same at e in
      let one : admission ≡ m = cc answer in
      (
        subst (AdmissionIsValid names) one operation-IsValid.admission,
        subst (λ x. x.admission_id ≡ id) one (sym ((text_eq.same_iff id "export-1").0 same)),
      )
  | inr other ↦ let no : not_admitted [] ≡ admitted m = rw other at e in cc no
]

abbrev input : CreateInput String
input = record {
  operation_id = "export-1";
  tenant_id = "tenant";
  principal_id = "principal";
  caller_idempotency_key = "key";
  accepted_at = 1000;
  requested_at = 900;
  core = "";
}

input-creates : create_operation core input ≡ ready operation
unfolding create_operation is_bounded
input-creates = refl

create_operation-parses_example :
    Creates core input operation × (parse_operation names operation ≡ ready operation)
create_operation-parses_example =
    create_operation-parses core names core_admits input operation input-creates
