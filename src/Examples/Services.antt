-- ===== src/Examples/Services.antt =====
-- The mutation service, with a Core that edits every document, while another mutation is on its way.
use flowdoc_vnext_backend.Common.{◌+◌, String, ◌≡◌, refl, ◌⊎◌, true, false, none, some, [], ◌∷◌}
use flowdoc_vnext_backend.Common.Dict.{set}
use flowdoc_vnext_backend.Storage.PackageRepository.{
  PackageRecord, MutationWriteRequest, read, write_mutation, next_record, normalize,
}
use flowdoc_vnext_backend.Storage.PackageRepository.Changes.{mutation_call, run_all}
use flowdoc_vnext_backend.Service.Mutation.{
  MutationRequest, canvas, node, delete, CoreEdits, committed, not_committed, Envelope, answers,
  success, execute_mutation, execute_with, plan_new, edit, after_v2, carry_out, conclude, settle,
}
use flowdoc_vnext_backend.Service.Mutation.Once.{envelope_of, applied-replays, applied-advances}
use flowdoc_vnext_backend.Service.Mutation.Atomicity.{Writes}
use flowdoc_vnext_backend.Service.Mutation.Writing.{one_write}
use flowdoc_vnext_backend.Examples.Packages.{core, store, package_of}
use flowdoc_vnext_backend.Examples.Packages

abbrev edits : CoreEdits
edits = record {
  run_v3 =
      λ p o by_system. committed (record { id = p.id; carried = "edited" }) "summary" ("n-1" ∷ []);
  run_v4 = λ p o by_system. not_committed [];
  replace_v4 = λ c p block children by_system. not_committed [];
  stamp_v2 = λ p at. some p;
  stamp_v3 = λ p at. some p;
}

abbrev print : MutationRequest → String
print r = r.request_id

abbrev request : MutationRequest
request = record {
  base_revision = 4;
  document_id = "doc";
  operation = node (delete "n-1");
  reason = none;
  request_id = "r-9";
  source = canvas;
}

abbrev outcome : Envelope
outcome =
    success request false
      (record {
        base_revision = 4;
        core = "summary";
        document_id = "doc";
        operation_kind = "node.delete";
        stored = record {
          authoring_context = none;
          document_id = "doc";
          package_value = package_of "edited";
          revision = 5;
          updated_at = 30;
        };
        request_fingerprint = "r-9";
        request_id = "r-9";
        target_node_ids = "n-1" ∷ [];
      })
      4 "doc" "summary"

deleted : (execute_mutation core edits print store [] [] request 30).1 ≡ answers outcome
unfolding execute_mutation execute_with plan_new edit after_v2 carry_out conclude settle
    write_mutation next_record normalize set run_all
deleted = refl

applied-replays_example :
    let u =
      run_all core
        (execute_mutation core edits print store [] [] request 30).0
        (mutation_call (Packages.edit "other") ∷ []) in
    execute_mutation core edits print u (mutation_call (Packages.edit "other") ∷ []) [] request 90
    ≡ (u, answers (record outcome { replayed = some true }))
applied-replays_example =
    applied-replays core edits print store [] [] request 30 outcome
      (mutation_call (Packages.edit "other") ∷ []) (mutation_call (Packages.edit "other") ∷ []) []
      90 deleted refl

applied-advances_example :
    (x : PackageRecord) × (read (execute_mutation core edits print store [] [] request 30).0 "doc"
      ≡ some x)
    × (x.revision ≡ 4 + 1)
    × (outcome.revision ≡ some x.revision)
    × (outcome.read_envelope ≡ some (envelope_of request x))
applied-advances_example =
    applied-advances core edits print store [] [] request 30 outcome deleted refl

one_write_example :
    let u =
      (execute_mutation core edits print store
        (mutation_call (Packages.edit "other") ∷ [])
        []
        request
        30).0 in
    (u ≡ store)
    ⊎ ((u ≡ run_all core store (mutation_call (Packages.edit "other") ∷ []))
        ⊎ ((w : MutationWriteRequest) × Writes core edits print request w
            × (u
                ≡ (write_mutation core
                    (run_all core
                      (run_all core store (mutation_call (Packages.edit "other") ∷ []))
                      [])
                    w).0)))
one_write_example =
    one_write core edits print store (mutation_call (Packages.edit "other") ∷ []) [] request 30
