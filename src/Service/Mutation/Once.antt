-- ===== src/Service/Mutation/Once.antt =====
-- What an applied mutation leaves in the repository, and what its request gets when it comes again
-- (service/mutationService.ts).
use mathlib.Core.Path.{subst}
use Prim.Native.String.{◌++◌}
use flowdoc_vnext_backend.Common.{
  ℕ, ◌+◌, String, ◌≡◌, refl, sym, ap, ◌∙◌, true, false, some, List, ◌==◌, text_eq, number_eq,
  beq_refl, arith,
}
use flowdoc_vnext_backend.Common.Dict.{get-set_self}
use flowdoc_vnext_backend.PdfExport.Issue.{Time}
use flowdoc_vnext_backend.Storage.Package.{CorePackages}
use flowdoc_vnext_backend.Storage.PackageRepository.{
  PackageRecord, MutationWriteRequest, MutationReceipt, PackageRepository, read,
  read_mutation_receipt, write_mutation, receipt_key,
}
use flowdoc_vnext_backend.Storage.PackageRepository.Changes.{Call, run_all}
use flowdoc_vnext_backend.Storage.PackageRepository.Replays.{
  Settled, written-Settled, write_mutation-Written,
}
use flowdoc_vnext_backend.Service.Mutation.{
  MutationRequest, CoreEdits, ReadEnvelope, Envelope, answers, success, replay_answer, execute_with,
  execute_mutation,
}
use flowdoc_vnext_backend.Service.Mutation.Atomicity.{Writes, Applied, execute_mutation-Applied}

-- The read envelope of an applied mutation, from the record that it wrote.
abbrev pub envelope_of : MutationRequest → PackageRecord → ReadEnvelope
envelope_of r x = record {
  base_revision = r.base_revision;
  document_id = r.document_id;
  envelope_id = r.request_id ++ ":mutation-result";
  package_value = x.package_value;
  source_revision = x.revision;
}

module _ (core : CorePackages) (edits : CoreEdits) (fingerprint_of : MutationRequest → String) where
  replay_answer-same :
      (r : MutationRequest) (m : MutationReceipt)
      → m.request_fingerprint ≡ fingerprint_of r
      → replay_answer core edits fingerprint_of r m
        ≡ success r true m m.base_revision m.document_id m.core
  unfolding replay_answer
  replay_answer-same r m e =
      let same : (m.request_fingerprint == fingerprint_of r) ≡ true =
        rw e (beq_refl (fingerprint_of r)) in
      rw (same, replay_answer) refl

  with_receipt :
      (s : PackageRepository) (first second : List Call) (r : MutationRequest) (at : Time)
      (m : MutationReceipt)
      → read_mutation_receipt s r.document_id r.request_id ≡ some m
      → execute_mutation core edits fingerprint_of s first second r at
        ≡ (s, answers (replay_answer core edits fingerprint_of r m))
  unfolding execute_mutation execute_with
  with_receipt s first second r at m e =
      ap (execute_with core edits fingerprint_of s first second r at) e

  applied-Settled :
      (r : MutationRequest) (e : Envelope) (u : PackageRepository) (cs : List Call)
      → (a : Applied core edits fingerprint_of r e u)
      → Settled core (run_all core u cs) a.request a.receipt
  applied-Settled r e u cs a =
      subst (λ x. Settled core (run_all core x cs) a.request a.receipt) (sym a.result)
        (written-Settled core a.state a.request a.receipt cs a.wrote)

  request-key :
      (r : MutationRequest) (w : MutationWriteRequest)
      → Writes core edits fingerprint_of r w
      → receipt_key r.document_id r.request_id ≡ receipt_key w.document_id w.request_id
  request-key r w fits =
      ap (λ z. receipt_key z r.request_id) (sym fits.document)
      ∙ ap (receipt_key w.document_id) (sym fits.request)

  success-same :
      (r : MutationRequest) (m : MutationReceipt) (base : ℕ) (document text : String)
      → m.base_revision ≡ base
      → m.document_id ≡ document
      → m.core ≡ text
      → success r true m m.base_revision m.document_id m.core ≡ success r true m base document text
  success-same r m base document text b d t =
      ap (λ z. success r true m z m.document_id m.core) b
      ∙ ap (λ z. success r true m base z m.core) d
      ∙ ap (success r true m base document) t

  applied-replay_answer :
      (r : MutationRequest) (e : Envelope) (u : PackageRepository)
      → (a : Applied core edits fingerprint_of r e u)
      → replay_answer core edits fingerprint_of r a.receipt ≡ record e { replayed = some true }
  applied-replay_answer r e u a =
      let w = write_mutation-Written core a.state a.request a.receipt a.wrote in
      replay_answer-same r a.receipt
        (ap (λ (z : MutationReceipt). z.request_fingerprint) w.receipt ∙ a.fits.print)
      ∙ success-same r a.receipt r.base_revision r.document_id a.request.core
          (ap (λ (z : MutationReceipt). z.base_revision) w.receipt ∙ a.fits.base)
          (ap (λ (z : MutationReceipt). z.document_id) w.receipt ∙ a.fits.document)
          (ap (λ (z : MutationReceipt). z.core) w.receipt)
      ∙ ap (λ (z : Envelope). record z { replayed = some true }) (sym a.answer)

  -- Once a mutation is answered as applied anew, and after any later calls, the same request, whatever
  -- other calls come while it runs, gets the same answer, but for being a replay, and changes nothing.
  pub applied-replays :
      (s : PackageRepository) (first second : List Call) (r : MutationRequest) (at : Time)
      (e : Envelope) (later first' second' : List Call) (at' : Time)
      → (execute_mutation core edits fingerprint_of s first second r at).1 ≡ answers e
      → e.replayed ≡ some false
      → let u =
          run_all core (execute_mutation core edits fingerprint_of s first second r at).0 later in
        execute_mutation core edits fingerprint_of u first' second' r at'
        ≡ (u, answers (record e { replayed = some true }))
  applied-replays s first second r at e later first' second' at' q f =
      let a = execute_mutation-Applied core edits fingerprint_of s first second r at e q f in
      let s' = (execute_mutation core edits fingerprint_of s first second r at).0 in
      let u = run_all core s' later in
      let settled = applied-Settled r e s' later a in
      let reads : read_mutation_receipt u r.document_id r.request_id ≡ some a.receipt =
        ap u.mutation_receipts.get (request-key r a.request a.fits) ∙ settled.reads in
      with_receipt u first' second' r at' a.receipt reads
      ∙ ap (λ z. (u, answers z)) (applied-replay_answer r e s' a)

  -- Where a mutation is answered as applied anew, its document is then stored at the revision after the
  -- request's base revision, and the answer carries that revision and that package.
  pub applied-advances :
      (s : PackageRepository) (first second : List Call) (r : MutationRequest) (at : Time)
      (e : Envelope)
      → (execute_mutation core edits fingerprint_of s first second r at).1 ≡ answers e
      → e.replayed ≡ some false
      → (x : PackageRecord) × (read
            (execute_mutation core edits fingerprint_of s first second r at).0
            r.document_id
          ≡ some x)
        × (x.revision ≡ r.base_revision + 1)
        × (e.revision ≡ some x.revision)
        × (e.read_envelope ≡ some (envelope_of r x))
  applied-advances s first second r at e q f =
      let a = execute_mutation-Applied core edits fingerprint_of s first second r at e q f in
      let w = write_mutation-Written core a.state a.request a.receipt a.wrote in
      let x = w.stored in
      let stored : a.receipt.stored ≡ x = ap (λ (z : MutationReceipt). z.stored) w.receipt in
      let held : read (write_mutation core a.state a.request).0 a.request.document_id ≡ some x =
        ap (λ (z : PackageRepository). z.records.get a.request.document_id) w.writes
        ∙ get-set_self a.state.records a.request.document_id x in
      let next = ap (λ (z : PackageRecord). z.revision) w.advances.result in
      (
        x,
        ap (λ (z : PackageRepository). read z r.document_id) a.result
            ∙ ap (read (write_mutation core a.state a.request).0) (sym a.fits.document)
            ∙ held,
        omega (arith, next, w.advances.current, a.fits.base),
        ap (λ (z : Envelope). z.revision) a.answer
            ∙ ap (λ (z : PackageRecord). some z.revision) stored,
        ap (λ (z : Envelope). z.read_envelope) a.answer
            ∙ ap (λ (z : PackageRecord). some (envelope_of r z)) stored,
      )
