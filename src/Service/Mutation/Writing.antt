-- ===== src/Service/Mutation/Writing.antt =====
-- How often a mutation writes (service/mutationService.ts).
use flowdoc_vnext_backend.Common.{String, ◌≡◌, refl, ◌⊎◌, inl, inr, Option, none, some, List}
use flowdoc_vnext_backend.PdfExport.Issue.{Time}
use flowdoc_vnext_backend.Storage.Package.{CorePackages}
use flowdoc_vnext_backend.Storage.PackageRepository.{
  MutationWriteRequest, MutationReceipt, PackageRepository, read, read_mutation_receipt,
  write_mutation,
}
use flowdoc_vnext_backend.Storage.PackageRepository.Changes.{Call, run_all}
use flowdoc_vnext_backend.Service.Mutation.{
  MutationRequest, CoreEdits, Plan, finish, submit, plan_new, carry_out, execute_with,
  execute_mutation,
}
use flowdoc_vnext_backend.Service.Mutation.Atomicity.{Writes, PlanFits, plan_new-PlanFits}

module _ (core : CorePackages) (edits : CoreEdits) (fingerprint_of : MutationRequest → String) where
  carry_out-one_write :
      (s : PackageRepository) (second : List Call) (r : MutationRequest) (p : Plan)
      → PlanFits core edits fingerprint_of r p
      → let u = (carry_out core edits fingerprint_of s second r p).0 in
        (u ≡ s)
        ⊎ ((w : MutationWriteRequest) × Writes core edits fingerprint_of r w
            × (u ≡ (write_mutation core (run_all core s second) w).0))
  unfolding carry_out
  carry_out-one_write s second r (finish x) fits = inl refl
  carry_out-one_write s second r (submit older w) fits = inr (w, fits, refl)

  execute_with-one_write :
      (s : PackageRepository) (first second : List Call) (r : MutationRequest) (at : Time)
      (o : Option MutationReceipt)
      → let u = (execute_with core edits fingerprint_of s first second r at o).0 in
        (u ≡ s)
        ⊎ ((u ≡ run_all core s first)
            ⊎ ((w : MutationWriteRequest) × Writes core edits fingerprint_of r w
                × (u ≡ (write_mutation core (run_all core (run_all core s first) second) w).0)))
  unfolding execute_with
  execute_with-one_write s first second r at (some m) = inl refl
  execute_with-one_write s first second r at none =
      let s' = run_all core s first in
      let plan = plan_new core edits fingerprint_of r at (read s' r.document_id) in
      inr (
        carry_out-one_write s' second r plan
          (plan_new-PlanFits core edits fingerprint_of r at (read s' r.document_id)))

  -- Whatever other calls come while it runs, a mutation does nothing to the repository itself, or
  -- makes one call of writeMutation, after all of the others, with the request's document, id and
  -- fingerprint and with its base revision as the expected one.
  pub one_write :
      (s : PackageRepository) (first second : List Call) (r : MutationRequest) (at : Time)
      → let u = (execute_mutation core edits fingerprint_of s first second r at).0 in
        (u ≡ s)
        ⊎ ((u ≡ run_all core s first)
            ⊎ ((w : MutationWriteRequest) × Writes core edits fingerprint_of r w
                × (u ≡ (write_mutation core (run_all core (run_all core s first) second) w).0)))
  unfolding execute_mutation
  one_write s first second r at =
      execute_with-one_write s first second r at
        (read_mutation_receipt s r.document_id r.request_id)
