-- ===== src/Lib.antt =====
-- Three cores of the FlowDoc vNext backend: PDF export, with its operations, their lifecycle, their
-- in-memory repositories and the shutdown gate of the worker; the composition scheduler, with its job
-- heads, its in-memory repository and its lifecycle commands; and the in-memory repository of document
-- packages, with the mutation service.
--
-- A caller's export request becomes an immutable operation (src/pdfExport/pdfExportOperation.ts),
-- which the operation repository binds to the caller's idempotency key
-- (src/pdfExport/pdfExportOperationRepository.ts). Its progress is a lifecycle head, changed only by
-- transition requests through a pure apply function (src/pdfExport/pdfExportLifecycle.ts). The
-- lifecycle repository (src/pdfExport/pdfExportLifecycleRepository.ts) keeps the head of each
-- operation and the receipt of each transition. A worker process has one gate that stops new claims
-- when it shuts down (src/pdfExport/pdfExportShutdownDrain.ts). Apart from these, the mutation
-- service (src/service/mutationService.ts) runs Core's edits and writes documents through the package
-- repository (src/storage/packageRepository.ts), which keeps the record of each document, the receipts
-- of its mutations and migrations, and the packages from before its migrations.
--
-- A composition job (src/composition) lays a document out in transitions that survive a crash. Its
-- source pin fixes what it reads and its limits (compositionSchedulerSourcePin.ts); its head is the
-- only thing of it that changes (compositionSchedulerJobHead.ts); page chunks and transition receipts
-- are immutable records (compositionSchedulerTransitionRecords.ts). The repository
-- (compositionSchedulerRepository.ts) retains the records and replaces a head by compare-and-swap, which
-- commits at most one transition or finalization under a request id. The lifecycle commands
-- (compositionSchedulerLifecycle.ts) recover an expired lease, schedule a retry, cancel and expire: each
-- reads the head, makes the next one and swaps it. Initialization
-- (compositionSchedulerInitialization.ts, compositionSchedulerImmutableStaging.ts) retains the first
-- records and creates the head. The chain reader
-- (compositionSchedulerChainReader.ts) follows the chunks and the receipts of a head back from their
-- tips and checks that they are exactly what the head says. The progress
-- (compositionSchedulerProgress.ts) is what a caller is shown of the head.
--
-- Files:
--   Common               names shared by all; Tests (Boolean tests, equality), Dict (a `Map`), Text
--                        (bounded identities and fingerprints)
--   PdfExport/Issue      issues, fingerprints, scopes
--   PdfExport/Operation  the operation and its parser (parseFlowDocBackendPdfExportOperationV1);
--                        Create (createFlowDocBackendPdfExportOperationV1), Validity
--   PdfExport/Lifecycle  Head (the types), Parse (parseFlowDocBackendPdfExportLifecycleHeadV1),
--                        Transition (inspection, creation and
--                        applyFlowDocBackendPdfExportLifecycleTransitionV1, one function for each of
--                        its branches), Validity (what a head must satisfy, without the parser), Step
--                        (the specification: Effects, what a transition may change, Relation, when,
--                        Receipts and Refusals), Apply (the code against it), and
--                        Creation, Binding, Claims, Ending, Progress, Enabled, Behaviour
--   PdfExport/LifecycleRepository  initializeLifecycle, readLifecycle, applyLifecycleTransition, with
--                        Inversion, Replay, Retention, Exactness, Invariant, Isolation
--   PdfExport/OperationRepository  admitOperation, readByOperationId, readByCallerKey, with
--                        Admission, Idempotency, Isolation
--   PdfExport/ShutdownDrain  the gate; Reserved (the sets and the sort), Invariant, Draining,
--                        Completion (how a drain ends)
--   Storage/Package      stored packages and the authoring context
--   Storage/PackageRepository  write, writeMutation, migrate and the reads, with Changes (what a call
--                        may do), Invariant, Replays, Migrations
--   Service/Mutation     executeBackendMutation (src/service/mutationService.ts), with Atomicity (an
--                        answer of a new application comes from one write), Once (replays) and
--                        Writing (how often it writes)
--   Composition/Core     what the scheduler reads of Core's values, and Core's parsers
--   Composition/SourcePin, JobHead, Transition  the contracts: finalize and parse; JobHead/Validity
--                        (what a head must satisfy, without the parser)
--   Composition/Repository  putImmutable, createHead and the reads, Swap (compareAndSwapHead, and runs
--                        of calls), with Changes and Commits (what a call may do), Keeping, Soundness,
--                        Settled (retained records), Replays (committed requests)
--   Composition/Lifecycle  the four commands; Moves (the specification, a step relation), Fits and
--                        Follows (a move leads to a valid next head), Refinement (a move is committed)
--                        and Updates (what "updated" means)
--   Composition/Context  the contracts that parse their source pin and their manifest first
--   Composition/Staging, Initialization  stageFlowDocBackendCompositionImmutableBatchV1 and
--                        initializeFlowDocBackendCompositionV1, with Staged, Created and Stored
--   Composition/ChainReader  loadFlowDocBackendCompositionChainV1, with Walk (its loop), Ends (it
--                        terminates), Pages, Receipts, Chunks and Loaded (what it has loaded)
--   Composition/Progress what a caller is shown of a job (createFlowDocBackendCompositionProgressV1) and
--                        its read, with Advances (how it changes over time)
--   Examples             the theorems at concrete values
--
-- How the model stands to the code:
--   * A value has the fields and the types of its V1 interface. The tests of the parsers that a field
--     exists, that there is no other, and that it is a text, an integer or an exact ISO time are in
--     the types; every other test is a row of a list that reports its issue, in the code's order.
--   * A time is a number of milliseconds since the epoch. Dates past the range of JavaScript's `Date`,
--     for which `toISOString` throws, are not excluded.
--   * An issue is its code and its path; messages and the severity are left out.
--   * The fingerprint of a value is a parameter: any function into texts of the form that the
--     contracts test. Node's SHA-256 and JSON.stringify are not modelled.
--   * Core's production admission is a parameter, of creation and of its theorem, whose hypothesis
--     says that what Core admits has the form that the operation parser expects and the id it was
--     given. Of an admission the model has the fields that this code reads; one text stands for the
--     others.
--   * Core's parsing and serialization of packages are parameters that may throw; the hypothesis of the
--     package invariant is that serializing keeps the id and the fields. A clone of a stored package,
--     which serializes it once more, is taken to be that package.
--   * A `Map` is a function of its key. A method returns the next state beside its answer; clones are
--     the values themselves. A method of a repository does not await
--     inside, so it runs without another in between. The mutation service awaits between its reads and
--     its write: there the calls of others are arguments, in any number.
--   * Core's edits are parameters of the mutation service, of which nothing is assumed; its fingerprint
--     of a request, a JSON text, is a parameter too.
--   * In the composition contracts a refused value is none: which issues are reported is left out, so
--     that the tests of a contract are one conjunction. Core's parsers are parameters; the hypothesis of
--     the theorems that need it, ParsesSelf, is that what a parser gives out is what it was given.
--     JSON.stringify on a retained value is a parameter, of which nothing is assumed. The keys of the
--     repository join ids with NUL, as in the code, and no theorem takes the joint for injective. The
--     repository is in memory and does not throw, so no answer is "unavailable". The lifecycle commands
--     await between the read and the swap, and the initialization before each of its writes: the calls of
--     others that come between are an argument.
--   * Fuel bounds the two loops of the chain reader only: two turns more than the page count, and than
--     the transition number, of the head, which is proved to be enough, since each turn but the last
--     adds an item and the code breaks the loop once there are more items than the count. The other
--     loops are over lists.
--
-- Not modelled: the SQL and object-store adapters, the workflow, renderer attempts, artifact
-- persistence, observability, routes, servers and the local worker of src/pdfExport; the advancement,
-- the finalization, the workers with their journal, the production repository and
-- the SQLite stores of src/composition; and the other directories of src (docgen, the rest of storage,
-- of service, of contracts and of core, routes, artifacts, http, localPdfExport). Of the package
-- repository, the listing, which sorts by locale, and the seeding of the first records are left out:
-- its theorems start from any state, or any sound one.
pub mod Common
pub mod PdfExport
pub mod Storage
pub mod Service
pub mod Composition
mod Examples
