-- ===== src/Lib.antt =====
-- Document Insight: the document ingestion, processing, retrieval and evaluation service of
-- src/document_insight, as functions on its tables.
--
-- A user uploads a document. The ingestion service stores the original and writes a document, a
-- version, an index generation and a job, then publishes the job. A worker claims the job and takes
-- the version through parsing, named-entity recognition, chunking and embedding, with a checkpoint
-- in the database after each; a recovery pass publishes what got lost again. A finished version
-- can be activated, and then queries retrieve its passages, rank them and cite them. The evaluation
-- scores compare such rankings with the passages known to be relevant.
--
-- Shared:
--   Prelude (Tests, Lists, Table, Sorting): Boolean tests, lists, tables as lists of rows with their
--     filtered updates, and their order
--   Access: roles, the actor and its departments (application/auth/models.py)
--   Configuration: the typed snapshots (application/configuration/models.py), the tables of profiles
--     (infrastructure/capability_profile, configuration_snapshot, ingestion_profile, query_profile and
--     profile_activation) and the resolution of an ingestion profile
--     (application/configuration/service.py)
--   Codec: Python's text forms of numbers and UUIDs, and JSON, as the evaluation stores them
-- The parts, with their paths in src/document_insight:
--   Store: one file per table and repository of infrastructure/document_version,
--     extracted_document, index_generation, chunk, chunk_embedding, entity, document, department,
--     document_department and active_profile; Store/System is the session
--     (infrastructure/database/transaction.py): the committed tables, the tables as the session
--     sees them and whether a transaction is open, with `begin()` and the close of the session
--   Job: the job table (infrastructure/job/repository.py); Requeue and Lifecycle give the steps
--     that its callers take, as a relation
--   Chunker: `PageWindowDocumentChunker` (infrastructure/document_chunker/page_window.py)
--   Processing: `ProcessingService` and `RetryCoordinator` (application/processing/service.py,
--     retry.py) and the worker's session (worker/ingestion.py); Stages has one file per stage
--   Recovery: `ProcessingJobReconciler` (application/processing/reconciliation.py)
--   Ingestion: `IngestionService` (application/ingestion/service.py), with the object store and
--     the queue (infrastructure/object_storage/s3.py, infrastructure/queue/rq.py)
--   Library: activation and the listing (application/documents/service.py), and the view of one job
--     (application/jobs/service.py)
--   Query: `QueryPreparationService` (application/query/service.py); Resolver is the query profile's
--     resolution (application/query/profile_resolver.py), and Authorization puts the service, the
--     resolver and the retrieval together
--   Retrieval: the authorized statements of infrastructure/retrieval/repository.py on the tables
--   Provider: the Mistral adapters (infrastructure/mistral, infrastructure/reranker/mistral.py,
--     infrastructure/generation/mistral.py): retries, and what is made of a model's response
--   Approval: `ProfileApprovalService` (application/configuration/approval.py): staging,
--     validation and the activation of profiles
--   Evaluation: the scores (application/evaluation/scoring.py) and, in the files RunTable to
--     RunRecovery, the table of runs (infrastructure/evaluation_run/repository.py) with the calls
--     that the services make of it and one turn of worker/evaluation_reconciler.py; GateReview and
--     GateDecision are the review of a finished run (application/evaluation/service.py); Anchors is
--     the text form of a source span, Manifest and ManifestForm the JSON of a corpus manifest
--     (application/evaluation/models.py)
--
-- Conventions. A UUID is a number, and so is a moment of time, in hundredths of a second. A string
-- that the code inspects is a list of code points; one that it only passes on is a String. A nullable
-- column is an Option. A table is the list of its rows in the order of insertion. A handler runs in
-- a session of its own, and no other session writes while it runs; interleavings of several
-- handlers on the job table are sequences of the steps of Job/Lifecycle. The clock of a run stands
-- still. A float is only compared, or computed with by parameters of the model. The database carries
-- out every statement, but for what a setting of the model refuses: the three transactions of an
-- upload, the first transaction of a worker run and the statements of its failure handlers.
--
-- Outside code (parsers, recognizers, the HTTP client and the SDK of the models, queue, object store,
-- PostgreSQL's full-text and vector operators, the digest of a configuration) is a parameter: what
-- each call returns or raises. The worker and the query service take their models as such
-- parameters too; Provider shows what the Mistral adapters put there. A response's text is checked
-- by its schema in the model, as the SDK does. The messages of the approval's errors are left out.
--
-- Fuel. The chunker's loop on a page has the length of the page plus one: every window starts behind
-- the one before. The batches of an embedding have the number of chunks: a batch takes at least one.
-- The retries of a model's call have the number of attempts. The digits of a number have its value.
-- All else is structural recursion.
--
-- Not modelled: the HTTP interface, the administration, command lines, metrics, logs and
-- migrations, which hold no logic of the core; the other adapters of outside libraries, which are
-- parameters; the launch and the loop of an evaluation run, the suites, authentication, the rate
-- limiter and the operator's listing queries.
pub mod Prelude
pub mod Access
pub mod Ingestion
pub mod Library
pub mod Approval
pub mod Provider
pub mod Query
pub mod Retrieval
pub mod Evaluation
pub mod Chunker
pub mod Codec
pub mod Job
pub mod Configuration
pub mod Store
pub mod Processing
pub mod Recovery
