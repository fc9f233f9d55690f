-- ===== src/Processing/Durability.antt =====
-- What a worker run leaves in the database when it does not succeed: the failure handlers write
-- outside every `begin()` block, and the session closes without a commit.
use Prim.Native.String.{String}
use document_insight.Prelude.{
  ℕ, ◌≡◌, refl, ap, sym, ◌∙◌, ◌⊎◌, inl, inr, Bool, true, false, Option, none, some, Bool-cases,
}
use document_insight.Chunker.Text.{Text}
use document_insight.Chunker.Window.{Chunker}
use document_insight.Configuration.Models.{ResolvedIngestionProfile}
use document_insight.Job.Model.{ProcessingJob}
use document_insight.Store.Versions.{ProcessingDocumentVersion}
use document_insight.Store.Extracted
use document_insight.Store.Extracted.{Language}
use document_insight.Store.Generations.{IndexGeneration}
use document_insight.Store.System.{
  Database, System, Result, ok, err, Action, close_session, end_block, ◌>>=◌,
}
use document_insight.Processing.Failures.{Failure, assertion_error, Outside}
use document_insight.Processing.Retry.{
  RetryConfig, default_config, record_transient_failure, record_permanent_failure, is_retryable,
  classify_error, re_enqueue, write_if,
}
use document_insight.Processing.Stages.Blocks.{begin}
use document_insight.Processing.Stages.Embedding.{retry_job, embed_stage}
use document_insight.Processing.Stages.Parsing.{parse_stage}
use document_insight.Processing.Stages.Recognition.{ner_stage}
use document_insight.Processing.Stages.Chunking.{chunk_stage}
use document_insight.Processing.Service.{
  Opened, opened, opened_if, missing, refused, resolved, Resolution, open_job, claim_job,
  open_claimed, run_opened, handle_failure, process, process_version, run_worker,
}

re_enqueue-durable :
    (accepts : Bool) (e : _) (s : System) → (re_enqueue accepts e s).durable ≡ s.durable
re_enqueue-durable true e s = refl
re_enqueue-durable false e s = refl

write_if-durable :
    (takes : Bool) (f : Database → Database) (s : System)
    → (write_if takes f s).1.durable ≡ s.durable
write_if-durable true f s = refl
write_if-durable false f s = refl

transient-durable :
    (c : RetryConfig) (o : Outside) (job : ProcessingJob) (n : ℕ) (s : System)
    → (record_transient_failure c o job n s).1.durable ≡ s.durable
unfolding record_transient_failure
transient-durable c o job n s = elim (Bool-cases (is_retryable c n)) [
  | inl e ↦ elim (Bool-cases o.records) [
    | inl t ↦ rw (e, t) (re_enqueue-durable o.queue_accepts _ _)
    | inr f ↦ rw (e, f) refl
  ]
  | inr e ↦ rw e (write_if-durable o.records _ _)
]

retry_job-durable :
    (o : Outside) (job : ProcessingJob) (s : System) → (retry_job o job s).1.durable ≡ s.durable
unfolding retry_job
retry_job-durable o job s = transient-durable default_config o job _ _

-- Whatever a run raises, what its handler records of it is lost when the session closes: the
-- database is left as it was, with no retry scheduled and no failure stored.
pub handle_failure-durable :
    (o : Outside) (job : ProcessingJob) (error : Failure) (s : System)
    → (close_session (handle_failure o job error s).1).durable ≡ s.durable
unfolding handle_failure record_permanent_failure classify_error
handle_failure-durable o job Failure.parsing_error s = write_if-durable o.records _ s
handle_failure-durable o job Failure.unsupported_media_type s = write_if-durable o.records _ s
handle_failure-durable o job _ s = retry_job-durable o job s

end_block-committed :
    {A : Type 0} (r : Result Failure A × System) {a : A} {s' : System}
    → end_block r ≡ (ok a, s')
    → (s'.in_transaction ≡ false) × (s'.durable ≡ s'.working)
end_block-committed (ok _, _) e =
    (ap (λ q. q.1.in_transaction) (sym e), ap (λ q. q.1.durable) (sym e) ∙ ap (λ q. q.1.working) e)
end_block-committed (err _, _) e = cc

-- A `begin()` block that returns has committed.
pub begin-committed :
    {A : Type 0} (m : Action Failure A) (s : System) {a : A} {s' : System}
    → begin m s ≡ (ok a, s')
    → (s'.in_transaction ≡ false) × (s'.durable ≡ s'.working)
begin-committed m s e = elim (Bool-cases s.in_transaction) [
  | inl busy ↦ cc (rw busy at e)
  | inr idle ↦ end_block-committed (m (record s { in_transaction = true })) (rw idle at e)
]

open_job-committed :
    (o : Outside) (job_id : ℕ) (s : System) {x : Opened} {s' : System}
    → open_job o job_id s ≡ (ok x, s')
    → (s'.in_transaction ≡ false) × (s'.durable ≡ s'.working)
unfolding open_job
open_job-committed o job_id s e =
    begin-committed (claim_job o job_id >>= open_claimed >>= opened_if o.opens) s e

pub chunk_stage-done :
    (o : Outside) (job : ProcessingJob) (version : ProcessingDocumentVersion) (g : IndexGeneration)
    (c : Chunker) (text : Text) (l : Language) {t : ℕ} (s : System)
    → g.chunking_completed_at ≡ some t
    → chunk_stage o job version g c text l s ≡ (ok none, s)
unfolding chunk_stage
chunk_stage-done o job version g c text l s e = rw (e, chunk_stage)

pub embed_stage-done :
    (o : Outside) (job : ProcessingJob) (version : ProcessingDocumentVersion) (g : IndexGeneration)
    (p : ResolvedIngestionProfile) (ig : Option ℕ) {t : ℕ} (s : System)
    → g.embedding_completed_at ≡ some t
    → embed_stage o job version g p ig s ≡ (ok (some ig), s)
unfolding embed_stage
embed_stage-done o job version g p ig s e = rw (e, embed_stage)

module _ (o : Outside) (job : ProcessingJob) (version : ProcessingDocumentVersion)
    (g : IndexGeneration) (p : ResolvedIngestionProfile) (c : Chunker) (text : Text) {t t' : ℕ}
    {l : Language} (s : System) (chunked : g.chunking_completed_at ≡ some t)
    (embedded : g.embedding_completed_at ≡ some t')
    (recognized : Extracted.get_ner_metadata version.document_version_id s.working.extracted
      ≡ some l)
    (idle : s.in_transaction ≡ false) where
  -- Behind two finished checkpoints the run raises before it completes anything.
  stuck-raises :
      process_version o job version g p c (some text) true s
      ≡ (err assertion_error, record s { durable = s.working; in_transaction = false })
  unfolding process_version parse_stage ner_stage
  stuck-raises =
      rw (idle, recognized)
        (rw
          (chunk_stage-done o job version g c text l
            (record s { durable = s.working; in_transaction = false }) chunked)
          (rw (
            embed_stage-done o job version g p none
              (record s { durable = s.working; in_transaction = false }) embedded)))

-- A run that died between the embedding checkpoint and the completion can never be finished: every
-- later run that claims the job runs into an assertion error in `_process_version`, and stores nothing
-- but the claim, whatever the outside world does. The text and the entities are stored, and both checkpoints of the generation are set.
pub finished_generation_stuck :
    (o : Outside) (job_id : ℕ) (job : ProcessingJob) (version : ProcessingDocumentVersion)
    (g : IndexGeneration) (p : ResolvedIngestionProfile) (c : Chunker) (text : Text) {t t' : ℕ}
    {l : Language} (s s1 : System)
    → open_job o job_id s ≡ (ok (opened job version (some text) true (resolved g p c)), s1)
    → g.chunking_completed_at ≡ some t
    → g.embedding_completed_at ≡ some t'
    → Extracted.get_ner_metadata version.document_version_id s1.durable.extracted ≡ some l
    → ((process_version o job version g p c (some text) true s1).0 ≡ err assertion_error)
      × ((run_worker o job_id s).durable ≡ s1.durable)
unfolding run_worker process run_opened
finished_generation_stuck o job_id job version g p c text s s1 e chunked embedded recognized =
    let done = open_job-committed o job_id s e in
    let working = rw done.1 at recognized in
    let raised = stuck-raises o job version g p c text s1 chunked embedded working done.0 in
    (
      ap (λ r. r.0) raised,
      rw e (
          rw raised (
            handle_failure-durable o job assertion_error
              (record s1 { durable = s1.working; in_transaction = false })
            ∙ sym done.1)),
    )

-- A job whose profile or generation cannot be resolved is not failed by its run: the permanent
-- failure that the run records is rolled back, and the claim alone stays.
pub unresolved_not_failed :
    (o : Outside) (job_id : ℕ) (job : ProcessingJob) (version : ProcessingDocumentVersion)
    (text : Option Text) (ner_complete : Bool) (code : String) (r : Resolution) (s s1 : System)
    → (r ≡ missing) ⊎ (r ≡ refused code)
    → open_job o job_id s ≡ (ok (opened job version text ner_complete r), s1)
    → (run_worker o job_id s).durable ≡ s1.durable
unfolding run_worker process run_opened record_permanent_failure
unresolved_not_failed o job_id job version text ner_complete code r s s1 (inl m) e =
    rw (e, m) (write_if-durable o.records _ s1)
unresolved_not_failed o job_id job version text ner_complete code r s s1 (inr m) e =
    rw (e, m) (write_if-durable o.records _ s1)
