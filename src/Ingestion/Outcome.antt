-- ===== src/Ingestion/Outcome.antt =====
-- The four ways in which `ingest` ends, and that every run is one of them.
use document_insight.Prelude.{
  ℕ, Option-cases, ◌⊎◌, ◌≡◌, refl, ap, sym, inl, inr, true, false, not, none, some, List, [], ◌∷◌,
  ◌++◌, ==_refl, Bool-cases, keep_if, All,
}
use document_insight.Job.Repository
use document_insight.Store.Versions.{MediaType, pdf, png, jpeg, ObjectKey}
use document_insight.Store.System.{
  Database, pure, System, QueueEntry, StoredObject, Result, ok, err, Action, ◌>>=◌, ◌>>◌,
}
use document_insight.Ingestion.Request.{
  IngestionError, queue_unavailable, object_storage_unavailable, database_error,
  processing_profile_unavailable, IngestDocumentCommand, check_upload,
}
use document_insight.Ingestion.Settings.{IngestionService, IngestionResult}
use document_insight.Ingestion.Service.{ingest, store_metadata, result_of, same_key, publish, put}
use document_insight.Ingestion.Departments.{resolve_departments}
use document_insight.Ingestion.Registration.{
  choose_profile, place, add_rows, register, object_key, original_filename, target_id,
}

module _ (service : IngestionService) (command : IngestDocumentCommand) (s : System) where
  abbrev pub stored_object : MediaType → StoredObject
  stored_object m = record { key = object_key service command m; content = command.content }

  -- the objects with the new original
  abbrev pub with_object : MediaType → List StoredObject
  with_object m =
      keep_if (λ o. not (same_key (object_key service command m) o)) s.objects
      ++ stored_object m ∷ []

  -- What a successful metadata transaction has decided.
  pub record Registered : Type 0 where
    pub media_type : MediaType
    pub departments : List ℕ
    pub profile_id : ℕ
    pub version_number : ℕ
    pub placed : Database
    pub checked : check_upload service.max_upload_bytes command ≡ ok media_type
    pub resolved :
        resolve_departments command.department_ids command.actor s.working command.document_id
        ≡ ok departments
    pub chosen :
        choose_profile service command.actor.tenant_id s.working.active_profiles ≡ some profile_id
    pub places :
        place service command.actor
          (original_filename command.filename media_type)
          departments
          s.working
          command.document_id
        ≡ ok (version_number, placed)

  -- the tables that it commits
  abbrev pub committed : Registered → Database
  committed r =
      add_rows service command r.media_type (original_filename command.filename r.media_type)
        r.profile_id r.version_number r.placed

  -- the state behind it
  abbrev pub registered : Registered → System
  registered r = record s {
    durable = committed r;
    working = committed r;
    in_transaction = false;
    objects = with_object r.media_type;
  }

  -- the queue with the new delivery
  abbrev pub with_delivery : List QueueEntry
  with_delivery =
      s.queue
      ++ record {
        job_id = service.job_id;
        correlation_id = command.correlation_id;
        not_before = none;
      }
        ∷ []

  -- the state behind the delivery
  abbrev pub delivered : Registered → System
  delivered r = record (registered r) { queue = with_delivery }

  -- the state behind the publication
  abbrev pub announced : Registered → System
  announced r =
      let d = record (committed r) {
        jobs = Repository.mark_enqueued service.job_id service.now service.now (committed r).jobs;
      } in
      record (registered r) { durable = d; working = d; queue = with_delivery }

  -- Nothing is stored under the key of the new version yet.
  abbrev pub KeyIsFree : Type 0
  KeyIsFree =
      (m : MediaType) → All (λ o. same_key (object_key service command m) o ≡ false) s.objects

  pub data Outcome : Result IngestionError IngestionResult × System → Type 0 where
    refused :
        (e : IngestionError) (s' : System)
        → (s.durable ≡ s.working → s'.durable ≡ s.durable)
        → (KeyIsFree → service.deletes ≡ true → s'.objects ≡ s.objects)
        → s'.queue ≡ s.queue
        → Outcome (err e, s')
    unannounced : (r : Registered) → Outcome (err queue_unavailable, registered r)
    unmarked : (r : Registered) → Outcome (err database_error, delivered r)
    stored :
        (r : Registered)
        → Outcome (ok (result_of service command r.media_type r.version_number), announced r)

keep_if-unused :
    (key : ObjectKey) (o : StoredObject) (objects : List StoredObject)
    → same_key key o ≡ true
    → All (λ x. same_key key x ≡ false) objects
    → keep_if (λ x. not (same_key key x)) (objects ++ o ∷ []) ≡ objects
keep_if-unused key o [] own h = rw own refl
keep_if-unused key o (x ∷ objects) own h =
    rw h.0 (ap (λ r. x ∷ r) (keep_if-unused key o objects own h.1))

keep_if-free :
    (key : ObjectKey) (objects : List StoredObject)
    → All (λ x. same_key key x ≡ false) objects
    → keep_if (λ x. not (same_key key x)) objects ≡ objects
keep_if-free key [] h = refl
keep_if-free key (x ∷ objects) h = rw h.0 (ap (λ r. x ∷ r) (keep_if-free key objects h.1))

own_key :
    (service : IngestionService) (command : IngestDocumentCommand) (s : System) (m : MediaType)
    → same_key (object_key service command m) (stored_object service command s m) ≡ true
own_key service command s pdf =
    rw
      (
        ==_refl command.actor.tenant_id,
        ==_refl service.version_id,
        ==_refl (target_id service command),
      )
      refl
own_key service command s png =
    rw
      (
        ==_refl command.actor.tenant_id,
        ==_refl service.version_id,
        ==_refl (target_id service command),
      )
      refl
own_key service command s jpeg =
    rw
      (
        ==_refl command.actor.tenant_id,
        ==_refl service.version_id,
        ==_refl (target_id service command),
      )
      refl

-- Taking the new original back leaves the objects as they were.
taken_back :
    (service : IngestionService) (command : IngestDocumentCommand) (s : System) (m : MediaType)
    → KeyIsFree service command s
    → keep_if
        (λ o. not (same_key (object_key service command m) o))
        (with_object service command s m)
      ≡ s.objects
taken_back service command s m free =
    let key = object_key service command m in
    rw (keep_if-free key s.objects (free m)) (
      keep_if-unused key (stored_object service command s m) s.objects (own_key service command s m)
        (free m))

Result-cases : {E A : Type 0} (r : Result E A) → ((e : E) × (r ≡ err e)) ⊎ ((a : A) × (r ≡ ok a))
Result-cases (err e) = inl (e, refl)
Result-cases (ok a) = inr (a, refl)

module _ (service : IngestionService) (command : IngestDocumentCommand) (s : System)
    (idle : s.in_transaction ≡ false) where
  abbrev Ends : Result IngestionError IngestionResult × System → Type 0
  Ends = Outcome service command s

  -- what is left to do with the metadata transaction's result
  abbrev announce : MediaType → ℕ → Action IngestionError IngestionResult
  announce m n = do publish service command; pure (result_of service command m n)

  announce-Ends :
      (r : Registered service command s)
      → Ends (announce r.media_type r.version_number (registered service command s r))
  announce-Ends r = elim (Bool-cases service.enqueues) [
    | inl e ↦ elim (Bool-cases service.marks) [
      | inl marks ↦ simp (e, marks) (stored r)
      | inr lost ↦ simp (e, lost) (unmarked r)
    ]
    | inr e ↦ simp e (unannounced r)
  ]

  -- the state with the original stored
  abbrev uploaded : MediaType → System
  uploaded m = record s {
    durable = s.working;
    in_transaction = false;
    objects = with_object service command s m;
  }

  abbrev after_put : MediaType → List ℕ → Action IngestionError IngestionResult
  after_put m departments = store_metadata service command m departments >>= announce m

  rolled_back-Ends :
      (m : MediaType) (departments : List ℕ) (e : IngestionError)
      → register service command m (original_filename command.filename m) departments s.working
        ≡ err e
      → Ends (after_put m departments (uploaded m))
  unfolding store_metadata
  rolled_back-Ends m departments e failed = elim (Bool-cases service.deletes) [
    | inl deletes ↦
        rw failed
          (rw (deletes, put) (refused e _ sym (λ free _. taken_back service command s m free) refl))
    | inr lost ↦ rw failed (
        rw (lost, put) (refused object_storage_unavailable _ sym (λ free deletes. cc deletes) refl))
  ]

  register-none :
      (m : MediaType) (departments : List ℕ)
      → choose_profile service command.actor.tenant_id s.working.active_profiles ≡ none
      → register service command m (original_filename command.filename m) departments s.working
        ≡ err processing_profile_unavailable
  unfolding register
  register-none m departments missing = rw (missing, register) refl

  register-err :
      (m : MediaType) (departments : List ℕ) (profile_id : ℕ) (e : IngestionError)
      → choose_profile service command.actor.tenant_id s.working.active_profiles ≡ some profile_id
      → place service command.actor
          (original_filename command.filename m)
          departments
          s.working
          command.document_id
        ≡ err e
      → register service command m (original_filename command.filename m) departments s.working
        ≡ err e
  unfolding register
  register-err m departments profile_id e chosen failed = rw (chosen, register) (rw failed refl)

  register-lost :
      (m : MediaType) (departments : List ℕ) (profile_id n : ℕ) (placed : Database)
      → choose_profile service command.actor.tenant_id s.working.active_profiles ≡ some profile_id
      → place service command.actor
          (original_filename command.filename m)
          departments
          s.working
          command.document_id
        ≡ ok (n, placed)
      → service.commits ≡ false
      → register service command m (original_filename command.filename m) departments s.working
        ≡ err database_error
  unfolding register
  register-lost m departments profile_id n placed chosen places lost =
      rw (chosen, register) (rw places (simp lost refl))

  registered-Ends :
      (r : Registered service command s)
      → service.commits ≡ true
      → Ends (after_put r.media_type r.departments (uploaded r.media_type))
  unfolding store_metadata register
  registered-Ends r commits = rw (r.chosen, register) (rw r.places (simp commits (announce-Ends r)))

  after_put-Ends :
      (m : MediaType) (departments : List ℕ)
      → check_upload service.max_upload_bytes command ≡ ok m
      → resolve_departments command.department_ids command.actor s.working command.document_id
        ≡ ok departments
      → Ends (after_put m departments (uploaded m))
  after_put-Ends m departments checked resolved =
      elim (Option-cases
        (choose_profile service command.actor.tenant_id s.working.active_profiles)) [
          | inl missing ↦
              rolled_back-Ends m departments processing_profile_unavailable
                (register-none m departments missing)
          | inr (profile_id, chosen) ↦
              elim (Result-cases (
                place service command.actor (original_filename command.filename m) departments
                  s.working command.document_id)) [
                    | inl (e, failed) ↦
                        rolled_back-Ends m departments e
                          (register-err m departments profile_id e chosen failed)
                    | inr ((n, placed), places) ↦ elim (Bool-cases service.commits) [
                      | inr lost ↦
                          rolled_back-Ends m departments database_error
                            (register-lost m departments profile_id n placed chosen places lost)
                      | inl commits ↦
                          registered-Ends
                            (record {
                              media_type = m;
                              departments = departments;
                              profile_id = profile_id;
                              version_number = n;
                              placed = placed;
                              checked = checked;
                              resolved = resolved;
                              chosen = chosen;
                              places = places;
                            })
                            commits
                    ]
                  ]
        ]

  after_check-Ends :
      (m : MediaType)
      → check_upload service.max_upload_bytes command ≡ ok m
      → Ends (ingest service command s)
  unfolding ingest
  after_check-Ends m checked =
      elim (Result-cases
        (resolve_departments command.department_ids command.actor s.working command.document_id)) [
          | inl (e, failed) ↦ elim (Bool-cases service.reads) [
            | inl reads ↦
                rw (idle, checked, failed, reads) (refused e _ (λ h. refl) (λ free h. refl) refl)
            | inr down ↦
                rw (idle, checked, failed, down)
                  (refused database_error _ (λ h. refl) (λ free h. refl) refl)
          ]
          | inr (departments, resolved) ↦ elim (Bool-cases service.reads) [
            | inr down ↦
                rw (idle, checked, resolved, down)
                  (refused database_error _ (λ h. refl) (λ free h. refl) refl)
            | inl reads ↦ elim (Bool-cases service.puts) [
              | inl puts ↦
                  simp (idle, checked, resolved, reads, puts)
                    (after_put-Ends m departments checked resolved)
              | inr lost ↦
                  simp (idle, checked, resolved, reads, lost)
                    (refused object_storage_unavailable _ sym (λ free h. refl) refl)
            ]
          ]
        ]

  -- Every run ends in one of the four ways.
  pub ingest-Outcome : Outcome service command s (ingest service command s)
  unfolding ingest
  ingest-Outcome = elim (Result-cases (check_upload service.max_upload_bytes command)) [
    | inl (e, failed) ↦ rw failed (refused e s (λ h. refl) (λ free h. refl) refl)
    | inr (m, checked) ↦ after_check-Ends m checked
  ]
