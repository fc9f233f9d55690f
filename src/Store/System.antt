-- ===== src/Store/System.antt =====
-- The state of the system: the database, the Redis queue and the object store, and the actions of
-- one SQLAlchemy session over it (infrastructure/database/transaction.py), which return or raise.
use document_insight.Prelude.{ℕ, Bool, true, false, Option, List, if◌then◌else◌}
use document_insight.Job.Model.{Jobs}
use document_insight.Configuration.Profiles.{Profiles}
use document_insight.Store.Versions.{Versions, ObjectKey}
use document_insight.Store.Extracted.{Extracted}
use document_insight.Store.Generations.{Generations}
use document_insight.Store.Active.{ActiveProfiles}
use document_insight.Store.Chunks.{ChunkRow, EmbeddingRow}
use document_insight.Store.Entities.{EntityRow}
use document_insight.Store.Documents.{DocumentRow, DepartmentRow, AssignmentRow}

-- one delivery that waits in RQ; `not_before` is the schedule of a retry
pub record QueueEntry : Type 0 where
  pub job_id : ℕ
  pub correlation_id : ℕ
  pub not_before : Option ℕ

pub record StoredObject : Type 0 where
  pub key : ObjectKey
  pub content : List ℕ

pub record Database : Type 0 where
  pub documents : List DocumentRow
  pub departments : List DepartmentRow
  pub assignments : List AssignmentRow
  pub versions : Versions
  pub jobs : Jobs
  pub extracted : Extracted
  pub entities : List EntityRow
  pub generations : Generations
  pub chunks : List ChunkRow
  pub embeddings : List EmbeddingRow
  pub profiles : Profiles
  pub active_profiles : ActiveProfiles

-- `durable` is what PostgreSQL keeps; `working` is what the one session of a request or of a worker
-- run sees, with the writes that are not committed yet.
pub record System : Type 0 where
  pub durable : Database
  pub working : Database
  pub in_transaction : Bool
  pub queue : List QueueEntry
  pub objects : List StoredObject

pub data Result (E A : Type 0) : Type 0 where
  ok : A → Result E A
  err : E → Result E A

abbrev pub Action : Type 0 → Type 0 → Type 0
Action E A = System → Result E A × System

module _ {E A : Type 0} where
  abbrev pub pure : A → Action E A
  pure a s = (ok a, s)

  abbrev pub raise : E → Action E A
  raise e s = (err e, s)

  -- A statement outside `begin()` opens a transaction by itself (SQLAlchemy's autobegin).
  abbrev pub query : (Database → A) → Action E A
  query f s = (ok (f s.working), record s { in_transaction = true })

  -- what an external call gives: a value or an exception
  abbrev pub outcome : Result E A → Action E A
  outcome r s = (r, s)

  abbrev pub handle : Result E A × System → (E → Action E A) → Result E A × System
  handle (ok a, s) h = (ok a, s)
  handle (err e, s) h = h e s

  -- `try: … except`
  abbrev pub try_catch : Action E A → (E → Action E A) → Action E A
  try_catch m h s = handle (m s) h

  -- the end of a `begin()` block: commit, or roll back and raise
  abbrev pub end_block : Result E A × System → Result E A × System
  end_block (ok a, s) = (ok a, record s { durable = s.working; in_transaction = false })
  end_block (err e, s) = (err e, record s { working = s.durable; in_transaction = false })

  -- `async with transactions.begin()`, which refuses (with `busy`) a session that is in a
  -- transaction already
  abbrev pub atomically : E → Action E A → Action E A
  atomically busy m s =
      if s.in_transaction then (err busy, s) else end_block (m (record s { in_transaction = true }))

abbrev pub execute : {E : Type 0} → (Database → Database) → Action E (Unit {0})
execute f s = (ok tt, record s { working = f s.working; in_transaction = true })

-- what no transaction covers: the queue and the object store
abbrev pub effect : {E : Type 0} → (System → System) → Action E (Unit {0})
effect f s = (ok tt, f s)

-- the end of `async with session`: what was not committed is rolled back
abbrev pub close_session : System → System
close_session s = record s { working = s.durable; in_transaction = false }

abbrev pub bind_result :
    {E A B : Type 0} → Result E A × System → (A → Action E B) → Result E B × System
bind_result (ok a, s) f = f a s
bind_result (err e, s) f = (err e, s)

infixl 5 ◌>>=◌ ◌>>◌
abbrev pub ◌>>=◌ : {E A B : Type 0} → Action E A → (A → Action E B) → Action E B
◌>>=◌ m f s = bind_result (m s) f

abbrev pub ◌>>◌ : {E A B : Type 0} → Action E A → Action E B → Action E B
m >> k = m >>= λ _. k

-- what a block's reads and writes come to: a value and the new tables, or an exception
abbrev pub settle : {E A : Type 0} → Result E (A × Database) → Action E A
settle (err e) s = (err e, record s { in_transaction = true })
settle (ok (a, d)) s = (ok a, record s { working = d; in_transaction = true })

-- a `begin()` block around a function of the tables
abbrev pub transact : {E A : Type 0} → E → (Database → Result E (A × Database)) → Action E A
transact busy f = atomically busy (λ s. settle (f s.working) s)
