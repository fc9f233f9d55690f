-- ===== src/Store/Versions.antt =====
-- `document_versions` and `SqlAlchemyDocumentVersionRepository` (infrastructure/document_version/).
use Prim.Native.String.{String}
use document_insight.Chunker.Text.{Text}
use mathlib.Core.Option
use document_insight.Prelude.{
  ℕ, ◌+◌, Bool, false, ◌&&◌, Option, none, some, List, [], ◌∷◌, ◌++◌, ◌==◌, max, ltb, leb, ◌||◌,
  not, any, all, keep_if, order_by, first_where, update_where, if◌then◌else◌,
}

pub data MediaType : Type 0 where
  pdf png jpeg : MediaType

pub data VersionStatus : Type 0 where
  stored queued processing ready failed cancelled : VersionStatus

-- `tenants/{tenant}/documents/{document}/versions/{version}/original{suffix}`
pub record ObjectKey : Type 0 where
  pub tenant_id : ℕ
  pub document_id : ℕ
  pub version_id : ℕ
  pub suffix : String

pub record VersionRow : Type 0 where
  pub id : ℕ
  pub document_id : ℕ
  pub tenant_id : ℕ
  pub version_number : ℕ
  pub original_filename : Text
  pub object_key : ObjectKey
  pub media_type : MediaType
  pub size_bytes : ℕ
  pub content_sha256 : ℕ
  pub status : VersionStatus
  pub created_by : ℕ
  pub created_at : ℕ

abbrev pub Versions : Type 0
Versions = List VersionRow

-- `func.max(version_number)` of one document; the numbers begin at 1, so 0 stands for NULL
unfoldable pub max_version_number : ℕ → Versions → ℕ
max_version_number document_id [] = 0
max_version_number document_id (v ∷ versions) =
    let rest = max_version_number document_id versions in
    if v.document_id == document_id then max v.version_number rest else rest

unfoldable pub next_version_number : ℕ → Versions → ℕ
unfolding max_version_number
next_version_number document_id versions = max_version_number document_id versions + 1

unfoldable pub get_document_id : ℕ → ℕ → Versions → Option ℕ
get_document_id version_id tenant_id versions =
    Option.map (λ v. v.document_id)
      (first_where (λ v. (v.id == version_id) && (v.tenant_id == tenant_id)) versions)

pub record CreateDocumentVersion : Type 0 where
  pub document_id : ℕ
  pub document_version_id : ℕ
  pub tenant_id : ℕ
  pub version_number : ℕ
  pub original_filename : Text
  pub object_key : ObjectKey
  pub media_type : MediaType
  pub size_bytes : ℕ
  pub content_sha256 : ℕ
  pub created_by : ℕ

-- The command's status is always its default, `stored`.
abbrev pub version_row : CreateDocumentVersion → ℕ → VersionRow
version_row command now = record {
  id = command.document_version_id;
  document_id = command.document_id;
  tenant_id = command.tenant_id;
  version_number = command.version_number;
  original_filename = command.original_filename;
  object_key = command.object_key;
  media_type = command.media_type;
  size_bytes = command.size_bytes;
  content_sha256 = command.content_sha256;
  status = stored;
  created_by = command.created_by;
  created_at = now;
}

unfoldable pub create : CreateDocumentVersion → ℕ → Versions → Versions
create command now versions = versions ++ version_row command now ∷ []

pub record ActivatableDocumentVersion : Type 0 where
  pub document_id : ℕ
  pub status : VersionStatus

unfoldable pub get_for_activation : ℕ → ℕ → Versions → Option ActivatableDocumentVersion
get_for_activation version_id tenant_id versions =
    Option.map (λ v. record { document_id = v.document_id; status = v.status })
      (first_where (λ v. (v.id == version_id) && (v.tenant_id == tenant_id)) versions)

pub record ProcessingDocumentVersion : Type 0 where
  pub document_version_id : ℕ
  pub tenant_id : ℕ
  pub object_key : ObjectKey
  pub media_type : MediaType

unfoldable pub get_for_processing : ℕ → ℕ → Versions → Option ProcessingDocumentVersion
get_for_processing version_id tenant_id versions =
    Option.map
      (λ v. record {
        document_version_id = v.id;
        tenant_id = v.tenant_id;
        object_key = v.object_key;
        media_type = v.media_type;
      })
      (first_where (λ v. (v.id == version_id) && (v.tenant_id == tenant_id)) versions)

abbrev set_status : VersionStatus → ℕ → Versions → Versions
set_status status version_id =
    update_where (λ v. v.id == version_id) (λ v. record v { status = status })

unfoldable pub mark_processing : ℕ → Versions → Versions
mark_processing = set_status processing

unfoldable pub mark_failed : ℕ → Versions → Versions
mark_failed = set_status failed

unfoldable pub mark_ready : ℕ → Versions → Versions
mark_ready = set_status ready

-- `session.scalar` of two columns is the first one, an id, of which `.document_id` is an
-- `AttributeError`: the `none` here.
unfoldable pub is_newer_than : ℕ → ℕ → Versions → Option Bool
is_newer_than candidate_id current_id versions =
    elim (first_where (λ v. v.id == candidate_id) versions) [
      | none ↦ some false
      | some candidate ↦ elim (first_where (λ v. v.id == current_id) versions) [
        | none ↦ some false
        | some current ↦ none
      ]
    ]

abbrev in_documents : List ℕ → ℕ → VersionRow → Bool
in_documents document_ids tenant_id row =
    any (λ id. id == row.document_id) document_ids && (row.tenant_id == tenant_id)

-- The subquery has the highest number of each of the documents; the join takes the rows with it.
unfoldable pub list_latest_for_document_ids : List ℕ → ℕ → Versions → Versions
unfolding order_by
list_latest_for_document_ids document_ids tenant_id rows =
    order_by (λ row other. leb other.created_at row.created_at)
      (keep_if
        (λ row.
          any
            (λ other.
              (other.document_id == row.document_id)
              && (other.version_number == row.version_number))
            (keep_if (is_latest (keep_if (in_documents document_ids tenant_id) rows))
              (keep_if (in_documents document_ids tenant_id) rows)))
        rows)
  where
    is_latest : Versions → VersionRow → Bool
    is_latest others row =
        all
          (λ other.
            not (other.document_id == row.document_id)
            || leb other.version_number row.version_number)
          others

-- by document, and the latest first
unfoldable pub list_for_document_ids : List ℕ → ℕ → Versions → Versions
unfolding order_by
list_for_document_ids document_ids tenant_id rows =
    order_by
      (λ row other.
        ltb row.document_id other.document_id
        || (row.document_id == other.document_id) && leb other.version_number row.version_number)
      (keep_if (in_documents document_ids tenant_id) rows)
