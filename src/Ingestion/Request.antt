-- ===== src/Ingestion/Request.antt =====
-- The upload command, its errors, and the checks on it that touch no table
-- (application/ingestion/commands.py, exceptions.py and `_detect_media_type` of service.py).
use Prim.Native.String.{String}
use text.Mathlib.Text.{◌==◌ as str_eq}
use document_insight.Prelude.{
  ℕ, Bool, true, false, ◌&&◌, ◌||◌, not, Option, none, some, List, [], ◌∷◌, ◌++◌, ◌==◌, length, ltb,
  if◌then◌else◌,
}
use document_insight.Chunker.Text.{Text}
use document_insight.Access.{AuthorizationContext, is_viewer}
use document_insight.Store.Versions.{MediaType, pdf, png, jpeg}
use document_insight.Store.System.{Result, ok, err}

-- `database_error` is any exception of the database, `invalid_request` SQLAlchemy's refusal of a
-- second `begin()`.
pub data IngestionError : Type 0 where
  unsupported_document_type empty_document document_too_large document_not_found : IngestionError
  ingestion_forbidden invalid_department_scope object_storage_unavailable : IngestionError
  queue_unavailable processing_profile_unavailable database_error invalid_request : IngestionError

pub record IngestDocumentCommand : Type 0 where
  pub content : List ℕ
  pub filename : Text
  pub declared_content_type : Option String
  pub document_id : Option ℕ
  pub department_ids : List ℕ
  pub actor : AuthorizationContext
  pub correlation_id : ℕ

unfoldable pub startswith : List ℕ → List ℕ → Bool
startswith content [] = true
startswith [] (b ∷ signature) = false
startswith (a ∷ content) (b ∷ signature) = (a == b) && startswith content signature

-- `_SIGNATURES`
abbrev pub signature : MediaType → List ℕ
signature pdf = 37 ∷ 80 ∷ 68 ∷ 70 ∷ 45 ∷ []
signature png = 137 ∷ 80 ∷ 78 ∷ 71 ∷ 13 ∷ 10 ∷ 26 ∷ 10 ∷ []
signature jpeg = 255 ∷ 216 ∷ 255 ∷ []

abbrev pub suffix : MediaType → String
suffix pdf = ".pdf"
suffix png = ".png"
suffix jpeg = ".jpg"

abbrev pub media_type_value : MediaType → String
media_type_value pdf = "application/pdf"
media_type_value png = "image/png"
media_type_value jpeg = "image/jpeg"

unfoldable pub declares : Option String → MediaType → Bool
declares none media_type = true
declares (some declared) media_type =
    str_eq declared "" || str_eq declared (media_type_value media_type)

unfoldable pub detect_from :
    List MediaType → List ℕ → Option String → Result IngestionError MediaType
unfolding startswith declares
detect_from [] content declared = err unsupported_document_type
detect_from (media_type ∷ rest) content declared =
    let later = detect_from rest content declared in
    if startswith content (signature media_type)
    then (if declares declared media_type then ok media_type else err unsupported_document_type)
    else later

-- `_detect_media_type`, in the order of the dict
unfoldable pub detect_media_type : List ℕ → Option String → Result IngestionError MediaType
unfolding detect_from
detect_media_type = detect_from (pdf ∷ png ∷ jpeg ∷ [])

-- the checks of `ingest` before its first transaction
unfoldable pub check_upload : ℕ → IngestDocumentCommand → Result IngestionError MediaType
unfolding detect_media_type
check_upload max_upload_bytes command =
    if is_viewer command.actor.role
    then err ingestion_forbidden
    else if length command.content == 0
    then err empty_document
    else if ltb max_upload_bytes (length command.content)
    then err document_too_large
    else detect_media_type command.content command.declared_content_type

-- a path's components that are neither empty nor "."
abbrev named : Text → Bool
named [] = false
named (c ∷ []) = not (c == 46)
named _ = true

-- `Path(filename).name`: the last component that counts, after `current`, and before it `last`
unfoldable pub last_component : Text → Text → Text → Text
last_component last current [] = if named current then current else last
last_component last current (c ∷ filename) =
    let ended = last_component (if named current then current else last) [] filename in
    let longer = last_component last (current ++ c ∷ []) filename in
    if c == 47 then ended else longer

unfoldable pub base_name : Text → Text
unfolding last_component
base_name filename = last_component [] [] filename
