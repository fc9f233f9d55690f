-- ===== src/Store/Active.antt =====
-- `active_profiles` and `SqlAlchemyActiveProfileRepository` (infrastructure/active_profile/).
use mathlib.Core.Option
use document_insight.Prelude.{
  ℕ, ◌+◌, Bool, true, false, ◌&&◌, Option, none, some, List, [], ◌∷◌, ◌++◌, ◌==◌, first_where,
  update_where,
}

-- `"platform"` or `f"evaluation:{tenant_id}"`
pub data Scope : Type 0 where
  platform : Scope
  evaluation : ℕ → Scope

pub data ProfileKind : Type 0 where
  ingestion query : ProfileKind

unfoldable pub same_scope : Scope → Scope → Bool
same_scope platform platform = true
same_scope (evaluation a) (evaluation b) = a == b
same_scope _ _ = false

abbrev pub same_kind : ProfileKind → ProfileKind → Bool
same_kind ingestion ingestion = true
same_kind query query = true
same_kind _ _ = false

pub record ActiveProfileRow : Type 0 where
  pub scope : Scope
  pub profile_kind : ProfileKind
  pub ingestion_profile_id : Option ℕ
  pub query_profile_id : Option ℕ
  pub revision : ℕ

pub record ActiveProfile : Type 0 where
  pub profile_id : ℕ
  pub revision : ℕ

abbrev pub ActiveProfiles : Type 0
ActiveProfiles = List ActiveProfileRow

abbrev pub at_pointer : Scope → ProfileKind → ActiveProfileRow → Bool
at_pointer scope kind row = same_scope row.scope scope && same_kind row.profile_kind kind

abbrev pub column : ProfileKind → ActiveProfileRow → Option ℕ
column ingestion row = row.ingestion_profile_id
column query row = row.query_profile_id

abbrev scalar : ProfileKind → Option ActiveProfileRow → Option ℕ
scalar kind none = none
scalar kind (some row) = column kind row

unfoldable pub get_ingestion_profile_id : Scope → ActiveProfiles → Option ℕ
unfolding same_scope
get_ingestion_profile_id scope rows =
    scalar ingestion (first_where (at_pointer scope ingestion) rows)

unfoldable pub get_query_profile_id : Scope → ActiveProfiles → Option ℕ
unfolding same_scope
get_query_profile_id scope rows = scalar query (first_where (at_pointer scope query) rows)

abbrev pub pointer : ProfileKind → Option ActiveProfileRow → Option ActiveProfile
pointer kind none = none
pointer kind (some row) =
    Option.map (λ id. record { profile_id = id; revision = row.revision }) (column kind row)

-- `lock` reads the same row `FOR UPDATE`; one transaction runs at a time here.
unfoldable pub get : Scope → ProfileKind → ActiveProfiles → Option ActiveProfile
unfolding same_scope
get scope kind rows = pointer kind (first_where (at_pointer scope kind) rows)

abbrev pub selected : ProfileKind → ℕ → ℕ → ActiveProfileRow → ActiveProfileRow
selected ingestion profile_id revision row = record row {
  ingestion_profile_id = some profile_id;
  revision = revision + 1;
}
selected query profile_id revision row = record row {
  query_profile_id = some profile_id;
  revision = revision + 1;
}

unfoldable pub activate : Scope → ProfileKind → ℕ → ℕ → ActiveProfiles → ActiveProfiles
unfolding same_scope
activate scope kind profile_id revision =
    update_where (λ row. at_pointer scope kind row && (row.revision == revision))
      (selected kind profile_id revision)

-- The scope is an evaluation's, so the source's guard against others never fires.
unfoldable pub create_evaluation_ingestion : ℕ → ℕ → ActiveProfiles → ActiveProfiles
create_evaluation_ingestion tenant_id profile_id rows =
    rows
    ++ record {
      scope = evaluation tenant_id;
      profile_kind = ingestion;
      ingestion_profile_id = some profile_id;
      query_profile_id = none;
      revision = 1;
    }
      ∷ []
