-- ===== src/Access.antt =====
-- The authenticated caller (application/auth/models.py) and the set tests on department ids that the
-- services share.
use document_insight.Prelude.{ℕ, Bool, true, false, ◌&&◌, List, [], ◌∷◌, any, all, if◌then◌else◌}
use document_insight.Store.Documents.{contains}

pub data UserRole : Type 0 where
  tenant_admin editor viewer : UserRole

abbrev pub is_viewer : UserRole → Bool
is_viewer viewer = true
is_viewer _ = false

abbrev pub is_editor : UserRole → Bool
is_editor editor = true
is_editor _ = false

abbrev pub is_tenant_admin : UserRole → Bool
is_tenant_admin tenant_admin = true
is_tenant_admin _ = false

pub record AuthorizationContext : Type 0 where
  pub user_id : ℕ
  pub tenant_id : ℕ
  pub department_ids : List ℕ
  pub role : UserRole

-- `set(xs).issubset(ys)`
unfoldable pub is_subset : List ℕ → List ℕ → Bool
unfolding contains
is_subset xs ys = all (contains ys) xs

-- `set(xs) & set(ys)` is not empty
unfoldable pub intersects : List ℕ → List ℕ → Bool
unfolding contains
intersects xs ys = any (contains ys) xs

-- `set(xs) == set(ys)`
unfoldable pub same_set : List ℕ → List ℕ → Bool
unfolding is_subset
same_set xs ys = is_subset xs ys && is_subset ys xs

-- the ids of `xs` that `seen` does not hold, each once
unfoldable pub unique_after : List ℕ → List ℕ → List ℕ
unfolding contains
unique_after seen [] = []
unique_after seen (x ∷ xs) =
    let rest = unique_after (x ∷ seen) xs in
    if contains seen x then unique_after seen xs else x ∷ rest

-- `tuple(dict.fromkeys(xs))`
unfoldable pub unique : List ℕ → List ℕ
unfolding unique_after
unique xs = unique_after [] xs
