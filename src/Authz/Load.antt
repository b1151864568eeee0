-- ===== src/Authz/Load.antt =====
-- policyFileAdapter.LoadPolicy and LoadPolicy of authorizer.go. Reading the file as rows of
-- comma-separated fields and casbin's storing of the rows are parameters.
use vaultsmith.Base.{
  ℕ, Bool, true, false, not, ◌||◌, ◌&&◌, List, [], ◌∷◌, ◌++◌, codes, Bytes, bytes_eq, has_prefix,
  is_empty, if◌then◌else◌, Option, none, some, Result, ok, err, ◌>>=◌, ◌>>◌, guard, or_err,
}
use vaultsmith.Text.Space.{trim_space}
use vaultsmith.Authz.Policy.{Rule, Policy}
use vaultsmith.Authz.Enforce.{AuthzError, policy_unavailable}
use vaultsmith.Authz.Validate.{validate_policy}

abbrev pub Row : Type 0
Row = List Bytes

-- `strings.Join(row, ",")`
row_key : Row → Bytes
row_key [] = []
row_key (field ∷ []) = field
row_key (field ∷ next ∷ rest) = field ++ (b',' ∷ row_key (next ∷ rest))

-- `slices.Equal`
row_eq : Row → Row → Bool
row_eq [] [] = true
row_eq (x ∷ xs) (y ∷ ys) = bytes_eq x y && row_eq xs ys
row_eq _ _ = false

seen_row : Bytes → List (Bytes × Row) → Option Row
seen_row key [] = none
seen_row key ((k, row) ∷ rest) = if bytes_eq k key then some row else seen_row key rest

-- Whether the first field is `p` or `g`, and whether it is `p`.
is_permission : Row → Bool
is_permission [] = false
is_permission (kind ∷ _) = bytes_eq kind (codes "p")

is_grouping : Row → Bool
is_grouping [] = false
is_grouping (kind ∷ _) = bytes_eq kind (codes "g")

-- The loop over the rows of the file: a repeated key is refused, but for an identical grouping row.
unfoldable pub check_rows : List (Bytes × Row) → List Row → Bool
unfolding row_key row_eq seen_row is_permission is_grouping
check_rows seen [] = true
check_rows seen (row ∷ rows) =
    let key = row_key row in
    let rest = check_rows ((key, row) ∷ seen) rows in
    let clash : Bool = elim (seen_row key seen) [
      | none ↦ false
      | some previous ↦ is_permission row || not (row_eq previous row)
    ] in
    (is_permission row || is_grouping row) && not clash && rest

-- A permission row has four fields.
unfoldable pub read_rules : List Row → Option (List Rule)
read_rules [] = some []
read_rules ((subject ∷ object ∷ action ∷ effect ∷ []) ∷ rows) = elim (read_rules rows) [
  | none ↦ none
  | some rules ↦
      some (record { subject = subject; object = object; action = action; effect = effect } ∷ rules)
]
read_rules (_ ∷ rows) = none

-- `policy.groupRoles[group] = append(policy.groupRoles[group], role)`
unfoldable pub append_role : Bytes → Bytes → List (Bytes × List Bytes) → List (Bytes × List Bytes)
append_role group role [] = (group, role ∷ []) ∷ []
append_role group role ((name, roles) ∷ rest) =
    if bytes_eq name group
    then (name, roles ++ (role ∷ [])) ∷ rest
    else (name, roles) ∷ append_role group role rest

-- `_, exists := policy.parents[role]`
unfoldable pub has_parent : Bytes → List (Bytes × Bytes) → Bool
has_parent role [] = false
has_parent role ((child, parent) ∷ rest) = bytes_eq child role || has_parent role rest

-- One grouping row of two fields.
unfoldable pub read_grouping : Policy → Bytes → Bytes → Result AuthzError Policy
read_grouping policy name role =
    if has_prefix (codes "group:") name && has_prefix (codes "role:") role
    then ok (record policy { group_roles = append_role name role policy.group_roles })
    else if has_prefix (codes "role:") name && has_prefix (codes "role:") role
    then if has_parent name policy.parents
      then err policy_unavailable
      else ok (record policy { parents = (name, role) ∷ policy.parents })
    else err policy_unavailable

unfoldable pub read_groupings : Policy → List Row → Result AuthzError Policy
read_groupings policy [] = ok policy
read_groupings policy ((name ∷ role ∷ []) ∷ rows) = do
  next ← read_grouping policy name role
  read_groupings next rows
read_groupings policy (_ ∷ rows) = err policy_unavailable

pub record Snapshot : Type 0 where
  pub policy : Policy
  pub path : Bytes
  pub profile_ids : List Bytes
  pub mod_time : ℕ
  pub size : ℕ

-- The file system and the libraries: the time and size of the file, its rows, and the permission
-- and grouping rows that casbin stores.
pub record World : Type 0 where
  pub stat : Bytes → Option (ℕ × ℕ)
  pub read_rows : Bytes → Option (List Row)
  pub store_rows : List Row → Option (List Row × List Row)

unfoldable pub load_policy : World → Bytes → List Bytes → Result AuthzError Snapshot
load_policy world path profile_ids = do
  guard (not (is_empty (trim_space path))) policy_unavailable
  (mod_time, size) ← or_err (world.stat path) policy_unavailable
  rows ← or_err (world.read_rows path) policy_unavailable
  guard (check_rows [] rows) policy_unavailable
  (permissions, groupings) ← or_err (world.store_rows rows) policy_unavailable
  rules ← or_err (read_rules permissions) policy_unavailable
  policy ← read_groupings (record { rules = rules; group_roles = []; parents = [] }) groupings
  guard (validate_policy policy profile_ids) policy_unavailable
  ok (record {
    policy = policy;
    path = path;
    profile_ids = profile_ids;
    mod_time = mod_time;
    size = size;
  })
