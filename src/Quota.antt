-- ===== src/Quota.antt =====
-- crates/enterprise/src/quota.rs: the quota of a user and an organization, and whether it is used up.
-- The table of quotas is the list of its rows; what exists of a resource is counted by the database
-- and is a parameter.
pub mod Limits
mod Examples
use lapdev.Base.{
  ℕ, Bool, true, false, ◌&&◌, ◌||◌, not, Option, none, some, List, [], ◌∷◌, ltb, leb, ◌==◌, nat_key,
  option_key, if◌then◌else◌, select,
}
use lapdev.Base.Int.{ℤ, pos, negsuc}

abbrev pub Uuid : Type 0
Uuid = ℕ

pub data QuotaKind : Type 0 where
  workspace : QuotaKind
  running_workspace : QuotaKind
  project : QuotaKind
  daily_cost : QuotaKind
  monthly_cost : QuotaKind

pub data QuotaLevel : Type 0 where
  user_level : QuotaLevel
  organization_level : QuotaLevel

-- A row of the table.
pub record QuotaRow : Type 0 where
  pub deleted : Bool
  pub organization : Uuid
  pub kind : QuotaKind
  pub user : Option Uuid
  pub value : ℤ

pub record QuotaValue : Type 0 where
  pub kind : QuotaKind
  pub user : ℕ
  pub organization : ℕ

pub record QuotaResult : Type 0 where
  pub kind : QuotaKind
  pub level : QuotaLevel
  pub existing : ℕ
  pub quota : ℕ

abbrev pub default_user : Uuid
default_user = 0

abbrev pub kind_name : QuotaKind → ℕ
kind_name workspace = 0
kind_name running_workspace = 1
kind_name project = 2
kind_name daily_cost = 3
kind_name monthly_cost = 4

-- The rows that the query selects.
abbrev pub is_selected : QuotaKind → Uuid → Uuid → QuotaRow → Bool
is_selected kind organization user row =
    not row.deleted
    && row.organization == organization
    && kind_name row.kind == kind_name kind
    && (row.user == none || row.user == some user || row.user == some default_user)

-- `value as usize` of a positive value, and 0 of another one.
abbrev pub positive : ℤ → ℕ
positive (pos n) = n
positive (negsuc n) = 0

-- The first pass over the rows.
unfoldable pub set_values : Uuid → List QuotaRow → QuotaValue → QuotaValue
set_values user [] value = value
set_values user (row ∷ rows) value = set_values user rows (
    if row.user == none && ltb 0 (positive row.value)
    then record value { organization = positive row.value }
    else (if row.user == some user && ltb 0 (positive row.value)
        then record value { user = positive row.value }
        else value))

-- The pass for the default user.
unfoldable pub set_default : List QuotaRow → QuotaValue → QuotaValue
set_default [] value = value
set_default (row ∷ rows) value = set_default rows (
    if row.user == some default_user && ltb 0 (positive row.value)
    then record value { user = positive row.value }
    else value)

unfoldable pub quota_value : QuotaKind → Uuid → Uuid → List QuotaRow → QuotaValue
quota_value kind organization user table =
    let quotas = select (is_selected kind organization user) table in
    let value = set_values user quotas (record { kind = kind; user = 0; organization = 0 }) in
    if value.user == 0 then set_default quotas value else value

-- `user_existing` and `organization_existing` are what `get_user_existing` and
-- `get_organization_existing` count.
unfoldable pub do_check :
    QuotaValue → (user_existing organization_existing : ℕ) → Option QuotaResult
do_check quota user_existing organization_existing =
    if ltb 0 quota.user && leb quota.user user_existing
    then some (record {
      kind = quota.kind;
      level = user_level;
      existing = user_existing;
      quota = quota.user;
    })
    else (if ltb 0 quota.organization && leb quota.organization organization_existing
        then some (record {
          kind = quota.kind;
          level = organization_level;
          existing = organization_existing;
          quota = quota.organization;
        })
        else none)

unfoldable pub check : QuotaKind → Uuid → Uuid → List QuotaRow → ℕ → ℕ → Option QuotaResult
check kind organization user table user_existing organization_existing =
    do_check (quota_value kind organization user table) user_existing organization_existing
