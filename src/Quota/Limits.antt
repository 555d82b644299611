-- ===== src/Quota/Limits.antt =====
-- crates/enterprise/src/quota.rs: which limit applies, and when a request is refused.
use lapdev.Base.{
  true, option_same_iff, ℕ, ◌≡◌, refl, ap, ◌∙◌, Bool, ◌&&◌, ◌||◌, not, Option, none, some, List, [],
  ◌∷◌, arith, ltb, ◌==◌, nat_key, option_key, if◌then◌else◌, select, nat_eq_iff, Bool-cases, inl,
  inr,
}
use lapdev.Quota.{
  Uuid, user_level, organization_level, QuotaKind, QuotaRow, QuotaValue, default_user, is_selected,
  kind_name, positive, set_values, set_default, quota_value, do_check, check,
}

-- The last positive quota among the rows of an owner, or a given value.
abbrev pub last_quota : Option Uuid → List QuotaRow → ℕ → ℕ
last_quota owner [] default = default
last_quota owner (row ∷ rows) default =
    last_quota owner rows
      (if row.user == owner && ltb 0 (positive row.value) then positive row.value else default)

set_values-last :
    (user : Uuid) (rows : List QuotaRow) (value : QuotaValue)
    → ((set_values user rows value).user ≡ last_quota (some user) rows value.user)
      × ((set_values user rows value).organization ≡ last_quota none rows value.organization)
unfolding set_values
set_values-last user [] value = (refl, refl)
set_values-last user (row ∷ rows) value =
    let next : QuotaValue =
      (if row.user == none && ltb 0 (positive row.value)
        then record value { organization = positive row.value }
        else (if row.user == some user && ltb 0 (positive row.value)
            then record value { user = positive row.value }
            else value)) in
    let (own, all) = set_values-last user rows next in
    (
      own ∙ ap (λ n. last_quota (some user) rows n) (ground arith),
      all ∙ ap (λ n. last_quota none rows n) (ground arith),
    )

set_default-last :
    (rows : List QuotaRow) (value : QuotaValue)
    → ((set_default rows value).user ≡ last_quota (some default_user) rows value.user)
      × ((set_default rows value).organization ≡ value.organization)
unfolding set_default
set_default-last [] value = (refl, refl)
set_default-last (row ∷ rows) value =
    let next : QuotaValue =
      (if row.user == some default_user && ltb 0 (positive row.value)
        then record value { user = positive row.value }
        else value) in
    let (own, all) = set_default-last rows next in
    (own ∙ ap (λ n. last_quota (some default_user) rows n) (ground arith), all ∙ ground arith)

set_values-kind :
    (user : Uuid) (rows : List QuotaRow) (value : QuotaValue)
    → (set_values user rows value).kind ≡ value.kind
unfolding set_values
set_values-kind user [] value = refl
set_values-kind user (row ∷ rows) value = set_values-kind user rows _ ∙ ground arith

set_default-kind :
    (rows : List QuotaRow) (value : QuotaValue) → (set_default rows value).kind ≡ value.kind
unfolding set_default
set_default-kind [] value = refl
set_default-kind (row ∷ rows) value = set_default-kind rows _ ∙ ground arith

-- The limits that apply by the rows of a query, zero for none: the organization's is its last positive
-- one; the user's is the last positive one of the user or, without it, of the default user.
abbrev selected_user_limit : Uuid → List QuotaRow → ℕ
selected_user_limit owner rows =
    let own = last_quota (some owner) rows 0 in
    if own == 0 then last_quota (some default_user) rows 0 else own

abbrev selected_organization_limit : List QuotaRow → ℕ
selected_organization_limit rows = last_quota none rows 0

quota_value-limits :
    (kind : QuotaKind) (organization owner : Uuid) (table : List QuotaRow)
    → let rows = select (is_selected kind organization owner) table in
      ((quota_value kind organization owner table).user ≡ selected_user_limit owner rows)
      × ((quota_value kind organization owner table).organization
          ≡ selected_organization_limit rows)
      × ((quota_value kind organization owner table).kind ≡ kind)
unfolding quota_value
quota_value-limits kind organization owner table =
    let rows = select (is_selected kind organization owner) table in
    let start : QuotaValue = record { kind = kind; user = 0; organization = 0 } in
    let value = set_values owner rows start in
    let first = set_values-last owner rows start in
    let second = set_default-last rows value in
    elim (Bool-cases (value.user == 0)) [
      | inl missing ↦
          let zero_user : value.user ≡ 0 = (nat_eq_iff value.user 0).0 missing in
          let default = ap (λ n. last_quota (some default_user) rows n) zero_user in
          rw (missing, quota_value)
            (
              ground (arith, first.0, second.0, default),
              ground (arith, first.1, second.1),
              set_default-kind rows value ∙ set_values-kind owner rows start,
            )
      | inr there ↦
          rw (there, quota_value)
            (ground (arith, first.0), first.1, set_values-kind owner rows start)
    ]

-- Whether a row is a limit of this kind for an owner, of a user or, with none, of the organization.
abbrev pub is_limit : QuotaKind → Uuid → Option Uuid → QuotaRow → Bool
is_limit kind organization owner row =
    not row.deleted
    && row.organization == organization
    && kind_name row.kind == kind_name kind
    && row.user == owner

-- The last positive limit of an owner in the whole table, or a given value.
abbrev pub last_limit : QuotaKind → Uuid → Option Uuid → List QuotaRow → ℕ → ℕ
last_limit kind organization owner [] default = default
last_limit kind organization owner (row ∷ rows) default = last_limit kind organization owner rows (
    if is_limit kind organization owner row && ltb 0 (positive row.value)
    then positive row.value
    else default)

is_limit-selected :
    (kind : QuotaKind) (organization user : Uuid) (owner : Option Uuid) (row : QuotaRow)
    → (owner == none || owner == some user || owner == some default_user) ≡ true
    → is_limit kind organization owner row
      ≡ (is_selected kind organization user row && row.user == owner)
is_limit-selected kind organization user owner row asked = elim (Bool-cases (row.user == owner)) [
  | inl same ↦
      let this : row.user ≡ owner = (option_same_iff row.user owner).0 same in
      let asks : (row.user == none || row.user == some user || row.user == some default_user)
          ≡ true =
        rw this asked in
      ground (arith, same, asks)
  | inr other ↦ ground (arith, other)
]

last_quota-selected :
    (kind : QuotaKind) (organization user : Uuid) (owner : Option Uuid) (table : List QuotaRow)
    (default : ℕ)
    → (owner == none || owner == some user || owner == some default_user) ≡ true
    → last_quota owner (select (is_selected kind organization user) table) default
      ≡ last_limit kind organization owner table default
last_quota-selected kind organization user owner [] default asked = refl
last_quota-selected kind organization user owner (row ∷ rows) default asked =
    elim (Bool-cases (is_selected kind organization user row)) [
      | inl selected ↦
          let here = is_limit-selected kind organization user owner row asked in
          rw selected (
            last_quota-selected kind organization user owner rows _ asked
            ∙ ap (last_limit kind organization owner rows) (ground (arith, here, selected)))
      | inr left_out ↦
          let here = is_limit-selected kind organization user owner row asked in
          rw left_out (
            last_quota-selected kind organization user owner rows default asked
            ∙ ap (last_limit kind organization owner rows) (ground (arith, here, left_out)))
    ]

-- The limits that apply, zero for none: the organization's is its last positive one; the user's is the last
-- positive one of the user or, without it, of the default user.
abbrev pub user_limit : QuotaKind → Uuid → Uuid → List QuotaRow → ℕ
user_limit kind organization owner table =
    let own = last_limit kind organization (some owner) table 0 in
    if own == 0 then last_limit kind organization (some default_user) table 0 else own

abbrev pub organization_limit : QuotaKind → Uuid → List QuotaRow → ℕ
organization_limit kind organization table = last_limit kind organization none table 0

selected_user_limit-user_limit :
    (kind : QuotaKind) (organization owner : Uuid) (table : List QuotaRow)
    → selected_user_limit owner (select (is_selected kind organization owner) table)
      ≡ user_limit kind organization owner table
selected_user_limit-user_limit kind organization owner table =
    let own =
      last_quota-selected kind organization owner (some owner) table 0
        (ground (arith, nat_eq_iff owner owner)) in
    let default =
      last_quota-selected kind organization owner (some default_user) table 0 (ground arith) in
    rw (own, default) refl

abbrev within : ℕ → ℕ → Bool
within limit existing = limit == 0 || ltb existing limit

-- A request is refused exactly if as much exists already as the user's limit or the organization's limit
-- of its kind allows, where such a limit is set; and by the user's limit if both are reached. The limits
-- are those of the rows of the table that are not deleted, of the organization and of the kind: the
-- organization's is the last positive one without a user, the user's is the last positive one of the
-- user or, without it, of the default user.
pub check-refuses :
    (kind : QuotaKind) (organization owner : Uuid) (table : List QuotaRow) (mine all : ℕ)
    → check kind organization owner table mine all ≡ (
        if not (within (user_limit kind organization owner table) mine)
        then some (record {
          kind = kind;
          level = user_level;
          existing = mine;
          quota = user_limit kind organization owner table;
        })
        else (if not (within (organization_limit kind organization table) all)
            then some (record {
              kind = kind;
              level = organization_level;
              existing = all;
              quota = organization_limit kind organization table;
            })
            else none))
unfolding check do_check
check-refuses kind organization owner table mine all =
    let (user, org, same) = quota_value-limits kind organization owner table in
    let of_user = user ∙ selected_user_limit-user_limit kind organization owner table in
    let of_all = org ∙ last_quota-selected kind organization owner none table 0 refl in
    ground (arith, of_user, of_all, same)
