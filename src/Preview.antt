-- ===== src/Preview.antt =====
-- Links to previews: crates/kube/src/preview_url.rs reads and resolves them,
-- crates/api/src/kube_controller/preview_url.rs and crates/db/src/api.rs keep them. A table is the list
-- of its rows in any order, with the unique indices of its migration; a connection to it does not fail.
-- What a row says of dates that nothing reads is left out, as is the description.
pub mod Requests
pub mod Tables
pub mod Links
pub mod Rows
pub mod Calls
pub mod Resolution
pub mod Lines
pub mod Notes
pub mod Heads
pub mod Fields
pub mod Access
pub mod Traced
pub mod Routing
mod Examples
use mathlib.Core.List
use lapdev.Base.{
  ℕ, ◌+◌, ◌-◌, String, Bool, true, false, ◌&&◌, ◌||◌, not, Option, none, some, List, [], ◌∷◌, ltb,
  ◌==◌, nat_key, string_key, option_key, if◌then◌else◌, select, find, any, length, take, drop,
}
use lapdev.Base.Int.{ℤ, pos, negsuc, int_key}
use lapdev.Base.Map.{is_some, unwrap_or}
use lapdev.Base.Text.{append, split, join}
use lapdev.Base.Text.Numerals.{decimal, parse_u16}

abbrev pub Uuid : Type 0
Uuid = ℕ

abbrev pub Time : Type 0
Time = ℕ

pub data Result {ℓ κ} (E : Type ℓ) (A : Type κ) : Type (ℓ ⊔ κ) where
  ok : A → Result E A
  err : E → Result E A

pub data PreviewUrlAccessLevel : Type 0 where
  organization public : PreviewUrlAccessLevel

infixl 5 ◌>>=◌ ◌>>◌
abbrev pub ◌>>=◌ {ℓ κ μ} :
    {E : Type ℓ} {A : Type κ} {B : Type μ} → Result E A → (A → Result E B) → Result E B
ok a >>= f = f a
err e >>= f = err e

abbrev pub ◌>>◌ {ℓ κ} : {E : Type ℓ} {B : Type κ} → Result E (Unit {0}) → Result E B → Result E B
m >> k = m >>= λ _. k

abbrev pub ok_or {ℓ κ} : {E : Type ℓ} {A : Type κ} → E → Option A → Result E A
ok_or e none = err e
ok_or e (some a) = ok a

abbrev pub guard {ℓ} : {E : Type ℓ} → Bool → E → Result E (Unit {0})
guard true e = ok tt
guard false e = err e

abbrev pub access_text : PreviewUrlAccessLevel → String
access_text organization = "Organization"
access_text public = "Public"

unfoldable pub parse_access_level : String → Option PreviewUrlAccessLevel
parse_access_level text =
    if text == "Organization"
    then some organization
    else if text == "Public"
    then some public
    else none

pub record ServicePort : Type 0 where
  pub port : ℤ
  pub name : Option String

pub record Service : Type 0 where
  pub id : Uuid
  pub deleted_at : Option Time
  pub environment_id : Uuid
  pub name : String
  pub ports : List ServicePort

pub record Environment : Type 0 where
  pub id : Uuid
  pub deleted_at : Option Time
  pub organization_id : Uuid
  pub cluster_id : Uuid
  pub namespace : String
  pub base_environment_id : Option Uuid

pub record PreviewUrl : Type 0 where
  pub id : Uuid
  pub deleted_at : Option Time
  pub environment_id : Uuid
  pub service_id : Uuid
  pub name : String
  pub port : ℤ
  pub port_name : Option String
  pub protocol : String
  pub access_level : String
  pub created_by : Uuid
  pub last_accessed_at : Option Time

pub record Db : Type 0 where
  pub preview_urls : List PreviewUrl
  pub environments : List Environment
  pub services : List Service

-- Two rows that the primary key and the unique indices do not allow together.
abbrev pub clash : PreviewUrl → PreviewUrl → Bool
clash a b =
    a.id == b.id
    || (a.deleted_at == b.deleted_at
        && (a.name == b.name
            || (a.environment_id == b.environment_id
                && (a.service_id == b.service_id && a.port == b.port))))

abbrev pub has_id : Uuid → PreviewUrl → Bool
has_id id row = row.id == id

-- Nothing where an index does not allow the row.
unfoldable pub insert_row : PreviewUrl → List PreviewUrl → Option (List PreviewUrl)
insert_row row rows = if any (clash row) rows then none else some (row ∷ rows)

abbrev pub others : Uuid → List PreviewUrl → List PreviewUrl
others id rows = select (λ row. not (has_id id row)) rows

unfoldable pub write_found :
    (PreviewUrl → PreviewUrl) → List PreviewUrl → Option PreviewUrl → Option (List PreviewUrl)
write_found f others none = none
write_found f others (some row) = if any (clash (f row)) others then none else some (f row ∷ others)

-- `ActiveModel::update`: nothing where there is no such row or an index does not allow it.
unfoldable pub update_row :
    Uuid → (PreviewUrl → PreviewUrl) → List PreviewUrl → Option (List PreviewUrl)
unfolding write_found
update_row id f rows = write_found f (others id rows) (find (has_id id) rows)

abbrev pub set_access_level : Option PreviewUrlAccessLevel → PreviewUrl → PreviewUrl
set_access_level none row = row
set_access_level (some level) row = record row { access_level = access_text level }

unfoldable pub update_environment_preview_url :
    Uuid → Option PreviewUrlAccessLevel → List PreviewUrl → Option (List PreviewUrl)
update_environment_preview_url id access_level rows =
    update_row id (set_access_level access_level) rows

abbrev pub set_deleted : Time → PreviewUrl → PreviewUrl
set_deleted now row = record row { deleted_at = some now }

unfoldable pub delete_environment_preview_url :
    Uuid → Time → List PreviewUrl → Option (List PreviewUrl)
delete_environment_preview_url id now rows = update_row id (set_deleted now) rows

abbrev pub set_accessed : Time → PreviewUrl → PreviewUrl
set_accessed now row = record row { last_accessed_at = some now }

unfoldable pub update_preview_url_access : Uuid → Time → List PreviewUrl → Option (List PreviewUrl)
update_preview_url_access id now rows = update_row id (set_accessed now) rows

abbrev pub is_live : Option Time → Bool
is_live deleted_at = not (is_some deleted_at)

abbrev pub has_name : String → PreviewUrl → Bool
has_name name row = row.name == name && is_live row.deleted_at

unfoldable pub find_preview_url_by_name : String → List PreviewUrl → Option PreviewUrl
find_preview_url_by_name name rows = find (has_name name) rows

unfoldable pub get_kube_environment : Uuid → List Environment → Option Environment
get_kube_environment id rows =
    find (λ (row : Environment). row.id == id && is_live row.deleted_at) rows

unfoldable pub get_kube_environment_service_by_id : Uuid → List Service → Option Service
get_kube_environment_service_by_id id rows =
    find (λ (row : Service). row.id == id && is_live row.deleted_at) rows

-- `Display` of an `i32`.
abbrev pub int_text : ℤ → String
int_text (pos n) = decimal n
int_text (negsuc n) = append "-" (decimal (n + 1))

abbrev pub link_name : String → String → String → String
link_name port service random = append port (append "-" (append service (append "-" random)))

pub record CreateRequest : Type 0 where
  pub service_id : Uuid
  pub port : ℤ
  pub port_name : Option String
  pub protocol : Option String
  pub access_level : Option PreviewUrlAccessLevel

pub data CreateError : Type 0 where
  service_missing service_elsewhere port_missing already_exists : CreateError

-- The environment whose services an environment has: its base, or itself.
abbrev pub service_environment : Environment → Uuid
service_environment environment = unwrap_or environment.id environment.base_environment_id

abbrev pub port_matches : CreateRequest → ServicePort → Bool
port_matches request p =
    p.port == request.port && (not (is_some request.port_name) || p.name == request.port_name)

-- The row that is inserted; its id and the random end of its name are given.
abbrev pub new_row : Uuid → String → Uuid → Environment → Service → CreateRequest → PreviewUrl
new_row id random user_id environment service request = record {
  id = id;
  deleted_at = none;
  environment_id = environment.id;
  service_id = request.service_id;
  name = link_name (int_text request.port) service.name random;
  port = request.port;
  port_name = request.port_name;
  protocol = unwrap_or "HTTP" request.protocol;
  access_level = access_text (unwrap_or organization request.access_level);
  created_by = user_id;
  last_accessed_at = none;
}

unfoldable pub create_environment_preview_url :
    Uuid → String → Uuid → Environment → CreateRequest → Db → Result CreateError Db
create_environment_preview_url id random user_id environment request db = do
  service ←
      ok_or service_missing (get_kube_environment_service_by_id request.service_id db.services)
  guard (service.environment_id == service_environment environment) service_elsewhere
  guard (any (port_matches request) service.ports) port_missing
  rows ←
      ok_or already_exists
        (insert_row (new_row id random user_id environment service request) db.preview_urls)
  ok (record db { preview_urls = rows })

pub record PreviewUrlInfo : Type 0 where
  pub service_name : String
  pub port : ℕ
  pub environment_hash : String

pub data PreviewUrlError : Type 0 where
  invalid_format invalid_port environment_not_found service_not_found : PreviewUrlError
  preview_url_not_configured access_denied : PreviewUrlError

abbrev pub first : List String → String
first [] = ""
first (part ∷ _) = part

abbrev pub info_of : List String → ℕ → PreviewUrlInfo
info_of parts port =
    let last = length parts - 1 in
    record {
      service_name = join "-" (take (last - 1) (drop 1 parts));
      port = port;
      environment_hash = first (drop last parts);
    }

abbrev pub parse_parts : List String → Result PreviewUrlError PreviewUrlInfo
parse_parts parts = do
  guard (not (ltb (length parts) 3)) invalid_format
  port ← ok_or invalid_port (parse_u16 (first parts))
  ok (info_of parts port)

-- A link is a port, the name of a service, which may have dashes, and a random end.
unfoldable pub parse_preview_url : String → Result PreviewUrlError PreviewUrlInfo
parse_preview_url subdomain = parse_parts (split 45 subdomain)

pub record PreviewUrlTarget : Type 0 where
  pub cluster_id : Uuid
  pub namespace : String
  pub service_name : String
  pub service_port : ℕ
  pub access_level : PreviewUrlAccessLevel
  pub protocol : String
  pub environment_id : Uuid
  pub organization_id : Uuid
  pub preview_url_id : Uuid

abbrev pub target_of :
    PreviewUrlInfo → PreviewUrl → Environment → Service → PreviewUrlAccessLevel → PreviewUrlTarget
target_of info preview_url environment service access_level = record {
  cluster_id = environment.cluster_id;
  namespace = environment.namespace;
  service_name = service.name;
  service_port = info.port;
  access_level = access_level;
  protocol = preview_url.protocol;
  environment_id = environment.id;
  organization_id = environment.organization_id;
  preview_url_id = preview_url.id;
}

unfoldable pub resolve_preview_url : PreviewUrlInfo → Db → Result PreviewUrlError PreviewUrlTarget
resolve_preview_url info db = do
  let preview_name = link_name (decimal info.port) info.service_name info.environment_hash
  preview_url ←
      ok_or preview_url_not_configured (find_preview_url_by_name preview_name db.preview_urls)
  guard (preview_url.port == pos info.port) preview_url_not_configured
  environment ←
      ok_or environment_not_found (get_kube_environment preview_url.environment_id db.environments)
  service ←
      ok_or service_not_found
        (get_kube_environment_service_by_id preview_url.service_id db.services)
  guard
      (service.environment_id == service_environment environment
        && service.name == info.service_name)
      service_not_found
  access_level ← ok_or access_denied (parse_access_level preview_url.access_level)
  ok (target_of info preview_url environment service access_level)
