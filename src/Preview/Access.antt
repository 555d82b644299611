-- ===== src/Preview/Access.antt =====
-- crates/kube/src/http_proxy.rs: who gets through to a preview.
use lapdev.Base.{
  ◌≡◌, refl, sym, ap, ◌∙◌, String, Bool, true, false, ◌⊎◌, inl, inr, Option, none, some, List,
  nat_key, pair_key, contains,
}
use lapdev.Base.Int.{int_key}
use lapdev.Sidecar.Headers.{Header}
use lapdev.Preview.{
  Uuid, Time, Result, ok, err, ok_or, guard, ◌>>=◌, ◌>>◌, PreviewUrlAccessLevel, organization,
  public, parse_access_level, Environment, PreviewUrl, Db, find_preview_url_by_name,
  get_kube_environment, get_kube_environment_service_by_id, PreviewUrlInfo, PreviewUrlTarget,
  parse_preview_url, resolve_preview_url, link_name, first,
}
use mathlib.Core.Path.{subst}
use lapdev.Base.Text.{split}
use lapdev.Base.Text.Numerals.{decimal}
use lapdev.Preview.Requests.{
  error_of_parse, error_of_resolve, ProxyError, get_host_header, map_err,
  resolve_preview_url_target, extract_cookie_value, authorize_organization, authorize_request,
  closed, page, forwarded, answer, forward, for_host, handle_client_connection,
}

-- The row and the environment behind a target.
pub record IsBehind (target : PreviewUrlTarget) (db : Db) : Type 0 where
  pub name : String
  pub row : PreviewUrl
  pub environment : Environment
  pub found : find_preview_url_by_name name db.preview_urls ≡ some row
  pub environment_found : get_kube_environment row.environment_id db.environments ≡ some environment
  pub same_organization : target.organization_id ≡ environment.organization_id
  pub same_environment : target.environment_id ≡ environment.id
  pub level : parse_access_level row.access_level ≡ some target.access_level

module _ {ℓ κ μ} {E : Type ℓ} {A : Type κ} {B : Type μ} where
  bind_ok_or :
      (e : E) (o : Option A) (f : A → Result E B) {b : B}
      → (ok_or e o >>= f) ≡ ok b
      → (a : A) × (o ≡ some a) × (f a ≡ ok b)
  bind_ok_or e none f h = cc
  bind_ok_or e (some a) f h = (a, refl, h)

bind_guard {ℓ κ} :
    {E : Type ℓ} {B : Type κ} (b : Bool) (e : E) (m : Result E B) {c : B}
    → (guard b e >> m) ≡ ok c
    → (b ≡ true) × (m ≡ ok c)
bind_guard true e m h = (refl, h)
bind_guard false e m h = cc

bind_map_err {ℓ κ μ ν} :
    {E : Type ℓ} {F : Type κ} {A : Type μ} {B : Type ν} (g : E → F) (r : Result E A)
    (f : A → Result F B) {b : B}
    → (map_err g r >>= f) ≡ ok b
    → (a : A) × (r ≡ ok a) × (f a ≡ ok b)
bind_map_err g (err e) f h = cc
bind_map_err g (ok a) f h = (a, refl, h)

ok_same {ℓ κ} : {E : Type ℓ} {A : Type κ} {a b : A} → Path (Result E A) (ok a) (ok b) → a ≡ b
ok_same h = cc

guard-ok {ℓ} : {E : Type ℓ} (b : Bool) (e : E) {u : Unit {0}} → guard b e ≡ ok u → b ≡ true
guard-ok true e h = refl
guard-ok false e h = cc

resolve-IsBehind :
    (info : PreviewUrlInfo) (db : Db) {target : PreviewUrlTarget}
    → resolve_preview_url info db ≡ ok target
    → IsBehind target db
unfolding resolve_preview_url
resolve-IsBehind info db {target} h =
    let (row, found, h₁) = bind_ok_or _ (find_preview_url_by_name _ db.preview_urls) _ h in
    let (_, h₂) = bind_guard _ _ _ h₁ in
    let (environment, environment_found, h₃) =
      bind_ok_or _ (get_kube_environment row.environment_id db.environments) _ h₂ in
    let (service, _, h₄) =
      bind_ok_or _ (get_kube_environment_service_by_id row.service_id db.services) _ h₃ in
    let (_, h₅) = bind_guard _ _ _ h₄ in
    let (level, level_is, h₆) = bind_ok_or _ (parse_access_level row.access_level) _ h₅ in
    let made = ok_same h₆ in
    record {
      name = link_name (decimal info.port) info.service_name info.environment_hash;
      row = row;
      environment = environment;
      found = found;
      environment_found = environment_found;
      same_organization = ap (λ (t : PreviewUrlTarget). t.organization_id) (sym made);
      same_environment = ap (λ (t : PreviewUrlTarget). t.environment_id) (sym made);
      level = level_is ∙ ap (λ (t : PreviewUrlTarget). some t.access_level) made;
    }

resolve_target-IsBehind :
    (now : Time) (subdomain : String) (db : Db) {target : PreviewUrlTarget} {after : Db}
    → resolve_preview_url_target now subdomain db ≡ ok (target, after)
    → IsBehind target db
unfolding resolve_preview_url_target
resolve_target-IsBehind now subdomain db h =
    let (info, parsed, h₁) = bind_map_err error_of_parse (parse_preview_url subdomain) _ h in
    let (found, resolved, h₂) = bind_map_err error_of_resolve (resolve_preview_url info db) _ h₁ in
    resolve-IsBehind info db
      (resolved ∙ ap ok (ap (λ (p : PreviewUrlTarget × Db). p.0) (ok_same h₂)))

closed_ne_forwarded :
    {target : PreviewUrlTarget} {bytes : String} → closed ≡ forwarded target bytes → ⊥
closed_ne_forwarded h = cc

page_ne_forwarded :
    {e : ProxyError} {target : PreviewUrlTarget} {bytes : String}
    → page e ≡ forwarded target bytes
    → ⊥
page_ne_forwarded h = cc

target_same : {s t : PreviewUrlTarget} {a b : String} → forwarded s a ≡ forwarded t b → s ≡ t
target_same h = cc

module _ (user_id_from_token : String → Option Uuid) (members : List (Uuid × Uuid)) where
  -- Everybody may see a public preview, and a member of its organization, with the token of a cookie.
  abbrev pub MaySee : List Header → PreviewUrlTarget → Type 0
  MaySee headers target =
      (target.access_level ≡ public)
      ⊎ ((token : String) × (user_id : Uuid) × (extract_cookie_value headers "lapdev_auth_token"
            ≡ some token)
          × (user_id_from_token token ≡ some user_id)
          × (contains (user_id, target.organization_id) members ≡ true))

  authorize_organization-member :
      (headers : List Header) (organization_id : Uuid) {u : Unit {0}}
      → authorize_organization user_id_from_token members headers organization_id ≡ ok u
      → (token : String) × (user_id : Uuid) × (extract_cookie_value headers "lapdev_auth_token"
          ≡ some token)
        × (user_id_from_token token ≡ some user_id)
        × (contains (user_id, organization_id) members ≡ true)
  unfolding authorize_organization
  authorize_organization-member headers organization_id h =
      let (token, has_token, h₁) =
        bind_ok_or _ (extract_cookie_value headers "lapdev_auth_token") _ h in
      let (user_id, has_user, h₂) = bind_ok_or _ (user_id_from_token token) _ h₁ in
      (
        token,
        user_id,
        has_token,
        has_user,
        guard-ok (contains (user_id, organization_id) members) _ h₂,
      )

  by_level :
      (headers : List Header) (organization_id : Uuid) (level : PreviewUrlAccessLevel)
      → (u : Unit {0}) × ((elim level [
        | public ↦ ok tt
        | organization ↦ authorize_organization user_id_from_token members headers organization_id
      ])
          ≡ ok u)
      → (level ≡ public)
        ⊎ ((token : String) × (user_id : Uuid) × (extract_cookie_value headers "lapdev_auth_token"
              ≡ some token)
            × (user_id_from_token token ≡ some user_id)
            × (contains (user_id, organization_id) members ≡ true))
  by_level headers organization_id public h = inl refl
  by_level headers organization_id organization (u, h) =
      inr (authorize_organization-member headers organization_id h)

  authorize_request-MaySee :
      (headers : List Header) (target : PreviewUrlTarget) {u : Unit {0}}
      → authorize_request user_id_from_token members headers target ≡ ok u
      → MaySee headers target
  unfolding authorize_request
  authorize_request-MaySee headers target {u} h =
      by_level headers target.organization_id target.access_level (u, h)

  module _ (uuid_text : Uuid → String) (headers : List Header) (headers_part body_part : String)
      {target : PreviewUrlTarget} {bytes : String} where
    answer-MaySee :
        (found : PreviewUrlTarget) (text : String) (r : Result ProxyError (Unit {0}))
        → r ≡ authorize_request user_id_from_token members headers found
        → answer found text r ≡ forwarded target bytes
        → (found ≡ target) × MaySee headers found
    answer-MaySee found text (err e) same h = absurd (page_ne_forwarded h)
    answer-MaySee found text (ok u) same h =
        (target_same h, authorize_request-MaySee headers found (sym same))

    forward-MaySee :
        (db : Db) (r : Result ProxyError (PreviewUrlTarget × Db))
        → (forward user_id_from_token members uuid_text headers headers_part body_part db r).0
          ≡ forwarded target bytes
        → ((after : Db) × (r ≡ ok (target, after))) × MaySee headers target
    unfolding forward
    forward-MaySee db (err e) h = absurd (page_ne_forwarded h)
    forward-MaySee db (ok (found, after)) h =
        let (same, may_see) =
          answer-MaySee found _ (authorize_request user_id_from_token members headers found) refl
            h in
        ((after, λ i. ok (same i, after)), subst (MaySee headers) same may_see)

    for_host-MaySee :
        (now : Time) (db : Db) (host : Option String)
        → (for_host user_id_from_token members uuid_text now headers headers_part body_part db
            host).0
          ≡ forwarded target bytes
        → IsBehind target db × MaySee headers target
    unfolding for_host
    for_host-MaySee now db none k = absurd (closed_ne_forwarded k)
    for_host-MaySee now db (some name) k =
        let ((after, resolved), may_see) =
          forward-MaySee db (resolve_preview_url_target now (first (split 46 name)) db) k in
        (resolve_target-IsBehind now (first (split 46 name)) db resolved, may_see)

    -- A request goes on to a preview only if a live link and its environment stand behind the target,
    -- with the organization and the access level of these, and if the level is public or the request
    -- has the token, in a cookie, of a member of that organization.
    pub handle_client_connection-MaySee :
        (now : Time) (db : Db)
        → (handle_client_connection user_id_from_token members uuid_text now headers headers_part
            body_part db).0
          ≡ forwarded target bytes
        → IsBehind target db × MaySee headers target
    unfolding handle_client_connection
    handle_client_connection-MaySee now db h = for_host-MaySee now db (get_host_header headers) h
