-- ===== src/Preview/Resolution.antt =====
-- What a link resolves to while others come and go.
use lapdev.Base.{
  ℕ, ◌<◌, ◌≡◌, refl, sym, ap, ◌∙◌, String, true, inl, inr, Option, none, some, List, [], ◌∷◌, ◌==◌,
  nat_key, string_key, find,
}
use lapdev.Base.Int.{pos, int_key}
use lapdev.Base.Map.{unwrap_or}
use lapdev.Base.Text.{nowhere, is_char}
use lapdev.Base.Text.Numerals.{decimal}
use lapdev.Preview.{
  Uuid, Time, ok, PreviewUrlAccessLevel, organization, public, access_text, has_name,
  parse_access_level, Environment, Service, PreviewUrl, Db, has_id, insert_row,
  find_preview_url_by_name, get_kube_environment, get_kube_environment_service_by_id, int_text,
  link_name, CreateRequest, service_environment, new_row, create_environment_preview_url,
  PreviewUrlInfo, parse_preview_url, PreviewUrlTarget, target_of, resolve_preview_url,
}
use lapdev.Preview.Requests.{resolve_preview_url_target, accessed}
use lapdev.Preview.Links.{parse_preview_url-link_name}
use lapdev.Preview.Tables.{IsValid, find-live}
use lapdev.Preview.Calls.{
  created_link, Call, create, update, delete, access, serve, run, with_rows, AllKeep, run-HasLink,
  Result-cases,
}
use lapdev.Preview.Rows.{HasLink, inserted-HasLink}

same_some {ℓ} : {A : Type ℓ} {a b : A} → some a ≡ some b → a ≡ b
same_some h = cc

parse_access_level-text :
    (level : PreviewUrlAccessLevel) → parse_access_level (access_text level) ≡ some level
unfolding parse_access_level
parse_access_level-text organization = refl
parse_access_level-text public = refl

module _ (port : ℕ) (random : String) (environment : Environment) (service : Service) where
  abbrev info : PreviewUrlInfo
  info = record { service_name = service.name; port = port; environment_hash = random }

  resolve-HasLink :
      (made : PreviewUrl) (db : Db) (h : HasLink made db.preview_urls)
      → made.name ≡ link_name (decimal port) service.name random
      → made.port ≡ pos port
      → get_kube_environment made.environment_id db.environments ≡ some environment
      → get_kube_environment_service_by_id made.service_id db.services ≡ some service
      → (service.environment_id == service_environment environment) ≡ true
      → resolve_preview_url info db ≡ ok (target_of info h.row environment service h.link.level)
  unfolding resolve_preview_url
  resolve-HasLink made db h name_is port_is env_is service_is belongs =
      let row = h.row in
      let name = link_name (decimal port) service.name random in
      let named : has_name name row ≡ true =
        rw (h.link.same_name, name_is, h.link.live, (string_key.same_iff name name).1 refl) refl in
      let found : find_preview_url_by_name name db.preview_urls ≡ some row =
        find-live name db.preview_urls row h.valid
          (ap (λ id. find (has_id id) db.preview_urls) h.link.same_id ∙ h.found) named in
      let ported : (row.port == pos port) ≡ true =
        (int_key.same_iff row.port (pos port)).1 (h.link.same_port ∙ port_is) in
      let environment_found : get_kube_environment row.environment_id db.environments
          ≡ some environment =
        rw h.link.same_environment env_is in
      let service_found : get_kube_environment_service_by_id row.service_id db.services
          ≡ some service =
        rw h.link.same_service service_is in
      let levelled : parse_access_level row.access_level ≡ some h.link.level =
        rw h.link.has_level (parse_access_level-text h.link.level) in
      let same_service_name : (service.name == service.name) ≡ true =
        (string_key.same_iff service.name service.name).1 refl in
      rw (found, ported, environment_found, service_found, belongs, same_service_name, levelled)
        refl

with_rows-tables :
    (result : Option (List PreviewUrl)) (db : Db)
    → ((with_rows result db).environments ≡ db.environments)
      × ((with_rows result db).services ≡ db.services)
with_rows-tables none db = (refl, refl)
with_rows-tables (some rows) db = (refl, refl)

serve-tables :
    (call : Call) (db : Db)
    → ((serve call db).environments ≡ db.environments) × ((serve call db).services ≡ db.services)
unfolding serve
serve-tables (create id random user_id environment request) db =
    elim (Result-cases (create_environment_preview_url id random user_id environment request db)) [
      | inl (e, failed) ↦ rw failed (refl, refl)
      | inr (after, made) ↦
          let (_, _, _, _, _, written) =
            created_link id random user_id environment request db made in
          rw (made, ← written) (refl, refl)
    ]
serve-tables (update id level) db = with_rows-tables _ db
serve-tables (delete id now) db = with_rows-tables _ db
serve-tables (access id now) db = with_rows-tables _ db

run-tables :
    (calls : List Call) (db : Db)
    → ((run calls db).environments ≡ db.environments) × ((run calls db).services ≡ db.services)
run-tables [] db = (refl, refl)
run-tables (call ∷ calls) db =
    let (env, services) = serve-tables call db in
    let (env', services') = run-tables calls (serve call db) in (env' ∙ env, services' ∙ services)

-- The target of a link, with the access level that it has by now.
abbrev pub link_target :
    Uuid → ℕ → Environment → Service → CreateRequest → PreviewUrlAccessLevel → PreviewUrlTarget
link_target id port environment service request level = record {
  cluster_id = environment.cluster_id;
  namespace = environment.namespace;
  service_name = service.name;
  service_port = port;
  access_level = level;
  protocol = unwrap_or "HTTP" request.protocol;
  environment_id = environment.id;
  organization_id = environment.organization_id;
  preview_url_id = id;
}

target_of-link :
    (id : Uuid) (port : ℕ) (random : String) (environment : Environment) (service : Service)
    (request : CreateRequest) (row : PreviewUrl) (level : PreviewUrlAccessLevel)
    → row.id ≡ id
    → row.protocol ≡ unwrap_or "HTTP" request.protocol
    → target_of (info port random environment service) row environment service level
      ≡ link_target id port environment service request level
target_of-link id port random environment service request row level same_id same_protocol = cc

resolves :
    (now : Time) (name : String) (info : PreviewUrlInfo) (db : Db) {target : PreviewUrlTarget}
    → parse_preview_url name ≡ ok info
    → resolve_preview_url info db ≡ ok target
    → resolve_preview_url_target now name db ≡ ok (target, accessed now target db)
unfolding resolve_preview_url_target
resolves now name info db parsed resolved = rw (parsed, resolved) refl

-- A link that is created resolves from then on, whatever other links are created, changed, used or
-- deleted, as long as it is not deleted itself: to the environment, the service and the port that it
-- was created for. The port fits in 16 bits, the random end has no dash, the unique indices hold
-- before, and the environment and the service stay.
pub create-resolves :
    (id : Uuid) (random : String) (user_id port now : ℕ) (environment : Environment)
    (service : Service) (request : CreateRequest) (db after : Db) (calls : List Call)
    → IsValid db.preview_urls
    → port < 65536
    → nowhere (is_char 45) random ≡ true
    → request.port ≡ pos port
    → get_kube_environment environment.id db.environments ≡ some environment
    → get_kube_environment_service_by_id request.service_id db.services ≡ some service
    → create_environment_preview_url id random user_id environment request db ≡ ok after
    → AllKeep id calls
    → (level : PreviewUrlAccessLevel) × (resolve_preview_url_target now
          (link_name (decimal port) service.name random)
          (run calls after)
        ≡ ok (
          link_target id port environment service request level,
          accessed now (link_target id port environment service request level) (run calls after),
        ))
create-resolves id random user_id port now environment service request db after calls valid small
      dashless port_is env_is service_is made kept =
    let (found, rows, found_is, belongs, inserted, written) =
      created_link id random user_id environment request db made in
    let same : found ≡ service = same_some (sym found_is ∙ service_is) in
    let row = new_row id random user_id environment service request in
    let inserted' : insert_row row db.preview_urls ≡ some rows = rw (← same) inserted in
    let link : HasLink row after.preview_urls = rw (← written) (
      inserted-HasLink row (unwrap_or organization request.access_level) db.preview_urls valid
        inserted' refl refl) in
    let final = run-HasLink row calls after kept link in
    let (environments, services) = run-tables calls after in
    let name_is : row.name ≡ link_name (decimal port) service.name random =
      ap (λ p. link_name (int_text p) service.name random) port_is in
    let resolved =
      resolve-HasLink port random environment service row (run calls after) final name_is port_is
        (rw (environments, ← written) env_is) (rw (services, ← written) service_is)
        (rw (← same) belongs) in
    let linked =
      target_of-link id port random environment service request final.row final.link.level
        final.link.same_id final.link.same_protocol in
    (
      final.link.level,
      resolves now (link_name (decimal port) service.name random)
          (info port random environment service) (run calls after)
          (parse_preview_url-link_name port service.name random small dashless)
          (resolved ∙ ap ok linked),
    )
