-- ===== src/Preview/Calls.antt =====
-- The calls that change the table of links, and what they leave of a link that is not deleted.

use lapdev.Base.{
  ◌≡◌, refl, sym, ◌∙◌, String, Bool, true, false, inl, inr, ◌⊎◌, Option, none, some, List, [], ◌∷◌,
  ◌==◌, nat_key, string_key, any,
}
use mathlib.Core.Bool.{false≢true}
use lapdev.Base.Int.{int_key}
use lapdev.Preview.{
  Uuid, Time, Result, ok, err, ◌>>=◌, ok_or, guard, ◌>>◌, service_missing, service_elsewhere,
  port_missing, already_exists, PreviewUrlAccessLevel, Environment, Service, PreviewUrl, Db,
  insert_row, set_access_level, set_deleted, set_accessed, update_environment_preview_url,
  delete_environment_preview_url, update_preview_url_access, get_kube_environment_service_by_id,
  CreateRequest, CreateError, service_environment, port_matches, new_row,
  create_environment_preview_url,
}
use lapdev.Preview.Rows.{
  HasLink, insert_row-HasLink, update_row-HasLink, set_access_level-IsLink, set_access_level-id,
  set_accessed-IsLink,
}

-- What is known once the steps of a creation behind the service have succeeded.
checked {ℓ κ μ} :
    {E : Type ℓ} {B : Type κ} {C : Type μ} (e₁ e₂ e₃ : E) (belongs has_port : Bool)
    (rows : Option B) (finish : B → C) {c : C}
    → (guard belongs e₁ >> (guard has_port e₂ >> (ok_or e₃ rows >>= λ b. ok (finish b)))) ≡ ok c
    → (b : B) × (belongs ≡ true) × (rows ≡ some b) × (finish b ≡ c)
checked e₁ e₂ e₃ false _ rows finish h = cc
checked e₁ e₂ e₃ true false rows finish h = cc
checked e₁ e₂ e₃ true true none finish h = cc
checked e₁ e₂ e₃ true true (some b) finish h = (b, refl, refl, cc)

-- The calls that change the table of links; the id of a row and the random end of a name are given.
pub data Call : Type 0 where
  create : Uuid → String → Uuid → Environment → CreateRequest → Call
  update : Uuid → Option PreviewUrlAccessLevel → Call
  delete : Uuid → Time → Call
  access : Uuid → Time → Call

abbrev pub with_rows : Option (List PreviewUrl) → Db → Db
with_rows none db = db
with_rows (some rows) db = record db { preview_urls = rows }

abbrev pub created : Result CreateError Db → Db → Db
created (ok after) db = after
created (err _) db = db

-- A call that fails changes nothing.
unfoldable pub serve : Call → Db → Db
serve (create id random user_id environment request) db =
    created (create_environment_preview_url id random user_id environment request db) db
serve (update id level) db = with_rows (update_environment_preview_url id level db.preview_urls) db
serve (delete id now) db = with_rows (delete_environment_preview_url id now db.preview_urls) db
serve (access id now) db = with_rows (update_preview_url_access id now db.preview_urls) db

abbrev pub run : List Call → Db → Db
run [] db = db
run (call ∷ calls) db = run calls (serve call db)

abbrev pub deletes : Uuid → Call → Bool
deletes id (delete other now) = other == id
deletes id _ = false

with_rows-HasLink :
    (made : PreviewUrl) (result : Option (List PreviewUrl)) (db : Db)
    → HasLink made db.preview_urls
    → ((after : List PreviewUrl) → result ≡ some after → HasLink made after)
    → HasLink made (with_rows result db).preview_urls
with_rows-HasLink made none db h after = h
with_rows-HasLink made (some rows) db h after = after rows refl

pub Result-cases {ℓ κ} :
    {E : Type ℓ} {A : Type κ} (r : Result E A) → ((e : E) × (r ≡ err e)) ⊎ ((a : A) × (r ≡ ok a))
Result-cases (err e) = inl (e, refl)
Result-cases (ok a) = inr (a, refl)

-- What a successful creation found and wrote.
pub created_link :
    (id : Uuid) (random : String) (user_id : Uuid) (environment : Environment)
    (request : CreateRequest) (db : Db) {after : Db}
    → create_environment_preview_url id random user_id environment request db ≡ ok after
    → (service : Service) × (rows : List PreviewUrl) × (get_kube_environment_service_by_id
          request.service_id db.services
        ≡ some service)
      × ((service.environment_id == service_environment environment) ≡ true)
      × (insert_row (new_row id random user_id environment service request) db.preview_urls
          ≡ some rows)
      × (record db { preview_urls = rows } ≡ after)
unfolding create_environment_preview_url
created_link id random user_id environment request db {after} h =
    found (get_kube_environment_service_by_id request.service_id db.services) h
  where
    found :
        (o : Option Service)
        → (ok_or service_missing o >>= λ service.
            guard (service.environment_id == service_environment environment) service_elsewhere
            >> (guard (any (port_matches request) service.ports) port_missing
                >> (ok_or already_exists (
                      insert_row
                        (new_row id random user_id environment service request)
                        db.preview_urls)
                    >>= λ rows. ok (record db { preview_urls = rows }))))
          ≡ ok after
        → (service : Service) × (rows : List PreviewUrl) × (o ≡ some service)
          × ((service.environment_id == service_environment environment) ≡ true)
          × (insert_row (new_row id random user_id environment service request) db.preview_urls
              ≡ some rows)
          × (record db { preview_urls = rows } ≡ after)
    found none h = cc
    found (some service) h =
        let (rows, belongs, inserted, written) = checked _ _ _ _ _ _ _ h in
        (service, rows, refl, belongs, inserted, written)

serve-HasLink :
    (made : PreviewUrl) (call : Call) (db : Db)
    → deletes made.id call ≡ false
    → HasLink made db.preview_urls
    → HasLink made (serve call db).preview_urls
unfolding serve
serve-HasLink made (create id random user_id environment request) db kept h =
    elim (Result-cases (create_environment_preview_url id random user_id environment request db)) [
      | inl (e, failed) ↦ rw failed h
      | inr (after, made_other) ↦
          let (service, rows, _, _, inserted, written) =
            created_link id random user_id environment request db made_other in
          rw (made_other, ← written)
            (insert_row-HasLink made (new_row id random user_id environment service request)
              db.preview_urls h inserted)
    ]
serve-HasLink made (update id level) db kept h =
    with_rows-HasLink made (update_environment_preview_url id level db.preview_urls) db h
      (λ after updated.
        update_row-HasLink made id (set_access_level level) db.preview_urls
          (set_access_level-id level) (λ row _. set_access_level-IsLink level made row) h
          (unfold update_environment_preview_url in updated))
serve-HasLink made (delete id now) db kept h =
    with_rows-HasLink made (delete_environment_preview_url id now db.preview_urls) db h
      (λ after updated.
        update_row-HasLink made id (set_deleted now) db.preview_urls (λ row. refl)
          (λ row it _. absurd (false≢true (sym kept ∙ it))) h
          (unfold delete_environment_preview_url in updated))
serve-HasLink made (access id now) db kept h =
    with_rows-HasLink made (update_preview_url_access id now db.preview_urls) db h (λ after updated.
      update_row-HasLink made id (set_accessed now) db.preview_urls (λ row. refl)
        (λ row _. set_accessed-IsLink now made row) h (unfold update_preview_url_access in updated))

abbrev pub AllKeep : Uuid → List Call → Type 0
AllKeep id [] = Unit
AllKeep id (call ∷ calls) = (deletes id call ≡ false) × AllKeep id calls

pub run-HasLink :
    (made : PreviewUrl) (calls : List Call) (db : Db)
    → AllKeep made.id calls
    → HasLink made db.preview_urls
    → HasLink made (run calls db).preview_urls
run-HasLink made [] db kept h = h
run-HasLink made (call ∷ calls) db kept h =
    run-HasLink made calls (serve call db) kept.1 (serve-HasLink made call db kept.0 h)
