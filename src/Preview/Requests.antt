-- ===== src/Preview/Requests.antt =====
-- crates/kube/src/http_proxy.rs: a request for a preview, from its head on. The headers that the parser
-- reads, decrypting a token and the members of organizations are parameters. An answer with an error is
-- its kind; a head is the text of its bytes.
use Prim.Native.Char.{code}
use lapdev.Base.{
  String, Bool, true, false, ◌&&◌, ◌||◌, Option, none, some, List, [], ◌∷◌, ◌++◌, nat_key, pair_key,
  contains, if◌then◌else◌, find,
}
use lapdev.Base.Map.{map_some}
use lapdev.Base.Text.{
  append, trim, split, is_empty, eq_ignore_ascii_case, lower_starts_with, lower_contains,
  strip_prefix, skip,
}
use lapdev.Sidecar.Headers.{Header}
use lapdev.Preview.{
  Uuid, Time, Result, ok, err, ok_or, guard, first, organization, public, Db, PreviewUrlError,
  access_denied, PreviewUrlTarget, parse_preview_url, resolve_preview_url,
  update_preview_url_access, ◌>>=◌,
}

pub data ProxyError : Type 0 where
  invalid_url not_found forbidden : ProxyError

unfoldable pub get_host_header : List Header → Option String
get_host_header headers =
    map_some (λ (h : Header). h.1) (find (λ (h : Header). eq_ignore_ascii_case h.0 "host") headers)

abbrev pub error_of_parse : PreviewUrlError → ProxyError
error_of_parse _ = invalid_url

abbrev pub error_of_resolve : PreviewUrlError → ProxyError
error_of_resolve access_denied = forbidden
error_of_resolve _ = not_found

abbrev pub map_err {ℓ κ μ} :
    {E : Type ℓ} {F : Type κ} {A : Type μ} → (E → F) → Result E A → Result F A
map_err f (ok a) = ok a
map_err f (err e) = err (f e)

-- A failed write of the time of access is only logged.
abbrev pub accessed : Time → PreviewUrlTarget → Db → Db
accessed now target db =
    elim (update_preview_url_access target.preview_url_id now db.preview_urls) [
      | none ↦ db
      | some rows ↦ record db { preview_urls = rows }
    ]

unfoldable pub resolve_preview_url_target :
    Time → String → Db → Result ProxyError (PreviewUrlTarget × Db)
resolve_preview_url_target now subdomain db = do
  url_info ← map_err error_of_parse (parse_preview_url subdomain)
  target ← map_err error_of_resolve (resolve_preview_url url_info db)
  ok (target, accessed now target db)

-- The values of all cookies, in the order of the headers.
unfoldable pub cookies : List Header → List String
cookies List.[] = []
cookies (List.◌∷◌ (name, value) headers) =
    let rest = cookies headers in
    if eq_ignore_ascii_case name "cookie" then split 59 value ++ rest else rest

unfoldable pub find_cookie : String → List String → Option String
find_cookie prefix [] = none
find_cookie prefix (cookie ∷ more) =
    let rest = find_cookie prefix more in
    elim (strip_prefix (trim cookie) prefix) [ none ↦ rest | some value ↦ some value ]

unfoldable pub extract_cookie_value : List Header → String → Option String
extract_cookie_value headers cookie_name = find_cookie (append cookie_name "=") (cookies headers)

module _ (user_id_from_token : String → Option Uuid) (members : List (Uuid × Uuid)) where
  unfoldable pub authorize_organization : List Header → Uuid → Result ProxyError (Unit {0})
  authorize_organization headers organization_id = do
    token ← ok_or forbidden (extract_cookie_value headers "lapdev_auth_token")
    user_id ← ok_or forbidden (user_id_from_token token)
    guard (contains (user_id, organization_id) members) forbidden

  unfoldable pub authorize_request : List Header → PreviewUrlTarget → Result ProxyError (Unit {0})
  authorize_request headers target = elim target.access_level [
    | public ↦ ok tt
    | organization ↦ authorize_organization headers target.organization_id
  ]

-- What has been written of the new head.
pub record Rewriting : Type 0 where
  pub modified_headers : String
  pub tracestate_added : Bool
  pub connection_header_written : Bool
  pub is_upgrade_request : Bool

abbrev pub push_str : String → Rewriting → Rewriting
push_str text r = record r { modified_headers = append r.modified_headers text }

abbrev pub crlf : String
crlf = "\r\n"

-- The end of the head, at the empty line.
abbrev pub finish : String → Rewriting → Rewriting
finish tracestate r =
    let traced =
      if r.tracestate_added
      then r
      else record (push_str (append "tracestate: " (append tracestate crlf)) r) {
        tracestate_added = true;
      } in
    let closed =
      if r.connection_header_written || r.is_upgrade_request
      then traced
      else record (push_str (append "connection: close" crlf) traced) {
        connection_header_written = true;
      } in
    push_str crlf closed

-- A header `tracestate` with the environment behind what it had.
unfoldable pub with_tracestate : String → String → String
with_tracestate tracestate line =
    let existing_value = trim (skip 11 line) in
    if is_empty existing_value
    then append "tracestate: " tracestate
    else append "tracestate: " (append existing_value (append "," tracestate))

-- One line of the loop.
unfoldable pub rewrite_line : String → String → Rewriting → Rewriting
rewrite_line tracestate line r =
    if lower_starts_with line "tracestate:"
    then record (push_str (append (with_tracestate tracestate line) crlf) r) {
      tracestate_added = true;
    }
    else if lower_starts_with line "connection:"
    then (if lower_contains line "upgrade"
        then record (push_str (append line crlf) r) {
          connection_header_written = true;
          is_upgrade_request = true;
        }
        else record (push_str (append "connection: close" crlf) r) {
          connection_header_written = true;
        })
    else if lower_starts_with line "upgrade:"
    then record (push_str (append line crlf) r) { is_upgrade_request = true }
    else if is_empty line
    then finish tracestate r
    else push_str (append line crlf) r

unfoldable pub rewrite_lines : String → List String → Rewriting → Rewriting
rewrite_lines tracestate [] r = r
rewrite_lines tracestate (line ∷ rest) r =
    rewrite_lines tracestate rest (rewrite_line tracestate line r)

-- `str::lines`: the end of a line is `\n` or `\r\n`, and no line follows the last end.
unfoldable pub strip_return : String → String
strip_return String.[] = ""
strip_return (String.◌∷◌ c s) =
    let rest = strip_return s in
    if is_empty s && nat_key.same (code c) 13 then "" else String.◌∷◌ c rest

unfoldable pub lines_of : List String → List String
lines_of [] = []
lines_of (last ∷ []) = if is_empty last then [] else last ∷ []
lines_of (line ∷ (next ∷ more)) = strip_return line ∷ lines_of (next ∷ more)

unfoldable pub lines : String → List String
unfolding lines_of strip_return
lines text = lines_of (split 10 text)

-- The lines behind the loop, for a head without an empty line.
abbrev pub complete_head : String → Rewriting → Rewriting
complete_head tracestate r =
    let traced =
      if r.tracestate_added
      then r
      else push_str (append "tracestate: " (append tracestate crlf)) r in
    if r.connection_header_written || r.is_upgrade_request
    then traced
    else push_str (append "connection: close" crlf) traced

abbrev pub empty_head : Rewriting
empty_head = record {
  modified_headers = "";
  tracestate_added = false;
  connection_header_written = false;
  is_upgrade_request = false;
}

-- The head and the body of the request that goes on to the cluster.
unfoldable pub add_environment_id_to_headers : String → String → String → String
unfolding rewrite_lines
add_environment_id_to_headers headers_part body_part environment_text =
    let tracestate = append "lapdev-env-id=" environment_text in
    let last =
      complete_head tracestate (rewrite_lines tracestate (lines headers_part) empty_head) in
    append last.modified_headers body_part

-- What a connection ends with: it is closed, a page with an error, or the bytes that go on to a target.
pub data Outcome : Type 0 where
  closed : Outcome
  page : ProxyError → Outcome
  forwarded : PreviewUrlTarget → String → Outcome

-- The answer to a request that is let through, or is not.
abbrev pub answer : PreviewUrlTarget → String → Result ProxyError (Unit {0}) → Outcome
answer target bytes (err e) = page e
answer target bytes (ok _) = forwarded target bytes

module _ (user_id_from_token : String → Option Uuid) (members : List (Uuid × Uuid))
    (uuid_text : Uuid → String) where
  unfoldable pub forward :
      List Header → String → String → Db → Result ProxyError (PreviewUrlTarget × Db) → Outcome × Db
  forward headers headers_part body_part db (err e) = (page e, db)
  forward headers headers_part body_part db (ok (target, after)) = (
    answer target
        (add_environment_id_to_headers headers_part body_part (uuid_text target.environment_id))
        (authorize_request user_id_from_token members headers target),
    after,
  )

  unfoldable pub for_host : Time → List Header → String → String → Db → Option String → Outcome × Db
  for_host now headers headers_part body_part db none = (closed, db)
  for_host now headers headers_part body_part db (some host) =
      forward headers headers_part body_part db
        (resolve_preview_url_target now (first (split 46 host)) db)

  -- A request of which the parser read the headers and where the head ends.
  unfoldable pub handle_client_connection : Time → List Header → String → String → Db → Outcome × Db
  unfolding forward for_host
  handle_client_connection now headers headers_part body_part db =
      for_host now headers headers_part body_part db (get_host_header headers)
