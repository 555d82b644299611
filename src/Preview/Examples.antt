-- ===== src/Preview/Examples.antt =====
-- Witnesses for the theorems on previews: a link for a service with a dash in its name, and a request
-- whose trace state names an environment already.
use Prim.Native.Char.{Char}
use mathlib.Core.List.{append_assoc}
use lapdev.Base.{
  ℕ, zero, suc, ◌≡◌, refl, ap, ◌∙◌, String, Bool, true, false, ◌&&◌, Option, none, some, List, [],
  ◌∷◌, ◌++◌, map, arith, nat_key, if◌then◌else◌, all,
}
use lapdev.Base.Int.{pos, int_key}
use lapdev.Base.Text.{
  nowhere, is_char, is_empty, is_whitespace, split_once, trim, lower_starts_with, lower_contains,
  skip, split, join, eq_ignore_ascii_case, strip_prefix,
}
use lapdev.Base.Text.Splits.{split_once-append}
use lapdev.Base.Text.Numerals.{decimal, parse_u16, parse_digits}
use lapdev.Sidecar.Headers.{Header, extract_routing_context}
use lapdev.Sidecar.Headers.TraceState.{or_else}
use lapdev.Preview.{
  Uuid, ok, PreviewUrlAccessLevel, organization, public, Environment, Service, Db, CreateRequest,
  get_kube_environment, get_kube_environment_service_by_id, create_environment_preview_url, new_row,
  insert_row, link_name, parse_preview_url, resolve_preview_url, find_preview_url_by_name,
  parse_access_level, update_preview_url_access, update_row, write_found, PreviewUrlTarget,
}
use lapdev.Preview.Requests.{
  for_host, forward, get_host_header, authorize_request, authorize_organization,
  extract_cookie_value, find_cookie, cookies, rewrite_line, rewrite_lines, strip_return, lines_of,
  with_tracestate, resolve_preview_url_target, accessed, forwarded, handle_client_connection, lines,
  add_environment_id_to_headers,
}
use lapdev.Preview.Links.{parse_preview_url-link_name}
use lapdev.Preview.Calls.{Call, update, access, run}
use lapdev.Preview.Resolution.{link_target, create-resolves}
use lapdev.Preview.Heads.{add_environment_id_to_headers-lines}
use lapdev.Preview.Notes.{is_field, Kind, trace, connection, upgrade, other, kind}
use lapdev.Preview.Lines.{unlines, is_line, lines-append, all-append}
use lapdev.Preview.Fields.{is_unprintable, is_unnamed, is_header, line_of}
use lapdev.Preview.Traced.{trimmed, nowhere-weaken, line_of-IsLine}
use lapdev.Preview.Routing.{
  HeadParser, ParserLaws, UuidLaws, all_lines, head_of, named_environment,
  add_environment_id_to_headers-routes,
}
use lapdev.Preview.Access.{IsBehind, MaySee, handle_client_connection-MaySee}

parse_preview_url-link_name_example :
    parse_preview_url (link_name (decimal 8080) "my-web-app" "abc123")
    ≡ ok (record { service_name = "my-web-app"; port = 8080; environment_hash = "abc123" })
parse_preview_url-link_name_example =
    parse_preview_url-link_name 8080 "my-web-app" "abc123" (omega arith) refl

abbrev shop : Environment
shop = record {
  id = 7;
  deleted_at = none;
  organization_id = 3;
  cluster_id = 1;
  namespace = "shop";
  base_environment_id = none;
}

abbrev web : Service
web = record {
  id = 5;
  deleted_at = none;
  environment_id = 7;
  name = "web-app";
  ports = record { port = pos 8080; name = none } ∷ [];
}

abbrev shop_db : Db
shop_db = record { preview_urls = []; environments = shop ∷ []; services = web ∷ [] }

abbrev web_request : CreateRequest
web_request = record {
  service_id = 5;
  port = pos 8080;
  port_name = none;
  protocol = none;
  access_level = none;
}

abbrev shop_db_after : Db
shop_db_after = record shop_db { preview_urls = new_row 11 "abc123" 2 shop web web_request ∷ [] }

web_created :
    create_environment_preview_url 11 "abc123" 2 shop web_request shop_db ≡ ok shop_db_after
unfolding create_environment_preview_url get_kube_environment_service_by_id insert_row
web_created = refl

abbrev web_calls : List Call
web_calls = update 11 (some public) ∷ (access 11 100 ∷ [])

create-resolves_example :
    (level : PreviewUrlAccessLevel) × (resolve_preview_url_target 120
        (link_name (decimal 8080) "web-app" "abc123")
        (run web_calls shop_db_after)
      ≡ ok (
        link_target 11 8080 shop web web_request level,
        accessed 120 (link_target 11 8080 shop web web_request level) (run web_calls shop_db_after),
      ))
create-resolves_example =
    create-resolves 11 "abc123" 2 8080 120 shop web web_request shop_db shop_db_after web_calls tt
      (omega arith) refl refl (unfold get_kube_environment in refl)
      (unfold get_kube_environment_service_by_id in refl) web_created (refl, (refl, tt))

-- The lines of a request with a trace state.
abbrev traced_lines : List String
traced_lines = "GET / HTTP/1.1" ∷ ("TraceState:  a=b " ∷ ("Connection: keep-alive" ∷ []))

add_environment_id_to_headers-lines_example :
    add_environment_id_to_headers (unlines (traced_lines ++ "" ∷ [])) "hi" "x"
    ≡ "GET / HTTP/1.1\r\ntracestate: a=b,lapdev-env-id=x\r\nconnection: close\r\n\r\nhi"
unfolding lower_starts_with lower_contains skip join
add_environment_id_to_headers-lines_example =
    add_environment_id_to_headers-lines traced_lines "hi" "x" refl refl

-- A parser of heads that reads the lines up to the empty one.
abbrev until_empty : List String → List String
until_empty [] = []
until_empty (line ∷ more) = if is_empty line then [] else line ∷ until_empty more

abbrev header_parts : Option (String × String) → Header
header_parts none = ("", "")
header_parts (some (name, value)) = (name, trim value)

abbrev read_fields : List String → Option (List Header)
read_fields [] = none
read_fields (first ∷ more) =
    some (map (λ (line : String). header_parts (split_once 58 line)) (until_empty more))

abbrev is_other : Kind → Bool
is_other other = true
is_other _ = false

abbrev line_parser : HeadParser
line_parser = record {
  accepts = λ line. is_line line && (is_field line && is_other (kind line));
  parse_headers = λ text. read_fields (lines text);
}

is_other-other : (k : Kind) → is_other k ≡ true → k ≡ other
is_other-other trace h = cc
is_other-other connection h = cc
is_other-other upgrade h = cc
is_other-other other h = refl

header_parts-line_of :
    (header : Header)
    → is_header header ≡ true
    → header_parts (split_once 58 (line_of header)) ≡ trimmed header
header_parts-line_of (name, value) h = ap header_parts (
    split_once-append ":" name value
      (nowhere-weaken is_unnamed (is_char 58) (λ c k. ground arith) name (ground arith)))

read_headers :
    (headers : List Header) (rest : List String)
    → all is_header headers ≡ true
    → map
        (λ (line : String). header_parts (split_once 58 line))
        (until_empty (map line_of headers ++ "" ∷ rest))
      ≡ map trimmed headers
read_headers [] rest h = refl
read_headers ((name, value) ∷ headers) rest h =
    let here : is_header (name, value) ≡ true = ground arith in
    let more : all is_header headers ≡ true = ground arith in
    let field : is_empty (line_of (name, value)) ≡ false =
      ground (arith, (line_of-IsLine name value here).1) in
    rw field (λ i. header_parts-line_of (name, value) here i ∷ read_headers headers rest more i)

line_parser_laws : ParserLaws line_parser
line_parser_laws = record {
  accepts_line = λ line h. (ground arith, ground arith, is_other-other (kind line) (ground arith));
  reads = λ line headers body accepted h few.
      let plain : is_line line ≡ true = ground arith in
      ap read_fields (
        lines-append (line ∷ (map line_of headers ++ "" ∷ [])) body (
          rw
            (plain, all-append is_line (map line_of headers) ("" ∷ []) (all_lines headers h).0 refl)
            refl))
      ∙ ap some (
          ap (λ l. map (λ (line : String). header_parts (split_once 58 line)) (until_empty l))
            (append_assoc (map line_of headers) ("" ∷ []) (lines body))
          ∙ read_headers headers (lines body) h);
}

-- Identifiers as strokes.
abbrev strokes : Uuid → String
strokes zero = ""
strokes (suc n) = String.◌∷◌ "x" (strokes n)

abbrev count_strokes : String → ℕ
count_strokes String.[] = 0
count_strokes (String.◌∷◌ c s) = suc (count_strokes s)

count_strokes-strokes : (n : ℕ) → count_strokes (strokes n) ≡ n
count_strokes-strokes zero = refl
count_strokes-strokes (suc n) = ap suc (count_strokes-strokes n)

nowhere-strokes : (p : Char → Bool) (n : ℕ) → p "x" ≡ false → nowhere p (strokes n) ≡ true
nowhere-strokes p zero h = refl
nowhere-strokes p (suc n) h = rw (h, nowhere-strokes p n h) refl

strokes_laws : UuidLaws strokes (λ s. some (count_strokes s))
strokes_laws = record {
  read_back = λ n. ap some (count_strokes-strokes n);
  spaceless = λ n. nowhere-strokes is_whitespace n refl;
  unlisted = λ n. nowhere-strokes (is_char 44) n refl;
  printable = λ n. nowhere-strokes is_unprintable n refl;
}

abbrev named_headers : List Header
named_headers = ("Host", " a") ∷ (("TraceState", " v=1, lapdev-env-id=xxx") ∷ [])

-- The trace state of the request names the environment 3, and the preview is of the environment 2.
add_environment_id_to_headers-routes_example :
    (read : List Header) × (line_parser.parse_headers
        (add_environment_id_to_headers (head_of "GET / HTTP/1.1" named_headers) "body" (strokes 2))
      ≡ some read)
    × ((extract_routing_context (λ s. some (count_strokes s)) read).lapdev_environment_id
        ≡ or_else (named_environment (λ s. some (count_strokes s)) named_headers) (some 2))
unfolding lower_starts_with
add_environment_id_to_headers-routes_example =
    add_environment_id_to_headers-routes line_parser line_parser_laws strokes
      (λ s. some (count_strokes s)) strokes_laws "GET / HTTP/1.1" "body" named_headers 2 refl refl
      (omega arith)

abbrev member_headers : List Header
member_headers =
    ("host", "8080-web-app-abc123.app.lap.dev") ∷ (("cookie", "a=b; lapdev_auth_token=t") ∷ [])

abbrev user_of : String → Option Uuid
user_of token = if is_empty token then none else some 4

abbrev web_target : PreviewUrlTarget
web_target = link_target 11 8080 shop web web_request organization

abbrev web_bytes : String
web_bytes = "tracestate: lapdev-env-id=xxxxxxx\r\nconnection: close\r\nbody"

web_forwarded :
    (handle_client_connection user_of
      ((4, 3) ∷ [])
      strokes
      9
      member_headers
      ""
      "body"
      shop_db_after).0
    ≡ forwarded web_target web_bytes
unfolding handle_client_connection for_host forward get_host_header eq_ignore_ascii_case
    resolve_preview_url_target parse_preview_url split parse_u16 parse_digits resolve_preview_url
    find_preview_url_by_name decimal join get_kube_environment get_kube_environment_service_by_id
    parse_access_level authorize_request authorize_organization extract_cookie_value find_cookie
    cookies lower_contains lower_starts_with skip strip_prefix add_environment_id_to_headers lines
    lines_of rewrite_line rewrite_lines strip_return with_tracestate update_preview_url_access
    update_row write_found
web_forwarded = refl

handle_client_connection-MaySee_example :
    IsBehind web_target shop_db_after × MaySee user_of ((4, 3) ∷ []) member_headers web_target
handle_client_connection-MaySee_example =
    handle_client_connection-MaySee user_of ((4, 3) ∷ []) strokes member_headers "" "body" 9
      shop_db_after web_forwarded
