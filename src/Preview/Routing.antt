-- ===== src/Preview/Routing.antt =====
-- A request for a preview on its way: crates/kube/src/http_proxy.rs writes the environment into its
-- head, and crates/kube-sidecar-proxy/src/otel_routing.rs reads it there. Between the two, the parser of
-- heads is a parameter, and so are `Display` and `parse_str` of `Uuid`.

use lapdev.Base.{
  suc, ◌≤◌, ◌≡◌, refl, sym, ap, ◌∙◌, String, Bool, true, false, ◌||◌, Bool-cases, inl, inr, Option,
  none, some, List, [], ◌∷◌, ◌++◌, map, arith, nat_key, if◌then◌else◌, any, all, find, length,
  length-append,
}
use lapdev.Base.Text.{append, nowhere, is_char, is_empty, is_whitespace, trim}
use lapdev.Sidecar.Headers.{
  Header, extract_trace_context, extract_lapdev_environment_id, extract_routing_context,
}
use lapdev.Sidecar.Headers.TraceState.{
  or_else, entry_key, extract-append, extract-empty, extract-entry,
}
use lapdev.Preview.{Uuid}
use lapdev.Preview.Requests.{add_environment_id_to_headers}
use lapdev.Preview.Fields.{is_unprintable, is_header, line_of}
use lapdev.Preview.Heads.{add_environment_id_to_headers-lines}
use lapdev.Preview.Notes.{
  is_field, other, kind, trace_kind, is_trace, is_connection, is_upgrade, new_of, new_line,
  added_lines,
}
use lapdev.Preview.Lines.{unlines, is_line, all-append}
use mathlib.Core.List.{map-append, append_assoc}
use lapdev.Preview.Traced.{
  trimmed, is_trace_header, new_header, new_headers-all, added_headers, added_headers-lines,
  added_headers-IsHeader, any_trace, value_behind, read_behind, line_of-IsLine,
}

-- A parser of heads, with the request lines that it accepts.
pub record HeadParser : Type 0 where
  pub accepts : String → Bool
  pub parse_headers : String → Option (List Header)

-- What is relied on: a request line, which begins with no name of a header, and a header on each line, up to 64, are
-- read as they stand, whatever follows the empty line.
pub record ParserLaws (parser : HeadParser) : Type 0 where
  pub accepts_line :
      (line : String)
      → parser.accepts line ≡ true
      → (is_line line ≡ true) × (is_field line ≡ true) × (kind line ≡ other)
  pub reads :
      (line : String) (headers : List Header) (body : String)
      → parser.accepts line ≡ true
      → all is_header headers ≡ true
      → length headers ≤ 64
      → parser.parse_headers (append (unlines (line ∷ (map line_of headers ++ "" ∷ []))) body)
        ≡ some (map trimmed headers)

-- The texts of identifiers: printable, without white space or a comma, and read back.
pub record UuidLaws (uuid_text : Uuid → String) (parse_str : String → Option Uuid) : Type 0 where
  pub read_back : (id : Uuid) → parse_str (uuid_text id) ≡ some id
  pub spaceless : (id : Uuid) → nowhere is_whitespace (uuid_text id) ≡ true
  pub unlisted : (id : Uuid) → nowhere (is_char 44) (uuid_text id) ≡ true
  pub printable : (id : Uuid) → nowhere is_unprintable (uuid_text id) ≡ true

-- A head as the proxy reads it.
abbrev pub head_of : String → List Header → String
head_of request_line headers = unlines (request_line ∷ (map line_of headers ++ "" ∷ []))

abbrev pub value_environment : (String → Option Uuid) → Option Header → Option Uuid
value_environment parse_str none = none
value_environment parse_str (some (name, value)) =
    extract_lapdev_environment_id parse_str (some (trim value))

-- The environment that the first trace state of a request names.
abbrev pub named_environment : (String → Option Uuid) → List Header → Option Uuid
named_environment parse_str headers = value_environment parse_str (find is_trace_header headers)

empty_text : (s : String) → is_empty s ≡ true → s ≡ ""
empty_text String.[] h = refl
empty_text (String.◌∷◌ c s) h = cc

length-map {ℓ κ} :
    {A : Type ℓ} {B : Type κ} (f : A → B) (xs : List A) → length (map f xs) ≡ length xs
length-map f [] = refl
length-map f (x ∷ xs) = ap suc (length-map f xs)

length-added_headers :
    (tracestate : String) (traced closed : Bool)
    → length (added_headers tracestate traced closed) ≤ 2
length-added_headers tracestate true true = omega arith
length-added_headers tracestate true false = omega arith
length-added_headers tracestate false true = omega arith
length-added_headers tracestate false false = omega arith

pub all_lines :
    (headers : List Header)
    → all is_header headers ≡ true
    → (all is_line (map line_of headers) ≡ true) × (all is_field (map line_of headers) ≡ true)
all_lines [] h = (refl, refl)
all_lines ((name, value) ∷ headers) h =
    let (line, field) = line_of-IsLine name value (ground arith) in
    let (lines, fields) = all_lines headers (ground arith) in
    (rw (line, lines) refl, rw (field, fields) refl)

-- The lines of the new head, as headers.
new_lines :
    (tracestate request_line : String) (headers : List Header)
    → nowhere is_unprintable tracestate ≡ true
    → kind request_line ≡ other
    → all is_header headers ≡ true
    → (closed : Bool) × (map (new_line tracestate) (request_line ∷ map line_of headers)
          ++ (added_lines tracestate (request_line ∷ map line_of headers) ++ "" ∷ [])
        ≡ request_line
          ∷ (map line_of (
                map (new_header tracestate) headers
                ++ added_headers tracestate (any is_trace_header headers) closed)
              ++ "" ∷ []))
new_lines tracestate request_line headers printable is_kind h =
    let closed =
      any is_connection (request_line ∷ map line_of headers)
      || any is_upgrade (request_line ∷ map line_of headers) in
    let traced = any is_trace_header headers in
    let news = map (new_header tracestate) headers in
    let added = added_headers tracestate traced closed in
    let first : new_line tracestate request_line ≡ request_line =
      ap (new_of tracestate request_line) is_kind in
    let any_traced : any is_trace (request_line ∷ map line_of headers) ≡ traced =
      ap (λ k. trace_kind k || any is_trace (map line_of headers)) is_kind ∙ any_trace headers h in
    let more : added_lines tracestate (request_line ∷ map line_of headers) ≡ map line_of added =
      ap
        (λ a.
          (if a then [] else append "tracestate: " tracestate ∷ [])
          ++ (if closed then [] else "connection: close" ∷ []))
        any_traced
      ∙ added_headers-lines tracestate traced closed in
    (
      closed,
      (λ i. (first i ∷ (new_headers-all tracestate headers printable h).1 i) ++ (more i ++ "" ∷ []))
          ∙ ap (λ l. request_line ∷ l)
              (sym (append_assoc (map line_of news) (map line_of added) ("" ∷ []))
                ∙ ap (λ l. l ++ "" ∷ []) (sym (map-append line_of news added))),
    )

module _ (parser : HeadParser) (laws : ParserLaws parser) (uuid_text : Uuid → String)
    (parse_str : String → Option Uuid) (uuid_laws : UuidLaws uuid_text parse_str) where
  abbrev own : Uuid → String
  own id = append entry_key (uuid_text id)

  own_environment : (id : Uuid) → extract_lapdev_environment_id parse_str (some (own id)) ≡ some id
  own_environment id =
      extract-entry parse_str (uuid_text id) (uuid_laws.spaceless id) (uuid_laws.unlisted id)
      ∙ uuid_laws.read_back id

  -- What a trace state of the new head names.
  behind :
      (id : Uuid) (o : Option Header)
      → extract_lapdev_environment_id parse_str (some (value_behind (own id) o))
        ≡ or_else (value_environment parse_str o) (some id)
  behind id none = own_environment id
  behind id (some (name, value)) = elim (Bool-cases (is_empty (trim value))) [
    | inl empty ↦ rw empty (
        own_environment id
        ∙ sym (
            ap (λ o. or_else o (some id))
              (ap (λ s. extract_lapdev_environment_id parse_str (some s))
                  (empty_text (trim value) empty)
                ∙ extract-empty parse_str)))
    | inr full ↦ rw full (
        extract-append parse_str (trim value) (own id)
        ∙ ap (or_else (extract_lapdev_environment_id parse_str (some (trim value))))
            (own_environment id))
  ]

  -- A request for a preview goes on with a head that names its environment: what the sidecar reads of
  -- it is the environment of the preview, unless the first trace state of the request names one already,
  -- and then it is that one. The request has a request line that the parser accepts and at most 62
  -- headers, each with a name of letters, digits and dashes and a printable value.
  pub add_environment_id_to_headers-routes :
      (request_line body_part : String) (headers : List Header) (id : Uuid)
      → parser.accepts request_line ≡ true
      → all is_header headers ≡ true
      → length headers ≤ 62
      → (read : List Header) × (parser.parse_headers
            (add_environment_id_to_headers (head_of request_line headers) body_part (uuid_text id))
          ≡ some read)
        × ((extract_routing_context parse_str read).lapdev_environment_id
            ≡ or_else (named_environment parse_str headers) (some id))
  unfolding extract_routing_context extract_trace_context
  add_environment_id_to_headers-routes request_line body_part headers id accepted h few =
      let tracestate = append "lapdev-env-id=" (uuid_text id) in
      let printable : nowhere is_unprintable tracestate ≡ true = uuid_laws.printable id in
      let (line, field, is_kind) = laws.accepts_line request_line accepted in
      let (lines, fields) = all_lines headers h in
      let (closed, same) = new_lines tracestate request_line headers printable is_kind h in
      let traced = any is_trace_header headers in
      let news = map (new_header tracestate) headers in
      let added = added_headers tracestate traced closed in
      let valid =
        all-append is_header news added (new_headers-all tracestate headers printable h).0
          (added_headers-IsHeader tracestate traced closed printable) in
      let forwarded =
        add_environment_id_to_headers-lines (request_line ∷ map line_of headers) body_part
          (uuid_text id) (rw (line, lines) refl) (rw (field, fields) refl)
        ∙ ap (λ l. append (unlines l) body_part) same in
      (
        map trimmed (news ++ added),
        ap parser.parse_headers forwarded
            ∙ laws.reads request_line (news ++ added) body_part accepted valid (
                omega (
                  arith,
                  length-append news added,
                  length-map (new_header tracestate) headers,
                  length-added_headers tracestate traced closed,
                )),
        ap (extract_lapdev_environment_id parse_str)
              (read_behind tracestate (uuid_laws.spaceless id) headers closed)
            ∙ behind id (find is_trace_header headers),
      )
