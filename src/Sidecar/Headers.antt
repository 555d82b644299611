-- ===== src/Sidecar/Headers.antt =====
-- crates/kube-sidecar-proxy/src/otel_routing.rs: what the headers of a request say about its route.
-- `Uuid::parse_str` is a parameter. `to_lowercase` is only compared with a text whose characters are
-- the lower case of ASCII letters alone.
pub mod TraceState
use Prim.Native.String.{[], ◌∷◌}
use lapdev.Base.{
  ℕ, String, Bool, true, false, ◌||◌, Option, none, some, List, ◌==◌, string_key, if◌then◌else◌,
  find, length,
}
use mathlib.Core.List
use lapdev.Base.Map
use lapdev.Base.Map.{Map, map_some, is_some, insert}
use lapdev.Base.Text.{trim, split, split_once, eq_ignore_ascii_case, strip_prefix}
use lapdev.Sidecar.Types.{Uuid}

abbrev pub Header : Type 0
Header = String × String

abbrev pub traceparent_header : String
traceparent_header = "traceparent"

abbrev pub tracestate_header : String
tracestate_header = "tracestate"

abbrev pub baggage_header : String
baggage_header = "baggage"

abbrev pub x_routing_key : String
x_routing_key = "x-routing-key"

abbrev pub x_service_version : String
x_service_version = "x-service-version"

abbrev pub x_canary_deployment : String
x_canary_deployment = "x-canary-deployment"

pub record TraceContext : Type 0 where
  pub trace_id : Option String
  pub span_id : Option String
  pub trace_flags : Option String
  pub trace_state : Option String
  pub baggage : Map String String

pub record RoutingContext : Type 0 where
  pub trace_context : TraceContext
  pub lapdev_environment_id : Option Uuid
  pub routing_key : Option String
  pub service_version : Option String
  pub canary_deployment : Option String
  pub custom_headers : Map String String

unfoldable pub get_header_value : List Header → String → Option String
get_header_value headers name =
    map_some (λ (h : Header). h.1) (find (λ (h : Header). eq_ignore_ascii_case h.0 name) headers)

-- Four parts between dashes, of which the last three count.
unfoldable pub parse_traceparent : String → Option (String × String × String)
parse_traceparent traceparent = elim (split 45 traceparent) [
  | List.◌∷◌ version parts ↦ elim parts [
    | List.◌∷◌ trace_id ids ↦ elim ids [
      | List.◌∷◌ parent_id flags ↦ elim flags [
        | List.◌∷◌ trace_flags more ↦ elim more [
          | List.[] ↦ some (trace_id, parent_id, trace_flags)
          | List.◌∷◌ _ _ ↦ none
        ]
        | List.[] ↦ none
      ]
      | List.[] ↦ none
    ]
    | List.[] ↦ none
  ]
  | List.[] ↦ none
]

-- Each item with an `=`, the last of a key.
unfoldable pub parse_items : List String → Map String String → Map String String
parse_items List.[] result = result
parse_items (List.◌∷◌ item items) result = parse_items items (elim (split_once 61 (trim item)) [
  | none ↦ result
  | some (key, value) ↦ insert (trim key) (trim value) result
])

unfoldable pub parse_baggage : String → Map String String
unfolding parse_items
parse_baggage baggage = parse_items (split 44 baggage) List.[]

unfoldable pub extract_trace_context : List Header → TraceContext
extract_trace_context headers =
    let parsed : Option (String × String × String) =
      elim (get_header_value headers traceparent_header) [
        | none ↦ none
        | some traceparent ↦ parse_traceparent traceparent
      ] in
    record {
      trace_id = map_some (λ (ids : String × String × String). ids.0) parsed;
      span_id = map_some (λ (ids : String × String × String). ids.1) parsed;
      trace_flags = map_some (λ (ids : String × String × String). ids.2) parsed;
      trace_state = get_header_value headers tracestate_header;
      baggage = elim (get_header_value headers baggage_header) [
        | none ↦ List.[]
        | some baggage ↦ parse_baggage baggage
      ];
    }

unfoldable pub insert_custom : List Header → Map String String → Map String String
insert_custom List.[] custom_headers = custom_headers
insert_custom (List.◌∷◌ (name, value) headers) custom_headers = insert_custom headers (
    if is_some (strip_prefix name "x-routing-")
    then insert name value custom_headers
    else custom_headers)

unfoldable pub extract_custom_headers : List Header → Map String String
unfolding insert_custom
extract_custom_headers headers = insert_custom headers List.[]

module _ (parse_str : String → Option Uuid) where
  -- The environment that an entry of a trace state names.
  unfoldable pub key_environment : Option (String × String) → Option Uuid
  key_environment none = none
  key_environment (some (key, value)) =
      if eq_ignore_ascii_case (trim key) "lapdev-env-id" then parse_str (trim value) else none

  unfoldable pub entry_environment : String → Option Uuid
  unfolding key_environment
  entry_environment entry = key_environment (split_once 61 (trim entry))

  -- `find_map`
  unfoldable pub first_environment : List String → Option Uuid
  first_environment List.[] = none
  first_environment (List.◌∷◌ entry entries) =
      let rest = first_environment entries in
      elim (entry_environment entry) [ none ↦ rest | some id ↦ some id ]

  unfoldable pub extract_lapdev_environment_id : Option String → Option Uuid
  extract_lapdev_environment_id none = none
  extract_lapdev_environment_id (some tracestate) = first_environment (split 44 tracestate)

  unfoldable pub extract_routing_context : List Header → RoutingContext
  extract_routing_context headers =
      let trace_context = extract_trace_context headers in
      record {
        trace_context = trace_context;
        lapdev_environment_id = extract_lapdev_environment_id trace_context.trace_state;
        routing_key = get_header_value headers x_routing_key;
        service_version = get_header_value headers x_service_version;
        canary_deployment = get_header_value headers x_canary_deployment;
        custom_headers = extract_custom_headers headers;
      }
