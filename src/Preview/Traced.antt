-- ===== src/Preview/Traced.antt =====
-- crates/kube/src/http_proxy.rs: the headers that go on to the cluster, and the trace state that is read
-- of them.
use Prim.Native.Char.{Char}
use lapdev.Base.{
  ℕ, ◌≡◌, refl, sym, ap, ◌∙◌, String, Bool, true, false, Bool-cases, inl, inr, Option, none, some,
  List, [], ◌∷◌, ◌++◌, map, arith, nat_key, if◌then◌else◌, any, all, find,
}
use lapdev.Base.Text.{
  append, nowhere, is_char, is_empty, is_whitespace, trim, trim_end, skip, lower_starts_with,
  lower_contains, eq_ignore_ascii_case,
}
use lapdev.Base.Text.Splits.{nowhere-append, trim-nowhere}
use lapdev.Sidecar.Headers.{Header, get_header_value}
use lapdev.Preview.Requests.{with_tracestate}
use lapdev.Preview.Fields.{
  is_unprintable, is_unnamed, is_header, line_of, trim-keeps, trim_end-append, trim_start-trim,
  lower_starts_with-line_of, skip-line_of,
}
use lapdev.Preview.Notes.{
  with_tracestate-states, is_field, trace, connection, upgrade, other, kind, trace_kind, is_trace,
  new_of, new_line,
}
use lapdev.Preview.Lines.{is_line}

abbrev pub trimmed : Header → Header
trimmed (name, value) = (name, trim value)

abbrev pub is_trace_header : Header → Bool
is_trace_header (name, value) = eq_ignore_ascii_case name "tracestate"

-- The trace state that a header goes on with.
abbrev pub new_value : String → String → String
new_value tracestate value =
    let existing_value = trim value in
    if is_empty existing_value then tracestate else append existing_value (append "," tracestate)

abbrev pub new_header : String → Header → Header
new_header tracestate (name, value) =
    if eq_ignore_ascii_case name "tracestate"
    then ("tracestate", append " " (new_value tracestate value))
    else if eq_ignore_ascii_case name "connection"
    then (if lower_contains (line_of (name, value)) "upgrade"
        then (name, value)
        else ("connection", " close"))
    else (name, value)

untraced :
    (c u : Bool) → trace_kind (if c then connection else if u then upgrade else other) ≡ false
untraced true u = refl
untraced false true = refl
untraced false false = refl

module _ (name value : String) (h : is_header (name, value) ≡ true) where
  plain : nowhere is_unnamed name ≡ true
  plain = ground arith

  trace_line :
      lower_starts_with (line_of (name, value)) "tracestate:"
      ≡ eq_ignore_ascii_case name "tracestate"
  trace_line = lower_starts_with-line_of name value "tracestate" plain refl refl

  connection_line :
      lower_starts_with (line_of (name, value)) "connection:"
      ≡ eq_ignore_ascii_case name "connection"
  connection_line = lower_starts_with-line_of name value "connection" plain refl refl

  is_trace-line_of : is_trace (line_of (name, value)) ≡ eq_ignore_ascii_case name "tracestate"
  is_trace-line_of = elim (Bool-cases (eq_ignore_ascii_case name "tracestate")) [
    | inl t ↦
        let is_kind : kind (line_of (name, value)) ≡ trace = rw (trace_line, t) refl in
        ap trace_kind is_kind ∙ sym t
    | inr t ↦ rw t (
        rw (trace_line, t, kind)
          (untraced (lower_starts_with (line_of (name, value)) "connection:")
            (lower_starts_with (line_of (name, value)) "upgrade:")))
  ]

  kept :
      (b : Bool)
      → (if b then line_of (name, value) else "connection: close")
        ≡ line_of (if b then (name, value) else ("connection", " close"))
  kept true = refl
  kept false = refl

  with_tracestate-line_of :
      (tracestate : String)
      → eq_ignore_ascii_case name "tracestate" ≡ true
      → with_tracestate tracestate (line_of (name, value))
        ≡ line_of ("tracestate", append " " (new_value tracestate value))
  unfolding with_tracestate
  with_tracestate-line_of tracestate t =
      let same : skip 11 (line_of (name, value)) ≡ value = skip-line_of name value "tracestate" t in
      elim (Bool-cases (is_empty (trim value))) [
        | inl empty ↦ rw (same, empty) refl
        | inr full ↦ rw (same, full) refl
      ]

  new_line-line_of :
      (tracestate : String)
      → new_line tracestate (line_of (name, value)) ≡ line_of (new_header tracestate (name, value))
  new_line-line_of tracestate =
      let line = line_of (name, value) in
      elim (Bool-cases (eq_ignore_ascii_case name "tracestate")) [
        | inl t ↦
            let is_kind : kind line ≡ trace = rw (trace_line, t) refl in
            ap (new_of tracestate line) is_kind
            ∙ sym (with_tracestate-states tracestate line)
            ∙ with_tracestate-line_of tracestate t
            ∙ rw t refl
        | inr t ↦ elim (Bool-cases (eq_ignore_ascii_case name "connection")) [
          | inl c ↦
              let is_kind : kind line ≡ connection = rw (trace_line, t, connection_line, c) refl in
              ap (new_of tracestate line) is_kind ∙ rw (t, c) (kept (lower_contains line "upgrade"))
          | inr c ↦ elim (Bool-cases (lower_starts_with line "upgrade:")) [
            | inl u ↦
                let is_kind : kind line ≡ upgrade =
                  rw (trace_line, t, connection_line, c, u) refl in
                ap (new_of tracestate line) is_kind ∙ rw (t, c) refl
            | inr u ↦
                let is_kind : kind line ≡ other = rw (trace_line, t, connection_line, c, u) refl in
                ap (new_of tracestate line) is_kind ∙ rw (t, c) refl
          ]
        ]
      ]

new_header-IsHeader :
    (tracestate : String) (header : Header)
    → nowhere is_unprintable tracestate ≡ true
    → is_header header ≡ true
    → is_header (new_header tracestate header) ≡ true
new_header-IsHeader tracestate (name, value) printable h =
    let clean : nowhere is_unprintable value ≡ true = ground arith in
    let kept = trim-keeps is_unprintable value clean in
    elim (Bool-cases (eq_ignore_ascii_case name "tracestate")) [
      | inl t ↦ elim (Bool-cases (is_empty (trim value))) [
        | inl empty ↦ rw (t, empty) printable
        | inr full ↦
            rw (t, full)
              (nowhere-append is_unprintable (trim value) (append "," tracestate) kept printable)
      ]
      | inr t ↦ elim (Bool-cases (eq_ignore_ascii_case name "connection")) [
        | inl c ↦ elim (Bool-cases (lower_contains (line_of (name, value)) "upgrade")) [
          | inl u ↦ rw (t, c, u) h
          | inr u ↦ rw (t, c, u) refl
        ]
        | inr c ↦ rw (t, c) h
      ]
    ]

-- The new headers of a request, and what is read of their trace state.
pub new_headers-all :
    (tracestate : String) (headers : List Header)
    → nowhere is_unprintable tracestate ≡ true
    → all is_header headers ≡ true
    → (all is_header (map (new_header tracestate) headers) ≡ true)
      × (map (new_line tracestate) (map line_of headers)
          ≡ map line_of (map (new_header tracestate) headers))
new_headers-all tracestate [] printable h = (refl, refl)
new_headers-all tracestate (header ∷ headers) printable h =
    let here : is_header header ≡ true = ground arith in
    let more : all is_header headers ≡ true = ground arith in
    let (rest, lines) = new_headers-all tracestate headers printable more in
    let first = new_header-IsHeader tracestate header printable here in
    (rw (first, rest) refl, λ i. new_line-line_of header.0 header.1 here tracestate i ∷ lines i)

abbrev pub added_headers : String → Bool → Bool → List Header
added_headers tracestate traced closed =
    (if traced then [] else ("tracestate", append " " tracestate) ∷ [])
    ++ (if closed then [] else ("connection", " close") ∷ [])

pub added_headers-lines :
    (tracestate : String) (traced closed : Bool)
    → ((if traced then [] else append "tracestate: " tracestate ∷ [])
        ++ (if closed then [] else "connection: close" ∷ []))
      ≡ map line_of (added_headers tracestate traced closed)
added_headers-lines tracestate true true = refl
added_headers-lines tracestate true false = refl
added_headers-lines tracestate false true = refl
added_headers-lines tracestate false false = refl

pub added_headers-IsHeader :
    (tracestate : String) (traced closed : Bool)
    → nowhere is_unprintable tracestate ≡ true
    → all is_header (added_headers tracestate traced closed) ≡ true
added_headers-IsHeader tracestate true true h = refl
added_headers-IsHeader tracestate true false h = refl
added_headers-IsHeader tracestate false true h = rw h refl
added_headers-IsHeader tracestate false false h = rw h refl

pub any_trace :
    (headers : List Header)
    → all is_header headers ≡ true
    → any is_trace (map line_of headers) ≡ any is_trace_header headers
any_trace [] h = refl
any_trace ((name, value) ∷ headers) h =
    rw (is_trace-line_of name value (ground arith), any_trace headers (ground arith)) refl

-- The trace state that is read behind the proxy, of the first header that had one.
abbrev pub value_behind : String → Option Header → String
value_behind tracestate none = tracestate
value_behind tracestate (some (name, value)) = new_value tracestate value

module _ (tracestate : String) (spaceless : nowhere is_whitespace tracestate ≡ true) where
  trim-new_value :
      (value : String) → trim (append " " (new_value tracestate value)) ≡ new_value tracestate value
  trim-new_value value = elim (Bool-cases (is_empty (trim value))) [
    | inl empty ↦ rw empty (trim-nowhere tracestate spaceless)
    | inr full ↦ rw full (
        ap trim_end (trim_start-trim value (append "," tracestate) full)
        ∙ trim_end-append (trim value) "," tracestate spaceless)
  ]

  pub read_behind :
      (headers : List Header) (closed : Bool)
      → get_header_value
          (map trimmed (
            map (new_header tracestate) headers
            ++ added_headers tracestate (any is_trace_header headers) closed))
          "tracestate"
        ≡ some (value_behind tracestate (find is_trace_header headers))
  unfolding get_header_value eq_ignore_ascii_case
  read_behind [] closed = ap some (trim-nowhere tracestate spaceless)
  read_behind ((name, value) ∷ headers) closed =
      elim (Bool-cases (eq_ignore_ascii_case name "tracestate")) [
        | inl t ↦ rw t (ap some (trim-new_value value))
        | inr t ↦ elim (Bool-cases (eq_ignore_ascii_case name "connection")) [
          | inl c ↦ elim (Bool-cases (lower_contains (line_of (name, value)) "upgrade")) [
            | inl u ↦ rw (t, c, u, t) (read_behind headers closed)
            | inr u ↦ rw (t, c, u) (read_behind headers closed)
          ]
          | inr c ↦ rw (t, c, t) (read_behind headers closed)
        ]
      ]

pub nowhere-weaken :
    (p q : Char → Bool)
    → ((c : Char) → p c ≡ false → q c ≡ false)
    → (s : String) → nowhere p s ≡ true
    → nowhere q s ≡ true
nowhere-weaken p q weaker String.[] h = refl
nowhere-weaken p q weaker (String.◌∷◌ c s) h = ground (arith, weaker c, nowhere-weaken p q weaker s)

filled :
    (name value : String) → is_empty name ≡ false → is_field (append name (append ":" value)) ≡ true
filled String.[] value h = cc
filled (String.◌∷◌ c name) value h = refl

pub line_of-IsLine :
    (name value : String)
    → is_header (name, value) ≡ true
    → (is_line (line_of (name, value)) ≡ true) × (is_field (line_of (name, value)) ≡ true)
line_of-IsLine name value h =
    let named : nowhere is_unnamed name ≡ true = ground arith in
    let clean : nowhere is_unprintable value ≡ true = ground arith in
    let ends =
      λ (mark : ℕ) (in_name : (c : Char) → is_unnamed c ≡ false → is_char mark c ≡ false)
          (in_value : (c : Char) → is_unprintable c ≡ false → is_char mark c ≡ false)
          (colon : is_char mark ":" ≡ false).
        nowhere-append (is_char mark) name (append ":" value)
          (nowhere-weaken is_unnamed (is_char mark) in_name name named)
          (rw (colon, nowhere-weaken is_unprintable (is_char mark) in_value value clean) refl) in
    (
      rw
          (
            ends 10 (λ c k. ground arith) (λ c k. ground arith) refl,
            ends 13 (λ c k. ground arith) (λ c k. ground arith) refl,
          )
          refl,
      filled name value (ground arith),
    )
