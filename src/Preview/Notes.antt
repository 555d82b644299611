-- ===== src/Preview/Notes.antt =====
-- crates/kube/src/http_proxy.rs: what is written for a line of a head, and what is noted of it.
use lapdev.Base.{
  ◌≡◌, refl, sym, ap, ◌∙◌, String, Bool, true, false, not, ◌||◌, Bool-cases, inl, inr, List, [],
  ◌∷◌, ◌++◌, map, arith, nat_key, if◌then◌else◌, any, all,
}
use lapdev.Base.Text.{append, trim, skip, join, is_empty, lower_starts_with, lower_contains}
use lapdev.Preview.Requests.{Rewriting, crlf, with_tracestate, rewrite_line, rewrite_lines}
use lapdev.Preview.Lines.{unlines, append_assoc, append_nil}

-- What the code does with a line, by how it begins.
pub data Kind : Type 0 where
  trace connection upgrade other : Kind

abbrev pub kind : String → Kind
kind line =
    if lower_starts_with line "tracestate:"
    then trace
    else if lower_starts_with line "connection:"
    then connection
    else if lower_starts_with line "upgrade:"
    then upgrade
    else other

abbrev pub trace_kind : Kind → Bool
trace_kind trace = true
trace_kind connection = false
trace_kind upgrade = false
trace_kind other = false

abbrev pub is_trace : String → Bool
is_trace line = trace_kind (kind line)

abbrev pub is_connection : String → Bool
is_connection line = elim (kind line) [ connection ↦ true | _ ↦ false ]

abbrev pub is_upgrade : String → Bool
is_upgrade line = elim (kind line) [
  | connection ↦ lower_contains line "upgrade"
  | upgrade ↦ true
  | _ ↦ false
]

-- The trace state of a header `tracestate`: what stands behind its name, if anything does, and then the
-- environment.
abbrev pub states : String → String → List String
states tracestate line =
    let had = trim (skip 11 line) in
    if is_empty had then tracestate ∷ [] else had ∷ (tracestate ∷ [])

pub with_tracestate-states :
    (tracestate line : String)
    → with_tracestate tracestate line ≡ append "tracestate: " (join "," (states tracestate line))
unfolding with_tracestate join
with_tracestate-states tracestate line = elim (Bool-cases (is_empty (trim (skip 11 line)))) [
  | inl none_there ↦ rw none_there refl
  | inr had ↦ rw had refl
]

abbrev pub new_of : String → String → Kind → String
new_of tracestate line trace = append "tracestate: " (join "," (states tracestate line))
new_of tracestate line connection =
    if lower_contains line "upgrade" then line else "connection: close"
new_of tracestate line upgrade = line
new_of tracestate line other = line

abbrev pub new_line : String → String → String
new_line tracestate line = new_of tracestate line (kind line)

-- The lines that stand before the empty line in addition.
abbrev pub added_lines : String → List String → List String
added_lines tracestate ls =
    (if any is_trace ls then [] else append "tracestate: " tracestate ∷ [])
    ++ (if any is_connection ls || any is_upgrade ls then [] else "connection: close" ∷ [])

abbrev pub noted : String → String → Rewriting → Rewriting
noted tracestate line r = record {
  modified_headers = append r.modified_headers (append (new_line tracestate line) crlf);
  tracestate_added = r.tracestate_added || is_trace line;
  connection_header_written = r.connection_header_written || is_connection line;
  is_upgrade_request = r.is_upgrade_request || is_upgrade line;
}

pub or_false : (b : Bool) → (b || false) ≡ b
or_false true = refl
or_false false = refl

pub or_true : (b : Bool) → (b || true) ≡ true
or_true true = refl
or_true false = refl

pub rewrite_line-noted :
    (tracestate line : String) (r : Rewriting)
    → is_empty line ≡ false
    → rewrite_line tracestate line r ≡ noted tracestate line r
unfolding rewrite_line
rewrite_line-noted tracestate line r h = elim (Bool-cases (lower_starts_with line "tracestate:")) [
  | inl t ↦ rw (t, with_tracestate-states tracestate line) (ground arith)
  | inr t ↦ elim (Bool-cases (lower_starts_with line "connection:")) [
    | inl c ↦ elim (Bool-cases (lower_contains line "upgrade")) [
      | inl u ↦ rw (t, c, u) (ground arith)
      | inr u ↦
          let is_kind : kind line ≡ connection = rw (t, c) refl in
          let written : append (new_line tracestate line) crlf ≡ "connection: close\r\n" =
            ap (λ k. append (new_of tracestate line k) crlf) is_kind ∙ rw u refl in
          rw (t, c, u) (ground arith)
    ]
    | inr c ↦ elim (Bool-cases (lower_starts_with line "upgrade:")) [
      | inl u ↦ rw (t, c, u) (ground arith)
      | inr u ↦ rw (t, c, u, h) (ground arith)
    ]
  ]
]

-- What a loop over lines leaves, from any state.
abbrev pub noted_all : String → List String → Rewriting → Rewriting
noted_all tracestate ls r = record {
  modified_headers = append r.modified_headers (unlines (map (new_line tracestate) ls));
  tracestate_added = r.tracestate_added || any is_trace ls;
  connection_header_written = r.connection_header_written || any is_connection ls;
  is_upgrade_request = r.is_upgrade_request || any is_upgrade ls;
}

pub rewrite_lines-append :
    (tracestate : String) (xs ys : List String) (r : Rewriting)
    → rewrite_lines tracestate (xs ++ ys) r
      ≡ rewrite_lines tracestate ys (rewrite_lines tracestate xs r)
unfolding rewrite_lines
rewrite_lines-append tracestate [] ys r = refl
rewrite_lines-append tracestate (x ∷ xs) ys r =
    rewrite_lines-append tracestate xs ys (rewrite_line tracestate x r)

pub or_assoc : (a b c : Bool) → ((a || b) || c) ≡ (a || (b || c))
or_assoc true b c = refl
or_assoc false b c = refl

pub same :
    {s s' : String} {a a' b b' c c' : Bool}
    → s ≡ s'
    → a ≡ a'
    → b ≡ b'
    → c ≡ c'
    → Path Rewriting
        (record {
          modified_headers = s;
          tracestate_added = a;
          connection_header_written = b;
          is_upgrade_request = c;
        })
        (record {
          modified_headers = s';
          tracestate_added = a';
          connection_header_written = b';
          is_upgrade_request = c';
        })
same p q r t = λ i. record {
  modified_headers = p i;
  tracestate_added = q i;
  connection_header_written = r i;
  is_upgrade_request = t i;
}

pub noted_all-cons :
    (tracestate line : String) (ls : List String) (r : Rewriting)
    → noted_all tracestate ls (noted tracestate line r) ≡ noted_all tracestate (line ∷ ls) r
noted_all-cons tracestate line ls r =
    let text =
      append_assoc r.modified_headers (append (new_line tracestate line) crlf)
        (unlines (map (new_line tracestate) ls))
      ∙ ap (append r.modified_headers)
          (append_assoc (new_line tracestate line) crlf (unlines (map (new_line tracestate) ls))) in
    same text (or_assoc r.tracestate_added (is_trace line) (any is_trace ls))
      (or_assoc r.connection_header_written (is_connection line) (any is_connection ls))
      (or_assoc r.is_upgrade_request (is_upgrade line) (any is_upgrade ls))

abbrev pub is_field : String → Bool
is_field line = not (is_empty line)

pub rewrite_lines-noted :
    (tracestate : String) (ls : List String) (r : Rewriting)
    → all is_field ls ≡ true
    → rewrite_lines tracestate ls r ≡ noted_all tracestate ls r
unfolding rewrite_lines
rewrite_lines-noted tracestate [] r h =
    same (sym (append_nil r.modified_headers)) (sym (or_false r.tracestate_added))
      (sym (or_false r.connection_header_written)) (sym (or_false r.is_upgrade_request))
rewrite_lines-noted tracestate (line ∷ ls) r h =
    let here : is_empty line ≡ false = ground arith in
    let more : all is_field ls ≡ true = ground arith in
    ap (rewrite_lines tracestate ls) (rewrite_line-noted tracestate line r here)
    ∙ rewrite_lines-noted tracestate ls (noted tracestate line r) more
    ∙ noted_all-cons tracestate line ls r
