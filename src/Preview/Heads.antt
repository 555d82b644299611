-- ===== src/Preview/Heads.antt =====
-- crates/kube/src/http_proxy.rs: the head that goes on to the cluster, line by line.

use lapdev.Base.{
  ◌≡◌, refl, sym, ap, ◌∙◌, String, Bool, true, false, ◌||◌, List, [], ◌∷◌, ◌++◌, map, nat_key,
  if◌then◌else◌, any, all,
}
use lapdev.Base.Text.{append, lower_starts_with}
use lapdev.Preview.Requests.{
  crlf, finish, rewrite_line, rewrite_lines, lines, complete_head, empty_head,
  add_environment_id_to_headers,
}
use lapdev.Preview.Lines.{unlines, is_line, append_assoc, lines-unlines, unlines-append, all-append}
use lapdev.Preview.Notes.{
  is_trace, is_connection, is_upgrade, new_line, added_lines, noted_all, rewrite_lines-append,
  is_field, rewrite_lines-noted,
}

abbrev if_missing : Bool → String → List String
if_missing there line = if there then [] else line ∷ []

traced_line :
    (tracestate rest : String)
    → append (append "tracestate: " (append tracestate crlf)) rest
      ≡ append (append "tracestate: " tracestate) (append crlf rest)
traced_line tracestate rest = ap (append "tracestate: ") (append_assoc tracestate crlf rest)

-- The end of a head, from any state.
finished :
    (tracestate text : String) (traced written upgraded : Bool)
    → (complete_head tracestate (
        finish tracestate (record {
          modified_headers = text;
          tracestate_added = traced;
          connection_header_written = written;
          is_upgrade_request = upgraded;
        }))).modified_headers
      ≡ append text (
          unlines (
            (if_missing traced (append "tracestate: " tracestate)
              ++ if_missing (written || upgraded) "connection: close")
            ++ "" ∷ []))
finished tracestate text true true upgraded = refl
finished tracestate text true false true = refl
finished tracestate text true false false = append_assoc text "connection: close\r\n" crlf
finished tracestate text false true upgraded =
    append_assoc text _ crlf ∙ ap (append text) (traced_line tracestate crlf)
finished tracestate text false false true =
    append_assoc text _ crlf ∙ ap (append text) (traced_line tracestate crlf)
finished tracestate text false false false =
    ap (λ s. append s crlf) (append_assoc text _ "connection: close\r\n")
    ∙ append_assoc text _ crlf
    ∙ ap (append text) (
        append_assoc (append "tracestate: " (append tracestate crlf)) "connection: close\r\n" crlf
        ∙ traced_line tracestate (append "connection: close\r\n" crlf))

-- The head that goes on has the lines of the request in their order, except that each header
-- `tracestate` says what it said behind its name, if anything, less the spaces around it, then a comma and
-- the environment, and that each header `connection` which asks for no upgrade says `close`; without a header `tracestate` there is one more, and without a header
-- `connection` and an upgrade a header `connection: close`. The body stays. The lines contain no end of
-- a line, and the empty line is the last of the head.
pub add_environment_id_to_headers-lines :
    (ls : List String) (body_part environment_text : String)
    → all is_line ls ≡ true
    → all is_field ls ≡ true
    → add_environment_id_to_headers (unlines (ls ++ "" ∷ [])) body_part environment_text
      ≡ append
          (unlines (
            map (new_line (append "lapdev-env-id=" environment_text)) ls
            ++ (added_lines (append "lapdev-env-id=" environment_text) ls ++ "" ∷ [])))
          body_part
unfolding add_environment_id_to_headers
add_environment_id_to_headers-lines ls body_part environment_text plain fields =
    let t = append "lapdev-env-id=" environment_text in
    let news = map (new_line t) ls in
    let looped : rewrite_lines t (lines (unlines (ls ++ "" ∷ []))) empty_head
        ≡ rewrite_line t "" (noted_all t ls empty_head) =
      ap (λ l. rewrite_lines t l empty_head)
        (lines-unlines (ls ++ "" ∷ []) (all-append is_line ls _ plain refl))
      ∙ rewrite_lines-append t ls ("" ∷ []) empty_head
      ∙ ap (λ r. rewrite_lines t ("" ∷ []) r) (rewrite_lines-noted t ls empty_head fields) in
    let ended : rewrite_line t "" (noted_all t ls empty_head)
        ≡ finish t (noted_all t ls empty_head) =
      unfold rewrite_line lower_starts_with in refl in
    ap (λ r. append (complete_head t r).modified_headers body_part) (looped ∙ ended)
    ∙ ap (λ s. append s body_part)
        (finished t (unlines news) (any is_trace ls) (any is_connection ls) (any is_upgrade ls)
          ∙ sym (unlines-append news (added_lines t ls ++ "" ∷ [])))
