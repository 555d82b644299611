-- ===== src/Preview/Lines.antt =====
-- crates/kube/src/http_proxy.rs: the lines of a head, and its text.
use lapdev.Base.{
  ◌≤◌, ◌≡◌, refl, sym, ap, ◌∙◌, String, Bool, true, ◌&&◌, List, [], ◌∷◌, ◌++◌, arith, nat_key, all,
  length,
}
use lapdev.Base.Text.{append, nowhere, is_char, split}
use lapdev.Base.Text.Splits.{split-append, split-nowhere, split-length, nowhere-append}
use mathlib.Core.List.{append-nil}
use lapdev.Preview.Requests.{crlf, strip_return, lines_of, lines}

-- The text of a head: its lines, each with its end.
abbrev pub unlines : List String → String
unlines [] = ""
unlines (line ∷ rest) = append line (append crlf (unlines rest))

-- A line without an end in it.
abbrev pub is_line : String → Bool
is_line line = nowhere (is_char 10) line && nowhere (is_char 13) line

pub append_assoc : (s t u : String) → append (append s t) u ≡ append s (append t u)
append_assoc String.[] t u = refl
append_assoc (String.◌∷◌ c s) t u = ap (String.◌∷◌ c) (append_assoc s t u)

pub strip_return-append :
    (s : String) → nowhere (is_char 13) s ≡ true → strip_return (append s "\r") ≡ s
unfolding strip_return
strip_return-append String.[] h = refl
strip_return-append (String.◌∷◌ c s) h = ground (arith, strip_return-append s)

pub lines_of-cons :
    (line : String) (rest : List String)
    → 1 ≤ length rest
    → lines_of (line ∷ rest) ≡ strip_return line ∷ lines_of rest
unfolding lines_of
lines_of-cons line [] h = absurd (omega arith)
lines_of-cons line (next ∷ rest) h = refl

pub append_nil : (s : String) → append s "" ≡ s
append_nil String.[] = refl
append_nil (String.◌∷◌ c s) = ap (String.◌∷◌ c) (append_nil s)

-- The lines of a text that begins with a head are those of the head and of the rest.
pub lines-append :
    (ls : List String) (rest : String)
    → all is_line ls ≡ true
    → lines (append (unlines ls) rest) ≡ ls ++ lines rest
unfolding lines
lines-append [] rest h = refl
lines-append (line ∷ ls) rest h =
    let here : nowhere (is_char 10) line ≡ true = ground arith in
    let plain : nowhere (is_char 13) line ≡ true = ground arith in
    let more : all is_line ls ≡ true = ground arith in
    let tail = append (unlines ls) rest in
    ap lines_of (
      ap (split 10) (
        append_assoc line (append crlf (unlines ls)) rest
        ∙ sym (append_assoc line "\r" (append "\n" tail)))
      ∙ split-append "\n" (append line "\r") tail
      ∙ ap (λ parts. parts ++ split 10 tail)
          (split-nowhere 10 (append line "\r") (nowhere-append (is_char 10) line "\r" here refl)))
    ∙ lines_of-cons (append line "\r") (split 10 tail) (split-length 10 tail)
    ∙ rw (strip_return-append line plain) (ap (List.◌∷◌ line) (lines-append ls rest more))

pub no_lines : lines "" ≡ []
unfolding lines lines_of split
no_lines = refl

-- The lines of a text are those it was made of.
pub lines-unlines : (ls : List String) → all is_line ls ≡ true → lines (unlines ls) ≡ ls
lines-unlines ls h =
    ap lines (sym (append_nil (unlines ls)))
    ∙ lines-append ls "" h
    ∙ ap (λ l. ls ++ l) no_lines
    ∙ append-nil ls

pub unlines-append : (xs ys : List String) → unlines (xs ++ ys) ≡ append (unlines xs) (unlines ys)
unlines-append [] ys = refl
unlines-append (x ∷ xs) ys =
    ap (λ s. append x (append crlf s)) (unlines-append xs ys)
    ∙ ap (append x) (sym (append_assoc crlf (unlines xs) (unlines ys)))
    ∙ sym (append_assoc x (append crlf (unlines xs)) (unlines ys))

pub all-append {ℓ} :
    {A : Type ℓ} (p : A → Bool) (xs ys : List A)
    → all p xs ≡ true
    → all p ys ≡ true
    → all p (xs ++ ys) ≡ true
all-append p [] ys h k = k
all-append p (x ∷ xs) ys h k = ground (arith, all-append p xs ys)
