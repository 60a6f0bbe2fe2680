-- ===== src/Log/Files/RoundTrip.antt =====
-- log.c: a log that is saved and opened again.
use maketool.Common.{
  ℕ, suc, ◌≡◌, refl, sym, ap, ◌∙◌, Bool, true, false, Option, none, some, List, [], ◌∷◌, ◌++◌,
  append_assoc, append-nil, map, All, length, ◌==◌, if◌then◌else◌, ◌>>=◌, Bytes, ltb, inl, inr,
  Option-cases,
}
use maketool.Estring.{init, append_string, append_chars, truncate}
use maketool.Task.Input.{split_line}
use maketool.Task.Input.Chunks.{cut, unfinished, concat, Short, cut_newline, cut_other}
use maketool.Filter.Types.{Filters}
use maketool.Filter.Apply.{Regexec}
use maketool.Log.Records.{LogRec}
use maketool.Log.Lines.{LogState, Surroundings, log_start_build}
use maketool.Log.Files.{
  log_save, open_round, open_loop, open_chunks, open_lines, add_lines, log_open,
}
use maketool.Log.Files.Points.{open_lines-lines, map-append}

-- No byte of a line is a newline.
abbrev pub OneLine : Bytes → Type 0
OneLine l = All (λ c. (c == b'\n') ≡ false) l

cut-line :
    (part l s : Bytes)
    → OneLine l
    → cut part (l ++ b'\n' ∷ s) ≡ ((part ++ l) ∷ (cut [] s).0, (cut [] s).1)
cut-line part [] s one =
    cut_newline part s b'\n' refl
    ∙ ap (λ x. (x ∷ (cut [] s).0, (cut [] s).1)) (sym (append-nil part))
cut-line part (c ∷ l) s (n, one) =
    cut_other part (l ++ b'\n' ∷ s) c n
    ∙ cut-line (part ++ c ∷ []) l s one
    ∙ ap (λ x. (x ∷ (cut [] s).0, (cut [] s).1)) (append_assoc part (c ∷ []) l)

cut-log_save :
    (log : List LogRec)
    → All (λ lr. OneLine lr.line) log
    → cut [] (log_save log) ≡ (map (λ lr. lr.line) log, [])
unfolding log_save
cut-log_save [] one = unfold cut in refl
cut-log_save (lr ∷ log) (h, one) =
    cut-line [] lr.line (log_save log) h ∙ ap (λ r. (lr.line ∷ r.0, r.1)) (cut-log_save log one)

map-map :
    (log : List LogRec)
    → map (λ l. some l) (map (λ lr. lr.line) log) ++ [] ≡ map (λ lr. some lr.line) log
map-map [] = refl
map-map (lr ∷ log) = ap (λ x. some lr.line ∷ x) (map-map log)

-- What log_open does with the file of log_save is to start a build and to give the lines of the records
-- to log_add_line in their order, if no line has a newline, the first line is not empty, and no chunk that fread
-- gives has more than 1023 bytes of one line.
pub log_open-log_save :
    (regexec : Regexec) (fs : Filters) (env : Surroundings) (startstr : Bytes) (st : LogState)
    → (log : List LogRec) (c : ℕ) (s : Bytes) (bufs : List Bytes) → All (λ lr. OneLine lr.line) log
    → concat ((c ∷ s) ∷ bufs) ≡ log_save log
    → (c == b'\n') ≡ false
    → All (λ b. Short (cut [] b)) ((c ∷ s) ∷ bufs)
    → log_open regexec fs env startstr ((c ∷ s) ∷ bufs) st ≡ (
        log_start_build env startstr st >>= λ started.
        add_lines regexec fs env (map (λ lr. some lr.line) log) started)
unfolding log_open
log_open-log_save regexec fs env startstr st log c s bufs one file h short =
    let read : open_lines ((c ∷ s) ∷ bufs) ≡ some (map (λ lr. some lr.line) log) =
      open_lines-lines c s bufs h short
      ∙ ap (λ r. some (map (λ l. some l) (r.0 ++ unfinished r.1)))
          (ap (cut []) file ∙ cut-log_save log one)
      ∙ ap (λ x. some x) (sym (map-append (map (λ lr. lr.line) log) []) ∙ map-map log) in
    rw read refl

-- The pointers of log_open, the first of which is null.
abbrev NullFirst : Option (List (Option Bytes)) → Type 0
NullFirst o =
    (regexec : Regexec) (fs : Filters) (env : Surroundings) (st : LogState)
    → (o >>= λ ptrs. add_lines regexec fs env ptrs st) ≡ none

null-first :
    (b : Bool) (xs ys : List (Option Bytes)) → NullFirst (some (if b then none ∷ xs else none ∷ ys))
unfolding add_lines
null-first true xs ys regexec fs env st = refl
null-first false xs ys regexec fs env st = refl

open_lines-newline : (s : Bytes) (bufs : List Bytes) → NullFirst (open_lines ((b'\n' ∷ s) ∷ bufs))
unfolding open_lines open_chunks open_loop open_round split_line append_string append_chars
open_lines-newline s bufs regexec fs env st =
    elim (Option-cases (open_loop (suc (length s)) s (truncate init))) [
      | inl n ↦ rw n refl
      | inr ((ptrs, e), n) ↦ elim (Option-cases (open_chunks bufs e)) [
        | inl n2 ↦ rw n (rw n2 refl)
        | inr ((more, e2), n2) ↦ rw n (
            rw n2 (
              null-first (ltb 0 e2.length_) ((ptrs ++ more) ++ e2.data_ ∷ []) (ptrs ++ more) regexec
                fs env st))
      ]
    ]

-- Where the first byte of a file is a newline, log_open gives a null pointer to log_add_line.
pub log_open_newline :
    (regexec : Regexec) (fs : Filters) (env : Surroundings) (startstr s : Bytes) (bufs : List Bytes)
    (st : LogState)
    → log_open regexec fs env startstr ((b'\n' ∷ s) ∷ bufs) st ≡ none
unfolding log_open
log_open_newline regexec fs env startstr s bufs st =
    elim (Option-cases (log_start_build env startstr st)) [
      | inl n ↦ rw n refl
      | inr (started, n) ↦ rw n (open_lines-newline s bufs regexec fs env started)
    ]
