-- ===== src/Task/Input/Chunks.antt =====
-- task.c: the lines of a task and the chunks of its output.
use maketool.Common.{
  ℕ, zero, suc, ◌+◌, ◌≤◌, ◌<◌, ◌≡◌, refl, sym, ap, ◌∙◌, true, false, Option, none, some, List, [],
  ◌∷◌, ◌++◌, arith, append_assoc, append-nil, All, length, ◌==◌, if◌then◌else◌, Bytes, ltb, inl,
  inr, Bool-cases, Option-cases,
}
use mathlib.Core.Path.{subst}
use maketool.Estring.{Estring, init, text, text_of, append_string, truncate}
use maketool.Estring.Bounds.{IsValid, Fits, Fits-room, init-IsValid, append_chars_overflow}
use maketool.Estring.Text.{append_string_short, truncate_lem}
use maketool.Task.Input.{
  split_line, linemode_round, linemode_loop, task_linemode_input, task_linemode_end, task_input,
  task_lines,
}

-- The lines of a text, where `part` stands in front of it, and what follows the last newline.
unfoldable pub cut : Bytes → Bytes → List Bytes × Bytes
cut part [] = ([], part)
cut part (c ∷ s) =
    let fresh = cut [] s in
    let more = cut (part ++ c ∷ []) s in if c == b'\n' then (part ∷ fresh.0, fresh.1) else more

abbrev pub unfinished : Bytes → List Bytes
unfinished [] = []
unfinished (c ∷ s) = (c ∷ s) ∷ []

-- The lines of a text; the last one need not end in a newline.
abbrev pub lines : Bytes → List Bytes
lines s = (cut [] s).0 ++ unfinished (cut [] s).1

abbrev pub concat : List Bytes → Bytes
concat [] = []
concat (s ∷ ss) = s ++ concat ss

pub cut_newline :
    (part s : Bytes) (c : ℕ)
    → (c == b'\n') ≡ true
    → cut part (c ∷ s) ≡ (part ∷ (cut [] s).0, (cut [] s).1)
unfolding cut
cut_newline part s c y = rw y refl

pub cut_other :
    (part s : Bytes) (c : ℕ) → (c == b'\n') ≡ false → cut part (c ∷ s) ≡ cut (part ++ c ∷ []) s
unfolding cut
cut_other part s c n = rw n refl

-- Cutting `t` behind what a cut of `s` gives.
abbrev then_cut : List Bytes × Bytes → Bytes → List Bytes × Bytes
then_cut (ls, r) t = (ls ++ (cut r t).0, (cut r t).1)

pub cut-append : (part s t : Bytes) → cut part (s ++ t) ≡ then_cut (cut part s) t
cut-append part [] t = unfold cut in refl
cut-append part (c ∷ s) t = elim (Bool-cases (c == b'\n')) [
  | inl y ↦
      cut_newline part (s ++ t) c y
      ∙ ap (λ r. (part ∷ r.0, r.1)) (cut-append [] s t)
      ∙ ap (λ r. then_cut r t) (sym (cut_newline part s c y))
  | inr n ↦
      cut_other part (s ++ t) c n
      ∙ cut-append (part ++ c ∷ []) s t
      ∙ ap (λ r. then_cut r t) (sym (cut_other part s c n))
]

split_line-none : (part s : Bytes) → split_line s ≡ none → cut part s ≡ ([], part ++ s)
unfolding split_line
split_line-none part [] h = unfold cut in ap (λ r. ([], r)) (sym (append-nil part))
split_line-none part (c ∷ s) h = elim (Bool-cases (c == b'\n')) [
  | inl y ↦ absurd (cc (rw y at h))
  | inr n ↦ elim (Option-cases (split_line s)) [
    | inl e ↦
        cut_other part s c n
        ∙ split_line-none (part ++ c ∷ []) s e
        ∙ ap (λ r. ([], r)) (append_assoc part (c ∷ []) s)
    | inr (p, e) ↦ absurd (cc (rw (n, e) at h))
  ]
]

pair-injective : (p q : Bytes × Bytes) → some p ≡ some q → (p.0 ≡ q.0) × (p.1 ≡ q.1)
pair-injective p q h = (cc, cc)

-- The line in front of the first newline, and the text behind it.
abbrev FirstLine : Bytes → Bytes → Bytes → Type 0
FirstLine s line tail =
    ((part : Bytes) → cut part s ≡ ((part ++ line) ∷ (cut [] tail).0, (cut [] tail).1))
    × (length line + length tail + 1 ≡ length s)

split_line-some : (s line tail : Bytes) → split_line s ≡ some (line, tail) → FirstLine s line tail
unfolding split_line
split_line-some [] line tail h = absurd (cc)
split_line-some (c ∷ s) line tail h = elim (Bool-cases (c == b'\n')) [
  | inl y ↦
      let (a, b) = pair-injective ([], s) (line, tail) (rw y at h) in
      subst (λ l. FirstLine (c ∷ s) l tail) a
        (subst (λ t. FirstLine (c ∷ s) [] t) b
          (
            (λ part.
                cut_newline part s c y
                ∙ ap (λ l. (l ∷ (cut [] s).0, (cut [] s).1)) (sym (append-nil part))),
            omega arith,
          ))
  | inr n ↦ elim (Option-cases (split_line s)) [
    | inl e ↦ absurd (cc (rw (n, e) at h))
    | inr ((line', tail'), e) ↦
        let (a, b) = pair-injective (c ∷ line', tail') (line, tail) (rw (n, e) at h) in
        let (ih, size) = split_line-some s line' tail' e in
        subst (λ l. FirstLine (c ∷ s) l tail) a
          (subst (λ t. FirstLine (c ∷ s) (c ∷ line') t) b
            (
              (λ part.
                  cut_other part s c n
                  ∙ ih (part ++ c ∷ [])
                  ∙ ap (λ l. (l ∷ (cut [] tail').0, (cut [] tail').1))
                      (append_assoc part (c ∷ []) line')),
              omega (arith, size),
            ))
  ]
]

-- A result that agrees with a cut: the lines, and the rest in a valid `linebuf`.
abbrev pub Agrees : Option (List Bytes × Estring) → List Bytes × Bytes → Type 0
Agrees o (ls, r) = (e : Estring) × (o ≡ some (ls, e)) × (text e ≡ r) × IsValid e

-- No piece of a line in a chunk is too long for the block of `linebuf` to grow by it.
abbrev pub Short : List Bytes × Bytes → Type 0
Short (ls, r) = All (λ l. length l ≤ 1023) ls × (length r ≤ 1023)

pub linemode_loop-Agrees :
    (fuel : ℕ) (buf : Bytes) (e : Estring)
    → length buf < fuel
    → Short (cut [] buf)
    → IsValid e
    → Agrees (linemode_loop fuel buf e) (cut (text e) buf)
unfolding linemode_loop
linemode_loop-Agrees zero buf e lt short v = elim lt [ ]
linemode_loop-Agrees (suc fuel) [] e lt short v = unfold cut in (e, refl, refl, v)
linemode_loop-Agrees (suc fuel) (c ∷ s) e lt short v =
    let round = linemode_round (linemode_loop fuel) (c ∷ s) e in
    elim (Option-cases (split_line (c ∷ s))) [
      | inl none_ ↦
          let whole : Short ([], c ∷ s) = subst Short (split_line-none [] (c ∷ s) none_) short in
          let (e1, p, t, v1) = append_string_short e (some (c ∷ s)) v whole.1 in
          subst (λ o. Agrees (round o) (cut (text e) (c ∷ s))) (sym none_)
            (subst (Agrees (round none)) (sym (split_line-none (text e) (c ∷ s) none_))
              (e1, unfold linemode_round in rw p refl, t, v1))
      | inr ((line, tail), some_) ↦
          let (first, size) = split_line-some (c ∷ s) line tail some_ in
          let ((head, heads), rest) = subst Short (first []) short in
          let (e1, p, t, v1) = append_string_short e (some line) v head in
          let (empty, v2) = truncate_lem e1 v1 in
          let (e2, p2, t2, v3) =
            linemode_loop-Agrees fuel tail (truncate e1) (omega (arith, size)) (heads, rest) v2 in
          subst (λ o. Agrees (round o) (cut (text e) (c ∷ s))) (sym some_)
            (subst (Agrees (round (some (line, tail)))) (sym (first (text e))) (
              e2,
              unfold linemode_round in rw p (rw p2 (rw (t, empty) refl)),
              t2 ∙ ap (λ x. (cut x tail).1) empty,
              v3,
            ))
    ]

pub task_input-Agrees :
    (chunks : List Bytes) (e : Estring)
    → All (λ s. Short (cut [] s)) chunks
    → IsValid e
    → Agrees (task_input chunks e) (cut (text e) (concat chunks))
unfolding task_input
task_input-Agrees [] e short v = unfold cut in (e, refl, refl, v)
task_input-Agrees (s ∷ ss) e (short, shorts) v =
    let (e1, p, t, v1) = linemode_loop-Agrees (suc (length s)) s e (omega arith) short v in
    let (e2, p2, t2, v2) = task_input-Agrees ss e1 shorts v1 in
    let p' : task_linemode_input s e ≡ some ((cut (text e) s).0, e1) =
      unfold task_linemode_input in p in
    subst (Agrees (task_input (s ∷ ss) e)) (sym (cut-append (text e) s (concat ss)))
      (e2, rw p' (rw p2 (rw t refl)), t2 ∙ ap (λ x. (cut x (concat ss)).1) t, v2)

pub unfinished-text :
    (d : Option Bytes) (len avail : ℕ)
    → Fits d len avail
    → (if ltb 0 len then text_of d ∷ [] else []) ≡ unfinished (text_of d)
unfinished-text none len avail v = ground arith
unfinished-text (some []) len avail v = ground arith
unfinished-text (some (c ∷ s)) len avail v = ground arith

-- However the output of a task is cut into chunks, if no chunk has more than 1023 bytes of one line,
-- the input function gets the lines of the whole output, in order, each once, and at the end a last
-- line that has no newline.
pub task_lines-concat :
    (chunks : List Bytes)
    → All (λ s. Short (cut [] s)) chunks
    → task_lines chunks ≡ some (lines (concat chunks))
unfolding task_lines task_linemode_end
task_lines-concat chunks short =
    let (e, p, t, v) = task_input-Agrees chunks init short init-IsValid in
    rw p (
      ap (λ r. some ((cut [] (concat chunks)).0 ++ r))
        (unfinished-text e.data_ e.length_ e.available v ∙ ap unfinished t))

-- A chunk with no newline that is too long for the block of `linebuf` to grow by, as read() gives it
-- in a long line, overflows that block: for the first chunk of a task, whose `linebuf` has no block,
-- that is one of 1024 bytes, as many as read() is asked for.
pub task_linemode_input_overflow :
    (chunk : Bytes) (linebuf : Estring)
    → IsValid linebuf
    → split_line chunk ≡ none
    → linebuf.available + 1024 < linebuf.length_ + length chunk + 1
    → task_linemode_input chunk linebuf ≡ none
unfolding task_linemode_input linemode_loop
task_linemode_input_overflow [] e v h long =
    absurd (omega (arith, Fits-room e.data_ e.length_ e.available v, long))
task_linemode_input_overflow (c ∷ s) e v h long =
    ap (linemode_round (linemode_loop (suc (length s))) (c ∷ s) e) h
    ∙ (unfold linemode_round append_string in rw (append_chars_overflow e (c ∷ s) v long) refl)
