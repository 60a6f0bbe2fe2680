-- ===== src/Log/Files/Points.antt =====
-- log.c, log_open: the pointers that log_add_line gets.
use maketool.Common.{
  ℕ, zero, suc, ◌≡◌, ◌≢◌, refl, sym, ap, ◌∙◌, ◌⊎◌, Bool, true, false, Option, none, some, List, [],
  ◌∷◌, ◌++◌, arith, append-nil, map, All, length, ◌==◌, if◌then◌else◌, Bytes, ltb, inl, inr,
  Option-cases,
}
use mathlib.Core.Path.{subst}
use maketool.Estring.{Estring, init, text, text_of, append_string, append_chars, write, truncate}
use maketool.Estring.Bounds.{Fits, init-IsValid}
use maketool.Task.Input.{split_line, linemode_round, linemode_loop, task_linemode_input, task_input}
use maketool.Task.Input.Chunks.{cut, lines, unfinished, concat, Short, task_input-Agrees}
use maketool.Log.Files.{Opened, open_round, open_loop, open_chunks, open_lines}

abbrev present : Option Bytes → Bool
present none = false
present (some s) = true

-- The string has a block, so its pointer is not null.
abbrev HasData : Estring → Type 0
HasData e = present e.data_ ≡ true

present-text_of : (d : Option Bytes) → present d ≡ true → d ≡ some (text_of d)
present-text_of none h = absurd (cc)
present-text_of (some s) h = refl

pub append_string-HasData :
    (e e1 : Estring) (l : Bytes)
    → append_string e (some l) ≡ some e1
    → HasData e ⊎ (l ≢ [])
    → HasData e1
append_string-HasData e e1 [] p (inl h) =
    let same : e ≡ e1 = (unfold append_string in cc p) in subst HasData same h
append_string-HasData e e1 [] p (inr h) = absurd (h refl)
append_string-HasData e e1 (c ∷ s) p h =
    unfold append_string append_chars write in ground (arith, p)

truncate-HasData : (e : Estring) → HasData e → HasData (truncate e)
truncate-HasData e h = unfold truncate in ground (arith, h)

-- Where linemode_loop gives lines, log_open has pointers to them, and a block at the end.
abbrev Points : Opened → Option (List Bytes × Estring) → Type 0
Points o r =
    (ls : List Bytes) (e : Estring)
    → r ≡ some (ls, e)
    → (o ≡ some (map (λ l. some l) ls, e)) × HasData e

-- The block is there, or the first string that is appended has a byte.
abbrev Ready : Estring → Bytes → Option (Bytes × Bytes) → Type 0
Ready e buf none = HasData e ⊎ (buf ≢ [])
Ready e buf (some (line, tail)) = HasData e ⊎ (line ≢ [])

some-pair : (p q : List Bytes × Estring) → some p ≡ some q → (p.0 ≡ q.0) × (p.1 ≡ q.1)
some-pair p q h = (cc, cc)

round-Points :
    (f : Bytes → Estring → Opened) (g : Bytes → Estring → Option (List Bytes × Estring))
    → ((t : Bytes) (e : Estring) → HasData e → Points (f t e) (g t e))
    → (buf : Bytes) (e : Estring) (o : Option (Bytes × Bytes)) → Ready e buf o
    → Points (open_round f buf e o) (linemode_round g buf e o)
unfolding open_round linemode_round
round-Points f g next buf e none ready ls e' q = elim (Option-cases (append_string e (some buf))) [
  | inl p ↦ absurd (cc (rw p at q))
  | inr (e1, p) ↦
      let (a, b) = some-pair ([], e1) (ls, e') (rw p at q) in
      (
        rw p (rw (sym a) (ap (λ x. some ([], x)) b)),
        subst HasData b (append_string-HasData e e1 buf p ready),
      )
]
round-Points f g next buf e (some (line, tail)) ready ls e' q =
    elim (Option-cases (append_string e (some line))) [
      | inl p ↦ absurd (cc (rw p at q))
      | inr (e1, p) ↦
          let d1 = append_string-HasData e e1 line p ready in
          elim (Option-cases (g tail (truncate e1))) [
            | inl n ↦ absurd (cc (rw (p, n) at q))
            | inr ((ls2, e2), n) ↦
                let (a, b) = some-pair (text e1 ∷ ls2, e2) (ls, e') (rw (p, n) at q) in
                let (r, d2) = next tail (truncate e1) (truncate-HasData e1 d1) ls2 e2 n in
                (
                  rw p (
                      rw r (
                        rw (sym a) (
                          rw (sym b) (
                            ap (λ x. some (x ∷ map (λ l. some l) ls2, e2))
                              (present-text_of e1.data_ d1))))),
                  subst HasData b d2,
                )
          ]
    ]

data-Ready : (e : Estring) (buf : Bytes) (o : Option (Bytes × Bytes)) → HasData e → Ready e buf o
data-Ready e buf none h = inl h
data-Ready e buf (some (line, tail)) h = inl h

loop-Points :
    (fuel : ℕ) (buf : Bytes) (e : Estring)
    → HasData e
    → Points (open_loop fuel buf e) (linemode_loop fuel buf e)
unfolding open_loop linemode_loop
loop-Points zero buf e h ls e' q = absurd (cc)
loop-Points (suc fuel) [] e h ls e' q =
    let (a, b) = some-pair ([], e) (ls, e') q in
    (
      unfold open_round split_line append_string append_chars in rw (sym a) (rw b refl),
      subst HasData b h,
    )
loop-Points (suc fuel) (c ∷ s) e h ls e' q =
    round-Points (open_loop fuel) (linemode_loop fuel) (loop-Points fuel) (c ∷ s) e
      (split_line (c ∷ s)) (data-Ready e (c ∷ s) (split_line (c ∷ s)) h) ls e' q

first-Ready :
    (e : Estring) (c : ℕ) (s : Bytes) → (c == b'\n') ≡ false → Ready e (c ∷ s) (split_line (c ∷ s))
unfolding split_line
first-Ready e c s n = elim (Option-cases (split_line s)) [
  | inl p ↦ rw (n, p) (inr (λ h. absurd (cc)))
  | inr ((line, tail), p) ↦ rw (n, p) (inr (λ h. absurd (cc)))
]

first-Points :
    (fuel c : ℕ) (s : Bytes) (e : Estring)
    → (c == b'\n') ≡ false
    → Points (open_loop fuel (c ∷ s) e) (linemode_loop fuel (c ∷ s) e)
unfolding open_loop linemode_loop
first-Points zero c s e n ls e' q = absurd (cc)
first-Points (suc fuel) c s e n ls e' q =
    round-Points (open_loop fuel) (linemode_loop fuel) (loop-Points fuel) (c ∷ s) e
      (split_line (c ∷ s)) (first-Ready e c s n) ls e' q

pub map-append :
    (ls more : List Bytes)
    → map (λ l. some l) ls ++ map (λ l. some l) more ≡ map (λ l. some l) (ls ++ more)
map-append [] more = refl
map-append (l ∷ ls) more = ap (λ x. some l ∷ x) (map-append ls more)

-- The chunks behind one.
cons-Points :
    (buf : Bytes) (bufs : List Bytes) (e : Estring)
    → Points (open_loop (suc (length buf)) buf e) (linemode_loop (suc (length buf)) buf e)
    → ((e1 : Estring) → HasData e1 → Points (open_chunks bufs e1) (task_input bufs e1))
    → Points (open_chunks (buf ∷ bufs) e) (task_input (buf ∷ bufs) e)
unfolding open_chunks task_input task_linemode_input
cons-Points buf bufs e here rest ls e' q =
    elim (Option-cases (linemode_loop (suc (length buf)) buf e)) [
      | inl n ↦ absurd (cc (rw n at q))
      | inr ((ls1, e1), n) ↦
          let (p1, d1) = here ls1 e1 n in
          elim (Option-cases (task_input bufs e1)) [
            | inl n2 ↦ absurd (cc (rw (n, n2) at q))
            | inr ((ls2, e2), n2) ↦
                let (p2, d2) = rest e1 d1 ls2 e2 n2 in
                let (a, b) = some-pair (ls1 ++ ls2, e2) (ls, e') (rw (n, n2) at q) in
                (
                  rw p1 (
                      rw p2
                        (rw (sym a) (rw (sym b) (ap (λ x. some (x, e2)) (map-append ls1 ls2))))),
                  subst HasData b d2,
                )
          ]
    ]

chunks-Points :
    (bufs : List Bytes) (e : Estring) → HasData e → Points (open_chunks bufs e) (task_input bufs e)
unfolding open_chunks task_input
chunks-Points [] e h ls e' q =
    let (a, b) = some-pair ([], e) (ls, e') q in (rw (sym a) (rw b refl), subst HasData b h)
chunks-Points (buf ∷ bufs) e h ls e' q =
    cons-Points buf bufs e (loop-Points (suc (length buf)) buf e h) (chunks-Points bufs) ls e' q

start-Points :
    (c : ℕ) (s : Bytes) (bufs : List Bytes) (e : Estring)
    → (c == b'\n') ≡ false
    → Points (open_chunks ((c ∷ s) ∷ bufs) e) (task_input ((c ∷ s) ∷ bufs) e)
start-Points c s bufs e h =
    cons-Points (c ∷ s) bufs e (first-Points (suc (length (c ∷ s))) c s e h) (chunks-Points bufs)

-- The last line, where there is a block.
last-line :
    (d : Option Bytes) (len avail : ℕ) (ptrs : List (Option Bytes))
    → Fits d len avail
    → present d ≡ true
    → (if ltb 0 len then ptrs ++ d ∷ [] else ptrs)
      ≡ ptrs ++ map (λ l. some l) (unfinished (text_of d))
last-line none len avail ptrs v h = absurd (cc)
last-line (some []) len avail ptrs v h = ground (arith, append-nil ptrs)
last-line (some (c ∷ s)) len avail ptrs v h = ground arith

-- log_open gives the lines of a file whose first byte is not a newline to log_add_line, however it is read.
pub open_lines-lines :
    (c : ℕ) (s : Bytes) (bufs : List Bytes)
    → (c == b'\n') ≡ false
    → All (λ b. Short (cut [] b)) ((c ∷ s) ∷ bufs)
    → open_lines ((c ∷ s) ∷ bufs) ≡ some (map (λ l. some l) (lines (concat ((c ∷ s) ∷ bufs))))
unfolding open_lines
open_lines-lines c s bufs h short =
    let file = concat ((c ∷ s) ∷ bufs) in
    let (e, p, t, v) = task_input-Agrees ((c ∷ s) ∷ bufs) init short init-IsValid in
    let (q, d) = start-Points c s bufs init h (cut [] file).0 e p in
    rw q (
      ap (λ x. some x)
        (last-line e.data_ e.length_ e.available (map (λ l. some l) (cut [] file).0) v d
          ∙ ap (λ x. map (λ l. some l) (cut [] file).0 ++ map (λ l. some l) (unfinished x)) t
          ∙ map-append (cut [] file).0 (unfinished (cut [] file).1)))
