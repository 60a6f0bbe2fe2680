-- ===== src/Filter/Leads.antt =====
-- filter_calc_leads of filter.c: the bytes with which a line that matches a regular expression
-- can start. A failed assertion and a read behind the terminator are `none`.
use maketool.Common.{
  ℕ, zero, suc, ◌+◌, Bool, true, false, not, ◌&&◌, ◌||◌, Option, none, some, [], ◌∷◌, length, leb,
  ◌==◌, if◌then◌else◌, ◌>>=◌, Bytes,
}

-- `suitable[256]`
abbrev pub Suitable : Type 0
Suitable = ℕ → Bool

-- suits
suits : ℕ → Bool → Suitable → Suitable
suits i b s j = if j == i then b else s j

-- suitall
suitall : Bool → Suitable
suitall b j = b

-- the loop over the range of a bracket expression
suits_range : ℕ → ℕ → Bool → Suitable → Suitable
suits_range lo hi b s j = if leb lo j && leb j hi then b else s j

-- the byte at the pointer, 0 at the end
head_or_nul : Bytes → ℕ
head_or_nul [] = 0
head_or_nul (c ∷ s) = c

-- `r++`
advance : Bytes → Option Bytes
advance [] = none
advance (c ∷ s) = some s

-- One round of the loop over a bracket expression: `prev` is r[-1], unless r is at its start.
bracket_atom : Bool → Option ℕ → ℕ → ℕ → Suitable → Suitable
unfolding suits suits_range
bracket_atom b none c next s = suits c b s
bracket_atom b (some prev) c next s =
    if c == b'-' && not (next == b']') then suits_range prev next b s else suits c b s

-- The loop stops at the closing bracket, or at the end.
bracket_atoms : Bool → Option ℕ → Bytes → Suitable → Suitable × Bytes
unfolding bracket_atom head_or_nul
bracket_atoms b prev [] s = (s, [])
bracket_atoms b prev (c ∷ r) s =
    let rest = bracket_atoms b (some c) r (bracket_atom b prev c (head_or_nul r) s) in
    if c == b']' then (s, c ∷ r) else rest

-- What one expression leaves behind: the pointer, the flags, and whether the loop broke at '$'.
pub record Branch : Type 0 where
  pub suitable : Suitable
  pub rest : Bytes
  pub negbracket : Bool
  pub nullbranch : Bool
  pub at_end : Bool

-- behind the opening bracket
bracket : Bytes → Suitable → Branch
unfolding bracket_atoms suitall
bracket [] s = record {
  suitable = s;
  rest = [];
  negbracket = false;
  nullbranch = false;
  at_end = false;
}
bracket (c ∷ r) s =
    let negative = c == b'^' in
    let (s', r') =
      if negative
      then bracket_atoms false none r (suitall true)
      else bracket_atoms true none (c ∷ r) s in
    record { suitable = s'; rest = r'; negbracket = negative; nullbranch = false; at_end = false }

-- the pointer stays where the expression starts
single : Suitable → Bytes → Bool → Bool → Branch
single s r null stop = record {
  suitable = s;
  rest = r;
  negbracket = false;
  nullbranch = null;
  at_end = stop;
}

-- the if-chain of the inner loop
branch : Bool → Suitable → Bytes → Branch
unfolding bracket single suitall suits
branch ingroup s [] = single (suits 0 true s) [] false false
branch ingroup s (c ∷ r) =
    if c == b'['
    then bracket r s
    else if ingroup && c == b'|'
    then single s (c ∷ r) true false
    else if c == b'.'
    then single (suitall true) (c ∷ r) false false
    else if not ingroup && c == b'$'
    then single s (c ∷ r) false true
    else single (suits c true s) (c ∷ r) false false

-- `for ( ; *r && *r != '|' && *r != ')' ; r++)`
next_branch : Bytes → Bytes
next_branch [] = []
next_branch (c ∷ r) = let rest = next_branch r in if c == b'|' || c == b')' then c ∷ r else rest

-- The state of the inner loop, and what it leaves.
pub record Group : Type 0 where
  pub suitable : Suitable
  pub rest : Bytes
  pub nbranches : ℕ
  pub negbracket : Bool
  pub nullbranch : Bool

-- the end of the inner loop, where the pointer moves on
move_on : Group → Option Group
unfolding advance
move_on g = advance g.rest >>= λ r. some (record g { rest = r })

-- the inner loop
branches : ℕ → Bool → Group → Option Group
unfolding branch next_branch move_on head_or_nul
branches zero ingroup g = none
branches (suc fuel) ingroup g =
    let b = branch ingroup g.suitable g.rest in
    let out : Group = record {
      suitable = b.suitable;
      rest = if ingroup then next_branch b.rest else b.rest;
      nbranches = if b.at_end then g.nbranches else g.nbranches + 1;
      negbracket = g.negbracket || b.negbracket;
      nullbranch = g.nullbranch || b.nullbranch;
    } in
    elim b.at_end [
      | true ↦ some out
      | false ↦ elim (ingroup && head_or_nul out.rest == b'|') [
        | true ↦ move_on out >>= λ g'. branches fuel ingroup g'
        | false ↦ move_on out
      ]
    ]

-- the assertions behind the inner loop
sane : Bool → Group → Bool
sane ingroup g = (not ingroup || g.nbranches == 1 || not g.negbracket) && not g.nullbranch

-- the outer loop
expressions : ℕ → Suitable → Bytes → Option Suitable
unfolding branches sane head_or_nul
expressions zero s r = none
expressions (suc fuel) s r =
    let ingroup = head_or_nul r == b'(' in
    (if ingroup then advance r else some r) >>= λ r'.
    branches (suc (length r')) ingroup
      (record { suitable = s; rest = r'; nbranches = 0; negbracket = false; nullbranch = false })
    >>= λ g. elim (sane ingroup g) [
      | false ↦ none
      | true ↦ elim (head_or_nul g.rest == b'*') [
        | true ↦ advance g.rest >>= λ r''. expressions fuel g.suitable r''
        | false ↦ some g.suitable
      ]
    ]

-- behind the '^'
anchored : Bytes → Option Suitable
unfolding expressions suits suitall
anchored (c ∷ []) =
    if c == b'\\'
    then some (suits 0 true (suitall false))
    else if c == b'$'
    then some (suits 0 true (suitall false))
    else expressions 2 (suitall false) (c ∷ [])
anchored (c ∷ d ∷ r) =
    if c == b'\\'
    then some (suits d true (suitall false))
    else expressions (suc (length (c ∷ d ∷ r))) (suitall false) (c ∷ d ∷ r)
anchored [] = expressions 1 (suitall false) []

-- filter_calc_leads
unfoldable pub filter_calc_leads : Bytes → Option Suitable
unfolding anchored
filter_calc_leads [] = some (suitall true)
filter_calc_leads (c ∷ r) = if c == b'^' then anchored r else some (suitall true)
