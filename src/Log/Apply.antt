-- ===== src/Log/Apply.antt =====
-- log.c: log_apply_after, which goes through the log from a record on, in either direction, and
-- what the search in find.c uses of the selection. A record is known by its place in the log.
use maketool.Common.{
  ℕ, zero, suc, ◌+◌, Bool, true, false, Option, none, some, List, [], ◌∷◌, length, drop, get_elem?,
  if◌then◌else◌, ltb,
}
use maketool.Log.Records.{LogRec}

-- A LogApplyFunc: whether to go on, and what it leaves of the state it works on.
abbrev pub LogApplyFunc : Type 0 → Type 0
LogApplyFunc S = ℕ → LogRec → S → Bool × S

-- the loop along `list->next`, from the record at a place
unfoldable pub apply_forward : {S : Type 0} → LogApplyFunc S → ℕ → List LogRec → S → S
apply_forward func i [] s = s
apply_forward func i (lr ∷ log) s =
    let rest = apply_forward func (i + 1) log (func i lr s).1 in
    if (func i lr s).0 then rest else (func i lr s).1

-- the loop along `list->prev`, from the record in front of a place
unfoldable pub apply_backward : {S : Type 0} → LogApplyFunc S → List LogRec → ℕ → S → S
apply_backward func log zero s = s
apply_backward func log (suc n) s = elim (get_elem? log n) [
  | none ↦ s
  | some lr ↦
      let rest = apply_backward func log n (func n lr s).1 in
      if (func n lr s).0 then rest else (func n lr s).1
]

-- log_apply_after; a start that is not in the log counts as none
unfoldable pub log_apply_after :
    {S : Type 0} → LogApplyFunc S → Bool → Option ℕ → List LogRec → S → S
unfolding apply_forward apply_backward
log_apply_after func true none log s = apply_forward func 0 log s
log_apply_after func true (some i) log s =
    if ltb i (length log)
    then apply_forward func (i + 1) (drop (i + 1) log) s
    else apply_forward func 0 log s
log_apply_after func false none log s = apply_backward func log (length log) s
log_apply_after func false (some i) log s =
    if ltb i (length log)
    then apply_backward func log i s
    else apply_backward func log (length log) s

-- log_set_selected: only a record that is shown can be selected
unfoldable pub log_set_selected : ℕ → LogRec → Option ℕ → Option ℕ
log_set_selected i lr selected = elim lr.node [ none ↦ selected | some row ↦ some i ]
