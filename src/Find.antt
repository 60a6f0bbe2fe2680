-- ===== src/Find.antt =====
-- find.c: the search in the log, with the stack of earlier searches. What the dialogue holds is an
-- argument, and regcomp and regexec are parameters; a beep and a message are left out.
pub mod Order
use maketool.Common.{
  ℕ, zero, suc, ◌+◌, ◌-◌, Bool, true, false, not, ◌&&◌, ◌||◌, Option, none, some, List, [], ◌∷◌,
  get_elem?, if◌then◌else◌, ◌==◌, Bytes, str_eq, strstr, ltb, length,
}
use maketool.Log.Records.{LogRec, LogFlags, log_get_text}
use maketool.Log.Apply.{LogApplyFunc, log_apply_after, log_set_selected}

-- FindTypes, without its bounds
pub data FindTypes : Type 0 where
  literal regexp : FindTypes

-- FindState; the compiled expression is known by the string that it comes from
pub record FindState : Type 0 where
  pub type : FindTypes
  pub string : Bytes

-- The static variables of find.c and the selection of the log. `current` is the place in the stack
-- that `find_state_current` points to.
pub record Find : Type 0 where
  pub state_stack : List FindState
  pub current : Option ℕ
  pub forward : Bool
  pub wrap : Bool
  pub found : Bool
  pub selected : Option ℕ

abbrev same_type : FindTypes → FindTypes → Bool
same_type literal literal = true
same_type regexp regexp = true
same_type _ _ = false

-- `find_state_compare(s1, s2) == 0`
unfoldable pub find_state_compare : FindState → FindState → Bool
find_state_compare s1 s2 = same_type s1.type s2.type && str_eq s1.string s2.string

-- find_state_get, on what the radio buttons and the entry hold
unfoldable pub find_state_get : (Bytes → Bool) → Option FindTypes → Bytes → Option FindState
find_state_get regcomp none entry = none
find_state_get regcomp (some literal) entry = some (record { type = literal; string = entry })
find_state_get regcomp (some regexp) entry =
    if regcomp entry then some (record { type = regexp; string = entry }) else none

-- find_state_push
unfoldable pub find_state_push : FindState → Find → Find
find_state_push s st = record st { state_stack = s ∷ st.state_stack; current = some 0 }

-- find_state_find, and g_list_remove of what it finds
unfoldable pub remove_state : FindState → List FindState → List FindState
unfolding find_state_compare
remove_state proto [] = []
remove_state proto (s ∷ stack) =
    if find_state_compare s proto then stack else s ∷ remove_state proto stack

unfoldable pub find_state_find : FindState → List FindState → Option FindState
unfolding find_state_compare
find_state_find proto [] = none
find_state_find proto (s ∷ stack) =
    if find_state_compare s proto then some s else find_state_find proto stack

-- find_state_prev and find_state_next, which fill in the dialogue from a state of the stack
unfoldable pub find_state_prev : Find → Find × Option FindState
find_state_prev st = elim st.current [
  | none ↦ (st, none)
  | some i ↦
      if ltb (i + 1) (length st.state_stack)
      then (record st { current = some (i + 1) }, get_elem? st.state_stack (i + 1))
      else (st, none)
]

unfoldable pub find_state_next : Find → Find × Option FindState
find_state_next st = elim st.current [
  | none ↦ (st, none)
  | some i ↦
      if ltb 0 i
      then (record st { current = some (i - 1) }, get_elem? st.state_stack (i - 1))
      else (st, none)
]

module _ (regcomp : Bytes → Bool) (regexec : Bytes → Bytes → Bool) (flags : LogFlags) where
  -- whether the `switch` of find_apply_func finds the string in a record
  unfoldable pub matches : FindState → LogRec → Bool
  unfolding strstr
  matches state lr = elim state.type [
    | literal ↦ strstr (log_get_text flags lr) state.string
    | regexp ↦ regexec state.string (log_get_text flags lr)
  ]

  -- find_apply_func, on `found` and the selection
  unfoldable pub find_apply_func : FindState → LogApplyFunc (Bool × Option ℕ)
  unfolding matches log_set_selected
  find_apply_func state i lr (found, selected) =
      if matches state lr
      then (false, (true, log_set_selected i lr selected))
      else (true, (false, selected))

  -- the searches of do_find
  unfoldable pub search_log : FindState → List LogRec → Find → Find
  unfolding find_apply_func log_apply_after
  search_log state log st =
      let first : Bool × Option ℕ =
        log_apply_after (find_apply_func state) st.forward st.selected log (false, st.selected) in
      let second : Bool × Option ℕ =
        if not first.0 && st.wrap
        then log_apply_after (find_apply_func state) st.forward none log first
        else first in
      record st { found = second.0; selected = second.1 }

  -- do_find
  unfoldable pub do_find : Option FindTypes → Bytes → List LogRec → Find → Find
  unfolding find_state_get find_state_find remove_state find_state_push search_log
  do_find button entry log st = elim (find_state_get regcomp button entry) [
    | none ↦ st
    | some proto ↦ elim (find_state_find proto st.state_stack) [
      | none ↦ search_log proto log (find_state_push proto st)
      | some state ↦
          search_log state log
            (find_state_push state (record st { state_stack = remove_state state st.state_stack }))
    ]
  ]
