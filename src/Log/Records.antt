-- ===== src/Log/Records.antt =====
-- log.c: log records and their counters, the stack of nodes, and the decision how a record is
-- shown. A LogRec is known by its place in `log`, as by its pointer in the program, and a row of
-- the log window by its number in the order of insertion.
use maketool.Common.{
  ℕ, ◌+◌, Bool, true, false, ◌||◌, ◌&&◌, not, Option, none, some, List, [], ◌∷◌, ◌++◌,
  if◌then◌else◌, ◌>>=◌, Bytes, str_eq, length, get_elem?, set,
}
use maketool.Filter.Types.{
  Kind, undefined, information, warning, error, build_start, change_dir, push_dir, pop_dir, done,
  FilterCode, FilterResult,
}

-- LogRec
pub record LogRec : Type 0 where
  pub line : Bytes
  pub res : FilterResult
  pub node : Option ℕ
  pub expanded : Bool
  pub context : Option (List ℕ)

pub data LogSeverity : Type 0 where
  l_info l_warning l_error l_summary : LogSeverity

-- `prefs.log_flags`, a field for each flag
pub record LogFlags : Type 0 where
  pub show_info : Bool
  pub show_warnings : Bool
  pub show_errors : Bool
  pub summarise : Bool
  pub indent_dirs : Bool

-- A row of the log window, as log_show_rec inserts it.
pub record Row : Type 0 where
  pub parent : Option ℕ
  pub text : Bytes
  pub severity : LogSeverity
  pub is_leaf : Bool
  pub row_expanded : Bool

-- A pointer on `log_node_stack`, with the result of the record that it leads to.
pub record Node : Type 0 where
  pub place : ℕ
  pub res : FilterResult

-- The static variables of log.c that the functions below change.
pub record Log : Type 0 where
  pub log : List LogRec
  pub node_stack : List Node
  pub rows : List Row
  pub num_errors : ℕ
  pub num_warnings : ℕ
  pub num_ew_changed : Bool

-- What a `switch` on the code selects: with FR_PENDING set, the default.
abbrev pub switch_kind : FilterCode → Kind
switch_kind code = if code.pending then done else code.kind

abbrev pub enters : Kind → Bool
enters k = elim k [ push_dir ↦ true | change_dir ↦ true | _ ↦ false ]

abbrev pub is_dir : Node → Bool
is_dir n = enters (switch_kind n.res.code)

-- log_change_node
unfoldable pub log_change_node : Node → List Node → List Node
log_change_node n [] = n ∷ []
log_change_node n (m ∷ ms) = n ∷ ms

-- log_pop_node
unfoldable pub log_pop_node : List Node → List Node
log_pop_node [] = []
log_pop_node (n ∷ ns) = ns

-- `!strcmp(lr->res.file, top->res.file)`; a null pointer is a fault
unfoldable pub same_file : Node → Node → Option Bool
same_file a b = a.res.file >>= λ f. b.res.file >>= λ g. some (str_eq f g)

-- the loop of log_current_unique_node, with `link->prev`
unfoldable pub unique_loop : Node → Node → List Node → Option (Option Node)
unfolding same_file
unique_loop top prev [] = some none
unique_loop top prev (n ∷ ns) =
    let rest = unique_loop top n ns in
    if not (is_dir n)
    then some (some prev)
    else same_file n top >>= λ same. elim same [ true ↦ rest | false ↦ some (some prev) ]

-- log_current_unique_node
unfoldable pub log_current_unique_node : List Node → Option (Option Node)
log_current_unique_node [] = some none
log_current_unique_node (top ∷ []) = some (some top)
log_current_unique_node (top ∷ n ∷ ns) =
    let found = unique_loop top top (n ∷ ns) in if not (is_dir top) then some (some top) else found

-- log_add_rec
unfoldable pub log_add_rec : Bytes → FilterResult → Option (List ℕ) → Log → Log
log_add_rec line res con st =
    let kind = switch_kind res.code in
    record st {
      log =
          st.log
          ++ record { line = line; res = res; node = none; expanded = true; context = con } ∷ [];
      num_warnings = elim kind [ warning ↦ st.num_warnings + 1 | _ ↦ st.num_warnings ];
      num_errors = elim kind [ error ↦ st.num_errors + 1 | _ ↦ st.num_errors ];
      num_ew_changed = elim kind [ warning ↦ true | error ↦ true | _ ↦ st.num_ew_changed ];
    }

abbrev pub has_summary : Option Bytes → Bool
has_summary none = false
has_summary (some s) = true

-- log_get_text
unfoldable pub log_get_text : LogFlags → LogRec → Bytes
log_get_text flags lr =
    if flags.summarise then elim lr.res.summary [ some s ↦ s | none ↦ lr.line ] else lr.line

-- The severity, or nothing where the `switch` of log_show_rec returns.
unfoldable pub severity_of : LogFlags → FilterResult → Option LogSeverity
severity_of flags res =
    let shown_info =
      if flags.show_info
      then some (if flags.summarise && has_summary res.summary then l_summary else l_info)
      else none in
    elim (switch_kind res.code) [
      | undefined ↦ shown_info
      | information ↦ shown_info
      | warning ↦ if flags.show_warnings then some l_warning else none
      | error ↦ if flags.show_errors then some l_error else none
      | _ ↦ some l_info
    ]

-- What that `switch` does to the stack of nodes.
unfoldable pub stack_for : Kind → LogFlags → Node → List Node → List Node
unfolding log_change_node log_pop_node
stack_for build_start flags n s = n ∷ []
stack_for change_dir flags n s = if flags.indent_dirs then log_change_node n s else s
stack_for push_dir flags n s = if flags.indent_dirs then n ∷ s else s
stack_for pop_dir flags n s = if flags.indent_dirs then log_pop_node s else s
stack_for _ flags n s = s

unfoldable pub stacked : LogFlags → Node → List Node → List Node
unfolding stack_for
stacked flags n s = stack_for (switch_kind n.res.code) flags n s

abbrev pub starts_build : FilterResult → Bool
starts_build res = elim (switch_kind res.code) [ build_start ↦ true | _ ↦ false ]

-- `is_leaf` behind the switch
abbrev pub leaf : LogFlags → Node → Bool
leaf flags n = not (starts_build n.res || (is_dir n && flags.indent_dirs))

-- `summary=""` in summary mode
unfoldable pub disappears : LogFlags → FilterResult → Bool
disappears flags res = elim res.summary [ some [] ↦ flags.summarise | _ ↦ false ]

-- `parent_rec->node`
unfoldable pub node_at : List LogRec → Option Node → Option ℕ
node_at log none = none
node_at log (some n) = elim (get_elem? log n.place) [ some lr ↦ lr.node | none ↦ none ]

-- gtk_ctree_insert_node, at the end of log_show_rec
unfoldable pub insert_row : ℕ → LogRec → Row → Log → Log
insert_row place lr row st = record st {
  log = set st.log place (record lr { node = some (length st.rows) });
  rows = st.rows ++ row ∷ [];
}

-- log_show_rec behind its `switch`, which has set the severity and the stack
unfoldable pub show_row : LogFlags → ℕ → LogRec → Option Node → LogSeverity → Log → Log
unfolding disappears node_at insert_row log_get_text
show_row flags place lr parent_rec sev st =
    if disappears flags lr.res
    then st
    else insert_row place lr
        (record {
          parent = if starts_build lr.res then none else node_at st.log parent_rec;
          text = log_get_text flags lr;
          severity = sev;
          is_leaf = leaf flags (record { place = place; res = lr.res });
          row_expanded = lr.expanded;
        })
        st

-- log_show_rec behind the lookup of its parent
unfoldable pub show_under : LogFlags → ℕ → LogRec → Option Node → Option LogSeverity → Log → Log
unfolding stacked show_row
show_under flags place lr parent_rec none st = st
show_under flags place lr parent_rec (some sev) st =
    show_row flags place lr parent_rec sev (record st {
      node_stack = stacked flags (record { place = place; res = lr.res }) st.node_stack;
    })

-- log_show_rec, for the record at a place of the log
unfoldable pub log_show_rec : LogFlags → ℕ → Log → Option Log
unfolding severity_of
log_show_rec flags place st = get_elem? st.log place >>= λ lr.
    log_current_unique_node st.node_stack >>= λ parent_rec. some (
      show_under flags place (record lr { node = none }) parent_rec (severity_of flags lr.res)
        (record st { log = set st.log place (record lr { node = none }) }))
