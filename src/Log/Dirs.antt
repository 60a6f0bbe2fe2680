-- ===== src/Log/Dirs.antt =====
-- log.c: the directories that make has entered, and the context saved with each message. A
-- directory of `dir_hash` is known by its place there, as by its pointer in the program.
pub mod Interning
pub mod Levels
pub mod Balance
pub mod Pops
pub mod Undo
pub mod Context
use maketool.Common.{
  ℕ, zero, suc, ◌+◌, ◌-◌, Bool, true, false, ◌||◌, ◌&&◌, not, Option, none, some, List, [], ◌∷◌,
  ◌++◌, length, get_or, set, ltb, ◌==◌, if◌then◌else◌, Bytes, str_eq,
}
use maketool.Util.Paths.{file_normalise}

-- `dir_hash`, `dir_stack`, `dir_max_depth`, `dir_stack_count`, `context_dirty`, and the cached
-- context of log_get_context with `none` for the null pointer.
pub record Dirs : Type 0 where
  pub dir_hash : List Bytes
  pub dir_stack : List (List ℕ)
  pub dir_max_depth : ℕ
  pub dir_stack_count : ℕ
  pub context_dirty : Bool
  pub context : Option (List ℕ)

-- At program start.
abbrev pub no_dirs : Dirs
no_dirs = record {
  dir_hash = [];
  dir_stack = [];
  dir_max_depth = 0;
  dir_stack_count = 0;
  context_dirty = false;
  context = none;
}

-- g_hash_table_lookup: the place of a name, or the length of the table
pub place : Bytes → List Bytes → ℕ
place name [] = 0
place name (d ∷ ds) = let rest = place name ds in if str_eq d name then 0 else suc rest

-- log_unique_dir: the directory's place, and the table with it
pub log_unique_dir : Bytes → Bytes → List Bytes → ℕ × List Bytes
log_unique_dir current dir hash =
    let norm = file_normalise current dir in
    let i = place norm hash in (i, if ltb i (length hash) then hash else hash ++ norm ∷ [])

-- g_ptr_array_set_size
pub set_size : ℕ → List (List ℕ) → List (List ℕ)
set_size zero s = []
set_size (suc n) [] = [] ∷ set_size n []
set_size (suc n) (l ∷ s) = l ∷ set_size n s

-- stackhead(i)
abbrev pub stackhead : List (List ℕ) → ℕ → List ℕ
stackhead s i = get_or s i []

pub with_hash : List Bytes → Dirs → Dirs
with_hash hash st = record st { dir_hash = hash }

-- `if (depth == dir_max_depth+1)` of log_push_dir
pub grown : ℕ → Dirs → Dirs
unfolding set_size
grown depth st =
    if depth == st.dir_max_depth + 1
    then record st { dir_max_depth = depth; dir_stack = set_size depth st.dir_stack }
    else st

-- what follows it
pub prepended : ℕ → ℕ → Dirs → Dirs
prepended depth dir st = record st {
  dir_stack = set st.dir_stack (depth - 1) (dir ∷ stackhead st.dir_stack (depth - 1));
  dir_stack_count = st.dir_stack_count + 1;
  context_dirty = true;
}

-- log_push_dir
pub log_push_dir : Bytes → ℕ → Bytes → Dirs → Dirs
unfolding with_hash
log_push_dir current depth name st =
    let (dir, hash) = log_unique_dir current name st.dir_hash in
    if ltb depth 1 || ltb (st.dir_max_depth + 1) depth
    then with_hash hash st
    else prepended depth dir (grown depth (with_hash hash st))

-- the loop of log_pop_dir: the list without the first link to `dir`, if there is one
pub remove_dir : ℕ → List ℕ → Option (List ℕ)
remove_dir dir [] = none
remove_dir dir (d ∷ ds) =
    let rest = remove_dir dir ds in
    if d == dir then some ds else elim rest [ none ↦ none | some r ↦ some (d ∷ r) ]

pub is_nil : List ℕ → Bool
is_nil [] = true
is_nil (x ∷ xs) = false

pub removed : ℕ → Option (List ℕ) → Dirs → Dirs
removed i none st = st
removed i (some l) st = record st {
  dir_stack = set st.dir_stack i l;
  dir_stack_count = st.dir_stack_count - 1;
  context_dirty = true;
}

-- the end of log_pop_dir
pub shrunk : ℕ → Dirs → Dirs
unfolding is_nil
shrunk depth st =
    if depth == st.dir_max_depth && is_nil (stackhead st.dir_stack (depth - 1))
    then record st { dir_max_depth = st.dir_max_depth - 1 }
    else st

-- the part of log_pop_dir behind the check of the depth
pub pop_at : ℕ → ℕ → Dirs → Dirs
unfolding removed
pop_at depth dir st =
    shrunk depth (removed (depth - 1) (remove_dir dir (stackhead st.dir_stack (depth - 1))) st)

-- log_pop_dir
pub log_pop_dir : Bytes → ℕ → Bytes → Dirs → Dirs
unfolding with_hash
log_pop_dir current depth name st =
    let (dir, hash) = log_unique_dir current name st.dir_hash in
    if ltb depth 1 || ltb st.dir_max_depth depth
    then with_hash hash st
    else pop_at depth dir (with_hash hash st)

-- the loop of log_clear_dirs
pub clear_below : ℕ → List (List ℕ) → List (List ℕ)
clear_below zero s = s
clear_below (suc n) [] = []
clear_below (suc n) (l ∷ s) = [] ∷ clear_below n s

-- log_clear_dirs
pub log_clear_dirs : Dirs → Dirs
log_clear_dirs st = record st {
  dir_stack = clear_below st.dir_max_depth st.dir_stack;
  dir_max_depth = 0;
  dir_stack_count = 0;
  context_dirty = true;
}

-- the loops of log_get_context, from the deepest level down
unfoldable pub dirs_below : ℕ → List (List ℕ) → List ℕ
dirs_below zero s = []
dirs_below (suc n) s = stackhead s n ++ dirs_below n s

-- log_get_context behind its first return
unfoldable pub rebuilt_context : Dirs → Option (List ℕ × Dirs)
rebuilt_context st =
    let fresh = dirs_below st.dir_max_depth st.dir_stack in
    if length fresh == st.dir_stack_count
    then some (fresh, record st { context = some fresh; context_dirty = false })
    else none

unfoldable pub cached_or_rebuilt : Option (List ℕ) → Dirs → Option (List ℕ × Dirs)
unfolding rebuilt_context
cached_or_rebuilt none st = rebuilt_context st
cached_or_rebuilt (some c) st = if st.context_dirty then rebuilt_context st else some (c, st)

-- log_get_context: the context, and the state that caches it; a failed assertion on the number of
-- directories is a fault
unfoldable pub log_get_context : Dirs → Option (List ℕ × Dirs)
unfolding cached_or_rebuilt
log_get_context st = cached_or_rebuilt st.context st
