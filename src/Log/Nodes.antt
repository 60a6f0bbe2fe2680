-- ===== src/Log/Nodes.antt =====
-- log.c: log_current_unique_node.
use maketool.Common.{
  ◌≡◌, ◌≢◌, refl, ap, ◌∙◌, ◌⊎◌, inl, inr, true, false, none, some, List, [], ◌∷◌, ◌++◌, Bytes, All,
  str_eq, str_eq_iff, str_eq_refl, Bool-cases,
}
use maketool.Log.Records.{Node, is_dir, same_file, unique_loop, log_current_unique_node}

-- A node for the directory `f`.
abbrev pub Enters : Bytes → Node → Type 0
Enters f n = (is_dir n ≡ true) × (n.res.file ≡ some f)

-- A node at which the directory `f` ends: no directory, or another one.
abbrev pub Ends : Bytes → Node → Type 0
Ends f n = (is_dir n ≡ false) ⊎ ((g : Bytes) × (n.res.file ≡ some g) × (g ≢ f))

-- The last of a node and those behind it.
abbrev pub last_of : Node → List Node → Node
last_of n [] = n
last_of n (m ∷ ms) = last_of m ms

same_file_yes :
    (f : Bytes) (a b : Node) → a.res.file ≡ some f → b.res.file ≡ some f → same_file a b ≡ some true
unfolding same_file
same_file_yes f a b p q = rw (p, q) (ap some (str_eq_refl f))

str_eq_ne : (f g : Bytes) → g ≢ f → str_eq g f ≡ false
str_eq_ne f g ne = elim (Bool-cases (str_eq g f)) [
  | inl y ↦ absurd (ne ((str_eq_iff g f).0 y))
  | inr n ↦ n
]

same_file_no :
    (f g : Bytes) (a b : Node)
    → a.res.file ≡ some g
    → b.res.file ≡ some f
    → g ≢ f
    → same_file a b ≡ some false
unfolding same_file
same_file_no f g a b p q ne = rw (p, q) (ap some (str_eq_ne f g ne))

module _ (f : Bytes) (top : Node) (enters : Enters f top) where
  loop-Ends :
      (prev n : Node) (rest : List Node)
      → Ends f n
      → unique_loop top prev (n ∷ rest) ≡ some (some prev)
  unfolding unique_loop
  loop-Ends prev n rest (inl plain) = rw plain refl
  loop-Ends prev n rest (inr (g, e, ne)) = elim (Bool-cases (is_dir n)) [
    | inl dir ↦ rw (dir, same_file_no f g n top e enters.1 ne) refl
    | inr plain ↦ rw plain refl
  ]

  loop_steps :
      (prev n : Node) (rest : List Node)
      → Enters f n
      → unique_loop top prev (n ∷ rest) ≡ unique_loop top n rest
  unfolding unique_loop
  loop_steps prev n rest (dir, e) = rw (dir, same_file_yes f n top e enters.1) refl

  loop_run :
      (prev : Node) (run : List Node) (n : Node) (rest : List Node)
      → All (Enters f) run
      → Ends f n
      → unique_loop top prev (run ++ n ∷ rest) ≡ some (some (last_of prev run))
  loop_run prev [] n rest all ends = loop-Ends prev n rest ends
  loop_run prev (m ∷ ms) n rest (first, all) ends =
      loop_steps prev m (ms ++ n ∷ rest) first ∙ loop_run m ms n rest all ends

  loop_through :
      (prev : Node) (run : List Node) → All (Enters f) run → unique_loop top prev run ≡ some none
  loop_through prev [] all = unfold unique_loop in refl
  loop_through prev (m ∷ ms) (first, all) = loop_steps prev m ms first ∙ loop_through m ms all

-- Where the top of the stack enters a directory, the nodes of `run` directly below it enter the same
-- one and the node behind them does not, the node found is the last of the run, whatever is further
-- down: recursive makes that stay in one directory share one level of the tree. A node for the same
-- directory below the end of the run is not found, though it is nearer the bottom of the stack.
pub log_current_unique_node_run :
    (f : Bytes) (top : Node) (run : List Node) (n : Node) (rest : List Node)
    → Enters f top
    → All (Enters f) run
    → Ends f n
    → log_current_unique_node (top ∷ run ++ n ∷ rest) ≡ some (some (last_of top run))
unfolding log_current_unique_node
log_current_unique_node_run f top [] n rest enters all ends =
    rw enters.0 (loop_run f top enters top [] n rest all ends)
log_current_unique_node_run f top (m ∷ ms) n rest enters all ends =
    rw enters.0 (loop_run f top enters top (m ∷ ms) n rest all ends)

-- Where two or more nodes are all that is on the stack and all enter one directory, no node is
-- found, so the record is shown at the root of the tree.
pub log_current_unique_node_lost :
    (f : Bytes) (top n : Node) (rest : List Node)
    → Enters f top
    → All (Enters f) (n ∷ rest)
    → log_current_unique_node (top ∷ n ∷ rest) ≡ some none
unfolding log_current_unique_node
log_current_unique_node_lost f top n rest enters all =
    rw enters.0 (loop_through f top enters top (n ∷ rest) all)
