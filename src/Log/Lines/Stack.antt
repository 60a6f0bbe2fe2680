-- ===== src/Log/Lines/Stack.antt =====
-- log.c: the nodes on the stack while a record is shown.
use maketool.Common.{
  ℕ, zero, suc, ◌≡◌, ◌≢◌, refl, ap, Bool, true, false, Option, none, some, List, [], ◌∷◌,
  if◌then◌else◌, Bytes, All, get_elem?, set, str_eq, inl, inr, Bool-cases,
}
use maketool.Filter.Types.{
  Kind, undefined, information, warning, error, build_start, change_dir, push_dir, pop_dir, done,
}
use maketool.Log.Records.{
  LogRec, LogFlags, Node, is_dir, same_file, unique_loop, log_current_unique_node, log_change_node,
  log_pop_node, stack_for,
}

pub get_elem?-set_ne :
    (log : List LogRec) (i j : ℕ) (lr : LogRec)
    → i ≢ j
    → get_elem? (set log i lr) j ≡ get_elem? log j
get_elem?-set_ne [] i j lr ne = refl
get_elem?-set_ne (r ∷ rs) zero zero lr ne = absurd (ne refl)
get_elem?-set_ne (r ∷ rs) zero (suc j) lr ne = refl
get_elem?-set_ne (r ∷ rs) (suc i) zero lr ne = refl
get_elem?-set_ne (r ∷ rs) (suc i) (suc j) lr ne = get_elem?-set_ne rs i j lr (λ e. ne (ap suc e))

-- A node for a directory has its name.
abbrev pub Named : Node → Type 0
Named n = is_dir n ≡ true → (f : Bytes) × (n.res.file ≡ some f)

-- The record of a node has a row.
abbrev pub HasRow : List LogRec → Node → Type 0
HasRow log n = (lr : LogRec) × (row : ℕ) × (get_elem? log n.place ≡ some lr) × (lr.node ≡ some row)

-- What holds for the nodes on the stack.
abbrev pub NodeOk : List LogRec → Node → Type 0
NodeOk log n = Named n × HasRow log n

pub All-map :
    (P Q : Node → Type 0) (ns : List Node) → ((n : Node) → P n → Q n) → All P ns → All Q ns
All-map P Q [] f h = tt
All-map P Q (n ∷ ns) f (h, hs) = (f n h, All-map P Q ns f hs)

same_file_total :
    (a b : Node) (f g : Bytes)
    → a.res.file ≡ some f
    → b.res.file ≡ some g
    → same_file a b ≡ some (str_eq f g)
unfolding same_file
same_file_total a b f g p q = rw (p, q) refl

unique_loop_total :
    (top prev : Node) (f : Bytes) (ns : List Node)
    → top.res.file ≡ some f
    → All Named ns
    → (o : Option Node) × (unique_loop top prev ns ≡ some o)
unfolding unique_loop
unique_loop_total top prev f [] e h = (none, refl)
unique_loop_total top prev f (n ∷ ns) e (h, hs) = elim (Bool-cases (is_dir n)) [
  | inr plain ↦ (some prev, rw plain refl)
  | inl dir ↦
      let (g, p) = h dir in
      let (o, q) = unique_loop_total top n f ns e hs in
      elim (Bool-cases (str_eq g f)) [
        | inl y ↦ (o, rw (dir, same_file_total n top g f p e, y) q)
        | inr m ↦ (some prev, rw (dir, same_file_total n top g f p e, m) refl)
      ]
]

pub log_current_unique_node_total :
    (ns : List Node) → All Named ns → (o : Option Node) × (log_current_unique_node ns ≡ some o)
unfolding log_current_unique_node
log_current_unique_node_total [] h = (none, refl)
log_current_unique_node_total (top ∷ []) h = (some top, refl)
log_current_unique_node_total (top ∷ n ∷ ns) (h, hs) = elim (Bool-cases (is_dir top)) [
  | inr plain ↦ (some top, rw plain refl)
  | inl dir ↦
      let (f, p) = h dir in let (o, q) = unique_loop_total top top f (n ∷ ns) p hs in (o, rw dir q)
]

abbrev pub pushes : Kind → Bool
pushes k = elim k [ build_start ↦ true | change_dir ↦ true | push_dir ↦ true | _ ↦ false ]

module _ (P : Node → Type 0) (flags : LogFlags) (n : Node) where
  change-All : (s : List Node) → All P s → P n → All P (log_change_node n s)
  unfolding log_change_node
  change-All [] h k = (k, tt)
  change-All (m ∷ ms) (h, hs) k = (k, hs)

  pop-All : (s : List Node) → All P s → All P (log_pop_node s)
  unfolding log_pop_node
  pop-All [] h = tt
  pop-All (m ∷ ms) (h, hs) = hs

  if-All : (b : Bool) (s t : List Node) → All P s → All P t → All P (if b then s else t)
  if-All true s t h k = h
  if-All false s t h k = k

  -- Whatever holds for the nodes on the stack, and for the new one if it is put there.
  pub stack_for-All :
      (k : Kind) (s : List Node) → All P s → (pushes k ≡ true → P n) → All P (stack_for k flags n s)
  unfolding stack_for
  stack_for-All build_start s h new = (new refl, tt)
  stack_for-All change_dir s h new =
      if-All flags.indent_dirs (log_change_node n s) s (change-All s h (new refl)) h
  stack_for-All push_dir s h new = if-All flags.indent_dirs (n ∷ s) s (new refl, h) h
  stack_for-All pop_dir s h new = if-All flags.indent_dirs (log_pop_node s) s (pop-All s h) h
  stack_for-All undefined s h new = h
  stack_for-All information s h new = h
  stack_for-All warning s h new = h
  stack_for-All error s h new = h
  stack_for-All done s h new = h
