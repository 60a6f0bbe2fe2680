-- ===== src/Log/Dirs/Interning.antt =====
-- log.c: the places that log_unique_dir gives.
use maketool.Common.{
  ℕ, suc, ◌<◌, ◌≡◌, refl, sym, ap, ◌∙◌, ◌↔◌, false, some, List, [], ◌∷◌, ◌++◌, arith, Bytes, ltb,
  length, get_elem?, str_eq, str_eq_iff, inl, inr, Bool-cases, append-nil,
}
use mathlib.Core.Path.{subst}
use maketool.Util.Paths.{file_normalise}
use maketool.Log.Dirs.{place, log_unique_dir}

place-get_elem? :
    (name : Bytes) (ds : List Bytes)
    → place name ds < length ds
    → get_elem? ds (place name ds) ≡ some name
unfolding place
place-get_elem? name [] h = absurd (omega arith)
place-get_elem? name (d ∷ ds) h = elim (Bool-cases (str_eq d name)) [
  | inl y ↦ rw y (ap some ((str_eq_iff d name).0 y))
  | inr n ↦ rw n (place-get_elem? name ds (ground arith))
]

place_append :
    (name : Bytes) (ds t : List Bytes)
    → place name ds < length ds
    → place name (ds ++ t) ≡ place name ds
unfolding place
place_append name [] t h = absurd (omega arith)
place_append name (d ∷ ds) t h = elim (Bool-cases (str_eq d name)) [
  | inl y ↦ rw y refl
  | inr n ↦ rw n (ap suc (place_append name ds t (ground arith)))
]

place_new :
    (name : Bytes) (ds : List Bytes)
    → ltb (place name ds) (length ds) ≡ false
    → (place name (ds ++ name ∷ []) ≡ place name ds) × (place name ds < length (ds ++ name ∷ []))
unfolding place
place_new name [] h = ground (arith, (str_eq_iff name name).1)
place_new name (d ∷ ds) h = ground (arith, place_new name ds)

place-injective :
    (a b : Bytes) (ds : List Bytes) → place a ds < length ds → place a ds ≡ place b ds → a ≡ b
place-injective a b ds h e =
    let at_a = place-get_elem? a ds h in
    let at_b = place-get_elem? b ds (subst (λ i. i < length ds) e h) in
    cc (at_a, ap (get_elem? ds) e, at_b)

-- What log_unique_dir does to the table: the place is that of the normalised name, and the table
-- only grows.
pub record Interned (current dir : Bytes) (hash : List Bytes) (out : ℕ × List Bytes) : Type 0 where
  pub is_place : out.0 ≡ place (file_normalise current dir) out.1
  pub in_table : out.0 < length out.1
  pub grown : (t : List Bytes) × (out.1 ≡ hash ++ t)

pub log_unique_dir-Interned :
    (current dir : Bytes) (hash : List Bytes)
    → Interned current dir hash (log_unique_dir current dir hash)
unfolding log_unique_dir
log_unique_dir-Interned current dir hash =
    let norm = file_normalise current dir in
    elim (Bool-cases (ltb (place norm hash) (length hash))) [
      | inl y ↦
          rw y (record {
            is_place = refl;
            in_table = ground arith;
            grown = ([], sym (append-nil hash));
          })
      | inr n ↦
          let (same, lt) = place_new norm hash n in
          rw n (record { is_place = sym same; in_table = lt; grown = (norm ∷ [], refl) })
    ]

-- Two directories get the same pointer exactly if their normalised names are equal, whatever the
-- table held before; this is why log_pop_dir and log_get_filenames may compare pointers.
pub log_unique_dir_iff :
    (current a b : Bytes) (hash : List Bytes)
    → ((log_unique_dir current a hash).0
        ≡ (log_unique_dir current b (log_unique_dir current a hash).1).0)
      ↔ (file_normalise current a ≡ file_normalise current b)
log_unique_dir_iff current a b hash =
    let first : ℕ × List Bytes = log_unique_dir current a hash in
    let second : ℕ × List Bytes = log_unique_dir current b first.1 in
    let fa : Interned current a hash first = log_unique_dir-Interned current a hash in
    let fb : Interned current b first.1 second = log_unique_dir-Interned current b first.1 in
    let kept : place (file_normalise current a) second.1 ≡ first.0 =
      ap (place (file_normalise current a)) fb.grown.1
      ∙ place_append (file_normalise current a) first.1 fb.grown.0
          (subst (λ i. i < length first.1) fa.is_place fa.in_table)
      ∙ sym fa.is_place in
    (
      (λ e.
          place-injective (file_normalise current a) (file_normalise current b) second.1
            (subst (λ i. i < length second.1) (sym (kept ∙ e)) fb.in_table)
            (kept ∙ e ∙ fb.is_place)),
      (λ e. sym kept ∙ ap (λ n. place n second.1) e ∙ sym fb.is_place),
    )
