-- ===== src/Log/Filenames/Found.antt =====
-- log.c, log_get_filenames: which files it finds, and how often.
use maketool.Common.{
  ℕ, ◌+◌, ◌<◌, ◌≡◌, refl, sym, ap, ◌∙◌, Bool, true, false, not, ◌&&◌, some, List, [], ◌∷◌, ◌++◌,
  ◌==◌, ==_iff, if◌then◌else◌, Bytes, str_eq, str_eq_iff, any, All, arith, length, length-append,
  inl, inr, Bool-cases,
}
use maketool.Util.Paths.{is_absolute}
use maketool.Log.Filenames.{is_seen, if_exists, files_in, files_of_context, log_get_filenames}

-- How often a name stands in a list.
unfoldable pub times : Bytes → List Bytes → ℕ
times f [] = 0
times f (g ∷ gs) = (if str_eq f g then 1 else 0) + times f gs

abbrev pub one_if : Bool → ℕ
one_if b = if b then 1 else 0

times-append : (f : Bytes) (xs ys : List Bytes) → times f (xs ++ ys) ≡ times f xs + times f ys
unfolding times
times-append f [] ys = omega arith
times-append f (x ∷ xs) ys = ground (arith, times-append f xs ys)

append-right_injective : (a b s : Bytes) → a ++ s ≡ b ++ s → a ≡ b
append-right_injective [] [] s h = refl
append-right_injective [] (y ∷ b) s h = absurd (omega (arith, ap length h, length-append (y ∷ b) s))
append-right_injective (x ∷ a) [] s h = absurd (omega (arith, ap length h, length-append (x ∷ a) s))
append-right_injective (x ∷ a) (y ∷ b) s h =
    let tails : a ++ s ≡ b ++ s = cc in
    let heads : x ≡ y = cc in cc (append-right_injective a b s tails, heads)

-- Different places below `n` have different names, as log_unique_dir gives them.
abbrev pub Apart : (ℕ → Bytes) → ℕ → Type 0
Apart name_of n = (a b : ℕ) → a < n → b < n → name_of a ≡ name_of b → a ≡ b

-- `ff`
abbrev path : (ℕ → Bytes) → Bytes → ℕ → Bytes
path name_of file dir = name_of dir ++ b'/' ∷ file

-- A name is that of the file in a directory.
abbrev pub names : (ℕ → Bytes) → Bytes → Bytes → ℕ → Bool
names name_of file f dir = str_eq f (path name_of file dir)

module _ (file_exists : Bytes → Bool) (name_of : ℕ → Bytes) (current file : Bytes) where
  times-if_exists :
      (f g : Bytes)
      → times f (if_exists file_exists name_of current g) ≡ one_if (str_eq f g && file_exists f)
  unfolding times if_exists
  times-if_exists f g = ground (arith, str_eq_iff f g)

  -- The loop may still find the file at a directory.
  abbrev hit : Bytes → List ℕ → ℕ → Bool
  hit f seen dir = names name_of file f dir && not (is_seen dir seen)

  hit_cons :
      (f : Bytes) (seen : List ℕ) (d x : ℕ) → hit f (d ∷ seen) x ≡ (hit f seen x && not (x == d))
  unfolding is_seen
  hit_cons f seen d x = ground arith

  any-cons :
      (f : Bytes) (seen seen' dirs : List ℕ) (x : ℕ)
      → hit f seen x ≡ hit f seen' x
      → any (hit f seen) dirs ≡ any (hit f seen') dirs
      → any (hit f seen) (x ∷ dirs) ≡ any (hit f seen') (x ∷ dirs)
  any-cons f seen seen' dirs x h rest =
      ap (λ b. elim b [ true ↦ true | false ↦ any (hit f seen) dirs ]) h
      ∙ ap (λ r. elim (hit f seen' x) [ true ↦ true | false ↦ r ]) rest

  hit_same :
      (f : Bytes) (seen : List ℕ) (d x : ℕ)
      → hit f seen d ≡ false
      → hit f (d ∷ seen) x ≡ hit f seen x
  hit_same f seen d x h = elim (Bool-cases (x == d)) [
    | inl y ↦
        let at_x : hit f seen x ≡ false = ap (hit f seen) ((==_iff x d).0 y) ∙ h in
        hit_cons f seen d x ∙ ap (λ b. b && not (x == d)) at_x ∙ sym at_x
    | inr n ↦ hit_cons f seen d x ∙ ground (arith, n)
  ]

  any_same :
      (f : Bytes) (seen dirs : List ℕ) (d : ℕ)
      → hit f seen d ≡ false
      → any (hit f (d ∷ seen)) dirs ≡ any (hit f seen) dirs
  any_same f seen [] d h = refl
  any_same f seen (x ∷ dirs) d h =
      any-cons f (d ∷ seen) seen dirs x (hit_same f seen d x h) (any_same f seen dirs d h)

  names-path : (f : Bytes) (dir : ℕ) → names name_of file f dir ≡ true → f ≡ path name_of file dir
  names-path f dir h = (str_eq_iff f (path name_of file dir)).0 h

  hit_once :
      (n : ℕ) (f : Bytes) (seen : List ℕ) (d x : ℕ)
      → Apart name_of n
      → d < n
      → x < n
      → hit f seen d ≡ true
      → hit f (d ∷ seen) x ≡ false
  hit_once n f seen d x inj lt l h = elim (Bool-cases (x == d)) [
    | inl y ↦ hit_cons f seen d x ∙ ground (arith, y)
    | inr other ↦ elim (Bool-cases (names name_of file f x)) [
      | inl named ↦
          let here : names name_of file f d ≡ true = ground (arith, h) in
          let same : path name_of file x ≡ path name_of file d =
            sym (names-path f x named) ∙ names-path f d here in
          let x_is_d =
            inj x d l lt (append-right_injective (name_of x) (name_of d) (b'/' ∷ file) same) in
          absurd (cc ((==_iff x d).1 x_is_d, other))
      | inr unnamed ↦ ap (λ b. b && not (is_seen x (d ∷ seen))) unnamed
    ]
  ]

  any_once :
      (n : ℕ) (f : Bytes) (seen dirs : List ℕ) (d : ℕ)
      → Apart name_of n
      → d < n
      → All (λ x. x < n) dirs
      → hit f seen d ≡ true
      → any (hit f (d ∷ seen)) dirs ≡ false
  any_once n f seen [] d inj lt below h = refl
  any_once n f seen (x ∷ dirs) d inj lt (l, below) h =
      ap (λ b. elim b [ true ↦ true | false ↦ any (hit f (d ∷ seen)) dirs ])
        (hit_once n f seen d x inj lt l h)
      ∙ any_once n f seen dirs d inj lt below h

  -- What one round of the loop finds.
  abbrev found_at : List ℕ → ℕ → List Bytes
  found_at seen d =
      if is_seen d seen then [] else if_exists file_exists name_of current (path name_of file d)

  times-found_at :
      (f : Bytes) (seen : List ℕ) (d : ℕ)
      → times f (found_at seen d) ≡ one_if (hit f seen d && file_exists f)
  times-found_at f seen d =
      let head = times-if_exists f (path name_of file d) in
      elim (Bool-cases (is_seen d seen)) [
        | inl y ↦ unfold times in ground (arith, y)
        | inr n ↦ rw n (ground (arith, head))
      ]

  add_up :
      (b r s e : Bool)
      → (b ≡ true → r ≡ false)
      → (b ≡ false → r ≡ s)
      → one_if (b && e) + one_if (r && e) ≡ one_if (elim b [ true ↦ true | false ↦ s ] && e)
  add_up true r s e h0 h1 = ground (arith, h0 refl)
  add_up false r s e h0 h1 = ground (arith, h1 refl)

  times-files_in :
      (n : ℕ) (f : Bytes) (seen dirs : List ℕ)
      → Apart name_of n
      → All (λ x. x < n) dirs
      → times f (files_in file_exists name_of current file seen dirs)
        ≡ one_if (any (hit f seen) dirs && file_exists f)
  unfolding files_in
  times-files_in n f seen [] inj below = unfold times in refl
  times-files_in n f seen (d ∷ dirs) inj (l, below) =
      let rest = times-files_in n f (d ∷ seen) dirs inj below in
      let others = files_in file_exists name_of current file (d ∷ seen) dirs in
      times-append f (found_at seen d) others
      ∙ ap (λ k. k + times f others) (times-found_at f seen d)
      ∙ ap (λ k. one_if (hit f seen d && file_exists f) + k) rest
      ∙ add_up (hit f seen d) (any (hit f (d ∷ seen)) dirs) (any (hit f seen) dirs) (file_exists f)
          (any_once n f seen dirs d inj l below) (any_same f seen dirs d)

  any-names : (f : Bytes) (dirs : List ℕ) → any (hit f []) dirs ≡ any (names name_of file f) dirs
  unfolding is_seen
  any-names f [] = refl
  any-names f (d ∷ dirs) = ground (arith, any-names f dirs)

  -- In a context with directories, log_get_filenames finds a relative name once if it is the file in
  -- one of the directories and exists, and not at all otherwise, also where a directory stands twice in the context.
  pub times-log_get_filenames :
      (n : ℕ) (f : Bytes) (dir : ℕ) (dirs : List ℕ)
      → is_absolute file ≡ false
      → Apart name_of n
      → All (λ x. x < n) (dir ∷ dirs)
      → times f (log_get_filenames file_exists name_of current file (some (dir ∷ dirs)))
        ≡ one_if (any (names name_of file f) (dir ∷ dirs) && file_exists f)
  unfolding log_get_filenames files_of_context
  times-log_get_filenames n f dir dirs rel inj below = rw rel (
      times-files_in n f [] (dir ∷ dirs) inj below
      ∙ ap (λ b. one_if (b && file_exists f)) (any-names f (dir ∷ dirs)))
