-- ===== src/Util/Paths/Denormalise.antt =====
-- util.c: file_denormalise and file_normalise.
use maketool.Common.{
  ◌≡◌, sym, ◌∙◌, ◌≢◌, refl, ap, Bool, true, false, Option, none, some, [], ◌∷◌, ◌++◌, arith, Bytes,
  codes, All, strip_prefix, strip_prefix-append, strip_prefix_sound, ◌==◌, if◌then◌else◌, ◌⊎◌, inl,
  inr, Bool-cases, Option-cases,
}
use maketool.Util.Paths.{
  is_absolute, file_normalise, skip_slashes, at_component_end, replaced, denormalised,
  file_denormalise_1, or_else, file_denormalise,
}

skip_slashes-relative : (s : Bytes) → is_absolute s ≡ false → skip_slashes s ≡ s
unfolding skip_slashes is_absolute
skip_slashes-relative [] h = refl
skip_slashes-relative (c ∷ s) h = rw h refl

replaced_ne : (r t s : Bytes) → s ≢ [] → replaced r t s ≡ t ++ s
unfolding replaced
replaced_ne r t [] ne = absurd (ne refl)
replaced_ne r t (c ∷ s) ne = refl

nil-cases : (s : Bytes) → (s ≡ []) ⊎ (s ≢ [])
nil-cases [] = inl refl
nil-cases (c ∷ s) = inr (λ e. cc)

denormalise_prefixed :
    (current path : Bytes)
    → is_absolute path ≡ false
    → path ≢ []
    → file_denormalise_1 (current ++ b'/' ∷ path) current (codes ".") [] ≡ some path
unfolding file_denormalise_1
denormalise_prefixed current path rel ne =
    rw (strip_prefix-append current (b'/' ∷ path), denormalised)
      (ap some (rw (skip_slashes-relative path rel) (replaced_ne (codes ".") [] path ne)))

-- A relative path that is not empty, made absolute and shortened again, is itself: where the
-- current directory is removed, `file_denormalise` undoes `file_normalise`.
pub file_denormalise-file_normalise :
    (home current path : Bytes) (den_home : Bool)
    → is_absolute path ≡ false
    → path ≢ []
    → file_denormalise true den_home current home (file_normalise current path) ≡ path
unfolding file_denormalise file_normalise
file_denormalise-file_normalise home current path den_home rel ne =
    rw rel (rw (denormalise_prefixed current path rel ne))

abbrev pub Slashes : Bytes → Type 0
Slashes s = All (λ c. c ≡ b'/') s

skip_slashes-split :
    (s : Bytes)
    → (sl : Bytes) × Slashes sl
      × (s ≡ sl ++ skip_slashes s)
      × (is_absolute (skip_slashes s) ≡ false)
unfolding skip_slashes is_absolute
skip_slashes-split [] = ([], tt, refl, refl)
skip_slashes-split (c ∷ s) = elim (Bool-cases (c == b'/')) [
  | inl y ↦
      let (sl, all, e, r) = skip_slashes-split s in
      (c ∷ sl, (ground arith, all), rw y (ap (◌∷◌ c) e), rw y r)
  | inr n ↦ ([], tt, rw n refl, rw n n)
]

-- How a text splits into slashes and a rest that is put in place of the whole.
abbrev pub Splits : Bytes → Bytes → Bytes → Bytes → Type 0
Splits r replace0 replace1 d =
    (slashes rest : Bytes) × Slashes slashes
    × (r ≡ slashes ++ rest)
    × (is_absolute rest ≡ false)
    × (((rest ≡ []) × (d ≡ replace0)) ⊎ ((rest ≢ []) × (slashes ≢ []) × (d ≡ replace1 ++ rest)))

denormalised-Splits :
    (r replace0 replace1 d : Bytes)
    → denormalised replace0 replace1 (some r) ≡ some d
    → Splits r replace0 replace1 d
unfolding denormalised is_absolute
denormalised-Splits [] replace0 replace1 d h = (
  [],
  [],
  tt,
  refl,
  refl,
  inl (refl, unfold at_component_end skip_slashes replaced in ground arith),
)
denormalised-Splits (c ∷ s) replace0 replace1 d h = elim (Bool-cases (c == b'/')) [
  | inl y ↦
      let (sl, all, e, r) = skip_slashes-split s in
      let opened : some (replaced replace0 replace1 (skip_slashes s)) ≡ some d =
        unfold at_component_end skip_slashes in (rw y at h) in
      elim (nil-cases (skip_slashes s)) [
        | inl z ↦ (
          c ∷ sl,
          skip_slashes s,
          (ground arith, all),
          ap (◌∷◌ c) e,
          r,
          inl (z, unfold replaced in ground (arith, opened, z)),
        )
        | inr z ↦ (
          c ∷ sl,
          skip_slashes s,
          (ground arith, all),
          ap (◌∷◌ c) e,
          r,
          inr (z, (λ q. cc), cc (opened, replaced_ne replace0 replace1 (skip_slashes s) z)),
        )
      ]
  | inr n ↦ absurd (unfold at_component_end in ground arith)
]

-- Whatever `file_denormalise_1` returns, the prefix was followed by slashes up to the end and is
-- replaced whole, or by at least one slash and a rest that starts with none and is kept.
file_denormalise_1_sound :
    (path pref replace0 replace1 d : Bytes)
    → file_denormalise_1 path pref replace0 replace1 ≡ some d
    → (r : Bytes) × (path ≡ pref ++ r) × Splits r replace0 replace1 d
unfolding file_denormalise_1
file_denormalise_1_sound path pref replace0 replace1 d h =
    elim (Option-cases (strip_prefix pref path)) [
      | inl e ↦ absurd (unfold denormalised in cc (rw e at h))
      | inr (r, e) ↦ (
        r,
        strip_prefix_sound pref path r e,
        denormalised-Splits r replace0 replace1 d (rw e at h),
      )
    ]

append_ne : (t s : Bytes) → s ≢ [] → t ++ s ≢ []
append_ne [] s ne e = ne e
append_ne (c ∷ t) s ne e = absurd (cc)

file_denormalise_1_ne :
    (path pref replace0 replace1 d : Bytes)
    → replace0 ≢ []
    → file_denormalise_1 path pref replace0 replace1 ≡ some d
    → d ≢ []
file_denormalise_1_ne path pref replace0 replace1 d ne h =
    let (r, p, (sl, rest, all, e, rel, cases)) =
      file_denormalise_1_sound path pref replace0 replace1 d h in
    elim cases [
      | inl (z, q) ↦ λ e'. ne (sym q ∙ e')
      | inr (z, w, q) ↦ λ e'. append_ne replace1 rest z (sym q ∙ e')
    ]

or_else_ne :
    (o : Option Bytes) (s : Bytes) → ((d : Bytes) → o ≡ some d → d ≢ []) → s ≢ [] → or_else o s ≢ []
unfolding or_else
or_else_ne none s h ne = ne
or_else_ne (some d) s h ne = h d refl

if_ne :
    (b : Bool) (o : Option Bytes)
    → ((d : Bytes) → o ≡ some d → d ≢ [])
    → (d : Bytes) → (if b then o else none) ≡ some d
    → d ≢ []
if_ne true o h d e = h d e
if_ne false o h d e = absurd (cc)

-- A path that is not empty is not shortened to nothing.
pub file_denormalise_ne :
    (den_pwd den_home : Bool) (current home path : Bytes)
    → path ≢ []
    → file_denormalise den_pwd den_home current home path ≢ []
unfolding file_denormalise
file_denormalise_ne den_pwd den_home current home path ne =
    or_else_ne (if den_pwd then file_denormalise_1 path current (codes ".") [] else none)
      (or_else (if den_home then file_denormalise_1 path home (codes "~") (codes "~/") else none)
        path)
      (if_ne den_pwd (file_denormalise_1 path current (codes ".") [])
        (λ d e. file_denormalise_1_ne path current (codes ".") [] d (λ z. absurd (cc)) e))
      (or_else_ne (if den_home then file_denormalise_1 path home (codes "~") (codes "~/") else none)
        path
        (if_ne den_home (file_denormalise_1 path home (codes "~") (codes "~/"))
          (λ d e. file_denormalise_1_ne path home (codes "~") (codes "~/") d (λ z. absurd (cc)) e))
        ne)
