-- ===== src/Log/Lines/Classify.antt =====
-- log.c: the `switch` of log_add_line.
use maketool.Common.{
  ◌≡◌, ◌≢◌, refl, ap, ◌⊎◌, true, false, Option, none, some, [], ◌∷◌, arith, Bytes, inl, inr,
  Bool-cases,
}
use mathlib.Core.Path.{subst}
use maketool.Util.Paths.{file_denormalise}
use maketool.Util.Paths.Denormalise.{file_denormalise_ne}
use maketool.Filter.Types.{
  Kind, undefined, information, warning, error, build_start, change_dir, push_dir, pop_dir, done,
  plain, FilterResult,
}
use maketool.Filter.Checks.{is_logged}
use maketool.Log.Dirs.{Dirs, dirs_below, log_push_dir, log_pop_dir}
use maketool.Log.Dirs.Context.{
  Coherent, log_get_context-Read, log_push_dir-Coherent, log_pop_dir-Coherent,
}
use maketool.Log.Records.{LogFlags, switch_kind, enters, disappears}
use maketool.Log.Lines.{Surroundings, Classified, needs_context, in_context, classify_as}
use maketool.Log.Lines.Stack.{pushes}
use maketool.Log.Lines.Shown.{Stackable}

-- A message about a directory says which one.
abbrev pub SaysWhich : FilterResult → Type 0
SaysWhich res =
    (switch_kind res.code ≡ push_dir) ⊎ (switch_kind res.code ≡ pop_dir)
    → (f : Bytes) × (res.file ≡ some f) × (f ≢ [])

enters-pushes : (k : Kind) → enters k ≡ true → pushes k ≡ true
enters-pushes k h = ground arith

disappears_ne :
    (flags : LogFlags) (res : FilterResult) (s : Bytes)
    → s ≢ []
    → disappears flags (record res { summary = some s }) ≡ false
unfolding disappears
disappears_ne flags res [] ne = absurd (ne refl)
disappears_ne flags res (c ∷ s) ne = refl

-- A kind that does not put its record on the stack.
plain-Stackable :
    (flags : LogFlags) (res : FilterResult) (k : Kind)
    → switch_kind res.code ≡ k
    → pushes k ≡ false
    → Stackable flags res
plain-Stackable flags res k e h = (
  λ p. absurd (cc (ap pushes e, p, h)),
  λ d. absurd (cc (enters-pushes k (subst (λ k. enters k ≡ true) e d), h)),
)

-- What the `switch` gives: its result may be shown, and the directories are coherent again.
abbrev pub Sorted : LogFlags → Option Classified → Type 0
Sorted flags r = (out : Classified) × (r ≡ some out) × Stackable flags out.0 × Coherent out.2

in_context_total :
    (flags : LogFlags) (res : FilterResult) (dirs : Dirs)
    → Coherent dirs
    → Stackable flags res
    → Sorted flags (in_context res dirs)
unfolding in_context
in_context_total flags res dirs k fine = elim (Bool-cases (needs_context res.file)) [
  | inl y ↦
      let (dirs', p, k') = log_get_context-Read dirs k in
      ((res, some (dirs_below dirs.dir_max_depth dirs.dir_stack), dirs'), rw (y, p) refl, fine, k')
  | inr n ↦ ((res, none, dirs), rw n refl, fine, k)
]

module _ (env : Surroundings) (res : FilterResult) (dirs : Dirs) (k_dirs : Coherent dirs) where
  default_total :
      (k : Kind)
      → switch_kind res.code ≡ k
      → pushes k ≡ false
      → Sorted env.flags (in_context res dirs)
  default_total k e h =
      in_context_total env.flags res dirs k_dirs (plain-Stackable env.flags res k e h)

  pub classify_as_total :
      (k : Kind)
      → switch_kind res.code ≡ k
      → is_logged k ≡ true
      → SaysWhich res
      → Sorted env.flags (classify_as k env res dirs)
  unfolding classify_as is_logged
  classify_as_total undefined e logged which = (
    (record res { code = plain information }, none, dirs),
    refl,
    plain-Stackable env.flags (record res { code = plain information }) information refl refl,
    k_dirs,
  )
  classify_as_total change_dir e logged which = absurd (cc)
  classify_as_total build_start e logged which = absurd (cc)
  classify_as_total push_dir e logged which =
      let (f, p, ne) = which (inl e) in
      let short : Bytes = file_denormalise true true env.current env.home f in
      let out : FilterResult = record res { summary = some short } in
      (
        (out, none, log_push_dir env.current res.line f dirs),
        rw p refl,
        (
          (λ h.
              disappears_ne env.flags res short
                (file_denormalise_ne true true env.current env.home f ne)),
          (λ h. (f, p)),
        ),
        log_push_dir-Coherent env.current res.line f dirs k_dirs,
      )
  classify_as_total pop_dir e logged which =
      let (f, p, ne) = which (inr e) in
      (
        (res, none, log_pop_dir env.current res.line f dirs),
        rw p refl,
        plain-Stackable env.flags res pop_dir e refl,
        log_pop_dir-Coherent env.current res.line f dirs k_dirs,
      )
  classify_as_total information e logged which = default_total information e refl
  classify_as_total warning e logged which = default_total warning e refl
  classify_as_total error e logged which = default_total error e refl
  classify_as_total done e logged which = default_total done e refl
