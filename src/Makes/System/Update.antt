-- ===== src/Makes/System/Update.antt =====
-- makesys.c: when ms_makefile_needs_update says that the makefile is to be written again.
use maketool.Common.{
  ℕ, ◌≡◌, ◌≢◌, refl, ap, ◌∙◌, Bool, true, false, Option, none, some, List, [], ◌∷◌, ◌++◌,
  if◌then◌else◌, ltb, All, inl, inr, Bool-cases, Bytes,
}
use maketool.Makes.System.{
  enoent, other, Stat, mtime, failed, MakeSystem, is_enoent, StatState, stat_into, deps_loop,
  systems_loop, ms_makefile_needs_update,
}

-- A file that is missing, or newer than a makefile written at a time.
abbrev pub is_stale : ℕ → Stat → Bool
is_stale t (mtime u) = ltb t u
is_stale t (failed e) = is_enoent e

abbrev pub deps_of : Option (List Bytes) → List Bytes
deps_of none = []
deps_of (some deps) = deps

-- All files that a makefile depends on, by its system and the ancestors of that.
abbrev pub all_deps : List MakeSystem → List Bytes
all_deps [] = []
all_deps (ms ∷ parents) = deps_of ms.makefile_deps ++ all_deps parents

abbrev pub any_stale : (Bytes → Stat) → ℕ → List Bytes → Bool
any_stale stat t [] = false
any_stale stat t (d ∷ ds) = if is_stale t (stat d) then true else any_stale stat t ds

-- What ms_makefile_needs_update is for, by the state of the makefile.
abbrev pub out_of_date : (Bytes → Stat) → List Bytes → Stat → Bool
out_of_date stat deps (failed e) = is_enoent e
out_of_date stat deps (mtime t) = any_stale stat t deps

any_stale-append :
    (stat : Bytes → Stat) (t : ℕ) (xs ys : List Bytes)
    → any_stale stat t (xs ++ ys) ≡ (if any_stale stat t xs then true else any_stale stat t ys)
any_stale-append stat t [] ys = refl
any_stale-append stat t (x ∷ xs) ys = elim (Bool-cases (is_stale t (stat x))) [
  | inl e ↦ rw e refl
  | inr e ↦ rw e (any_stale-append stat t xs ys)
]

All-split : (P : Bytes → Type 0) (xs ys : List Bytes) → All P (xs ++ ys) → All P xs × All P ys
All-split P [] ys h = (tt, h)
All-split P (x ∷ xs) ys (h, hs) = let (a, b) = All-split P xs ys hs in ((h, a), b)

module _ (stat : Bytes → Stat) where
  -- A file that stat answers for, if it exists.
  abbrev pub Readable : Bytes → Type 0
  Readable d = stat d ≢ failed other

  abbrev Looped : Bool × StatState → Bool → Type 0
  Looped r b = (r.0 ≡ b) × (b ≡ false → r.1.errno ≡ other)

  deps_step :
      (t : ℕ) (dep : Bytes) (deps : List Bytes) (s : StatState) (st : Stat)
      → stat dep ≡ st
      → st ≢ failed other
      → s.errno ≡ other
      → ((s' : StatState)
          → s'.errno ≡ other
          → Looped (deps_loop stat t deps s') (any_stale stat t deps))
      → Looped (deps_loop stat t (dep ∷ deps) s) (any_stale stat t (dep ∷ deps))
  unfolding deps_loop stat_into
  deps_step t dep deps s (mtime u) e n clean ih = elim (Bool-cases (ltb t u)) [
    | inl new ↦ rw e (rw clean (rw new (refl, λ f. absurd (cc))))
    | inr old ↦ rw e (rw clean (rw old (ih (record { st_mtime = u; errno = other }) refl)))
  ]
  deps_step t dep deps s (failed enoent) e n clean ih = rw e (refl, λ f. absurd (cc))
  deps_step t dep deps s (failed other) e n clean ih = absurd (n refl)

  deps_loop-Looped :
      (t : ℕ) (deps : List Bytes) (s : StatState)
      → All Readable deps
      → s.errno ≡ other
      → Looped (deps_loop stat t deps s) (any_stale stat t deps)
  deps_loop-Looped t [] s r clean = unfold deps_loop in (refl, λ f. clean)
  deps_loop-Looped t (dep ∷ deps) s (r, rs) clean =
      deps_step t dep deps s (stat dep) refl r clean (λ s' c. deps_loop-Looped t deps s' rs c)

  by_deps :
      (t : ℕ) (parents : List MakeSystem) (s : StatState) (o : Option (List Bytes))
      → All Readable (deps_of o ++ all_deps parents)
      → s.errno ≡ other
      → ((s' : StatState)
          → s'.errno ≡ other
          → systems_loop stat t parents s' ≡ any_stale stat t (all_deps parents))
      → (elim o [
        | none ↦ systems_loop stat t parents s
        | some deps ↦
            if (deps_loop stat t deps s).0
            then true
            else systems_loop stat t parents (deps_loop stat t deps s).1
      ])
        ≡ any_stale stat t (deps_of o ++ all_deps parents)
  by_deps t parents s none r clean ih = ih s clean
  by_deps t parents s (some deps) r clean ih =
      let (here, later) = All-split Readable deps (all_deps parents) r in
      let (loop, left) = deps_loop-Looped t deps s here clean in
      rw (any_stale-append stat t deps (all_deps parents))
        (elim (Bool-cases (any_stale stat t deps)) [
          | inl e ↦ rw (loop ∙ e, e) refl
          | inr e ↦ rw (loop ∙ e, e) (ih (deps_loop stat t deps s).1 (left e))
        ])

  systems_loop_lem :
      (t : ℕ) (systems : List MakeSystem) (s : StatState)
      → All Readable (all_deps systems)
      → s.errno ≡ other
      → systems_loop stat t systems s ≡ any_stale stat t (all_deps systems)
  unfolding systems_loop
  systems_loop_lem t [] s r clean = refl
  systems_loop_lem t (ms ∷ parents) s r clean =
      by_deps t parents s ms.makefile_deps r clean (λ s' c.
        systems_loop_lem t parents s'
          (All-split Readable (deps_of ms.makefile_deps) (all_deps parents) r).1 c)

  by_makefile :
      (ms : MakeSystem) (parents : List MakeSystem) (m : Stat)
      → All Readable (all_deps (ms ∷ parents))
      → (elim m [
        | failed e ↦ is_enoent e
        | mtime t ↦ systems_loop stat t (ms ∷ parents) (record { st_mtime = t; errno = other })
      ])
        ≡ out_of_date stat (all_deps (ms ∷ parents)) m
  by_makefile ms parents (failed e) r = refl
  by_makefile ms parents (mtime t) r =
      systems_loop_lem t (ms ∷ parents) (record { st_mtime = t; errno = other }) r refl

  -- If stat fails for no dependency but for its absence, and errno is not left at ENOENT by an earlier
  -- call, ms_makefile_needs_update says that a makefile of an automatic system is to be written just
  -- when it is missing, or a file is missing or newer on which it depends by the system or one of the
  -- ancestors of that; for a system that is not automatic it says no.
  pub ms_makefile_needs_update-out_of_date :
      (ms : MakeSystem) (parents : List MakeSystem)
      → All Readable (all_deps (ms ∷ parents))
      → ms_makefile_needs_update stat ms parents other ≡ (
          if ms.automatic
          then out_of_date stat (all_deps (ms ∷ parents)) (stat ms.makefile)
          else false)
  unfolding ms_makefile_needs_update
  ms_makefile_needs_update-out_of_date ms parents r =
      ap (λ b. if ms.automatic then b else false) (by_makefile ms parents (stat ms.makefile) r)

  -- With errno left at ENOENT, the makefile of an automatic system, when it exists and the first of
  -- the system's own dependencies exists too, is said to be out of date, however old that file is.
  pub ms_makefile_needs_update_errno :
      (ms : MakeSystem) (parents : List MakeSystem) (dep : Bytes) (deps : List Bytes) (t u : ℕ)
      → ms.automatic ≡ true
      → stat ms.makefile ≡ mtime t
      → ms.makefile_deps ≡ some (dep ∷ deps)
      → stat dep ≡ mtime u
      → ms_makefile_needs_update stat ms parents enoent ≡ true
  unfolding ms_makefile_needs_update systems_loop deps_loop stat_into
  ms_makefile_needs_update_errno ms parents dep deps t u auto makefile has old =
      rw auto (rw makefile (rw has (rw old refl)))
