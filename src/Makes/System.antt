-- ===== src/Makes/System.antt =====
-- makesys.c and makeprog.c: which make system a directory has, and whether its makefile is out of
-- date. What stat says of a file is a parameter: its modification time, or the error.
pub mod Update
use maketool.Common.{
  ℕ, ◌+◌, ◌≤◌, ◌<◌, ◌≡◌, ◌≢◌, refl, sym, ap, ◌∙◌, ◌⊎◌, ◌↔◌, Bool, true, false, Option, none, some,
  List, [], ◌∷◌, ◌++◌, arith, if◌then◌else◌, ◌==◌, ltb, any, All, inl, inr, Bool-cases, Bytes,
  str_eq, codes,
}

-- errno, where stat fails
pub data Errno : Type 0 where
  enoent other : Errno

pub data Stat : Type 0 where
  mtime : ℕ → Stat
  failed : Errno → Stat

-- The fields of MakeSystem that the functions below read, with those of its ancestors behind it,
-- and the other way round: the list that `parent` leads along.
pub record MakeSystem : Type 0 where
  pub name : Bytes
  pub automatic : Bool
  pub makefile : Bytes
  pub makefile_deps : Option (List Bytes)
  pub standard_targets : Option (List Bytes)

abbrev is_enoent : Errno → Bool
is_enoent enoent = true
is_enoent other = false

-- `sb.st_mtime` and `errno`, which a call of stat changes
pub record StatState : Type 0 where
  pub st_mtime : ℕ
  pub errno : Errno

-- what a call of stat leaves in them
unfoldable pub stat_into : Stat → StatState → StatState
stat_into (mtime t) s = record s { st_mtime = t }
stat_into (failed e) s = record s { errno = e }

module _ (stat : Bytes → Stat) where
  -- The loop over the dependencies of a system: whether it returns, and what it leaves. The test is
  -- `stat(...) <= 0`, so it also reads errno behind a call that succeeds.
  unfoldable pub deps_loop : ℕ → List Bytes → StatState → Bool × StatState
  unfolding stat_into
  deps_loop mf_mtime [] s = (false, s)
  deps_loop mf_mtime (dep ∷ deps) s =
      let s' = stat_into (stat dep) s in
      let rest = deps_loop mf_mtime deps s' in
      if is_enoent s'.errno
      then (true, s')
      else if ltb mf_mtime s'.st_mtime
      then (true, s')
      else rest

  -- the loop along `parent`
  unfoldable pub systems_loop : ℕ → List MakeSystem → StatState → Bool
  unfolding deps_loop
  systems_loop mf_mtime [] s = false
  systems_loop mf_mtime (ms ∷ parents) s = elim ms.makefile_deps [
    | none ↦ systems_loop mf_mtime parents s
    | some deps ↦
        let rest = systems_loop mf_mtime parents (deps_loop mf_mtime deps s).1 in
        if (deps_loop mf_mtime deps s).0 then true else rest
  ]

  -- ms_makefile_needs_update, for a system and its ancestors, with the errno that is left from before
  unfoldable pub ms_makefile_needs_update : MakeSystem → List MakeSystem → Errno → Bool
  unfolding systems_loop
  ms_makefile_needs_update ms parents errno =
      if ms.automatic
      then (elim (stat ms.makefile) [
        | failed e ↦ is_enoent e
        | mtime t ↦ systems_loop t (ms ∷ parents) (record { st_mtime = t; errno = errno })
      ])
      else false

-- the loop over the targets of ms_is_standard_target
unfoldable pub is_in : Bytes → List Bytes → Bool
is_in targ [] = false
is_in targ (t ∷ ts) = if str_eq t targ then true else is_in targ ts

-- gnu_standard_targets
abbrev pub gnu_standard_targets : List Bytes
gnu_standard_targets =
    codes "all"
    ∷ codes "install"
    ∷ codes "install-strip"
    ∷ codes "installcheck"
    ∷ codes "installdirs"
    ∷ codes "uninstall"
    ∷ codes "mostlyclean"
    ∷ codes "clean"
    ∷ codes "distclean"
    ∷ codes "reallyclean"
    ∷ codes "maintainer-clean"
    ∷ codes "TAGS"
    ∷ codes "tags"
    ∷ codes "info"
    ∷ codes "dvi"
    ∷ codes "dist"
    ∷ codes "check"
    ∷ []

-- the first loop of ms_is_standard_target, along `parent`
unfoldable pub targets_of : List MakeSystem → List Bytes
targets_of [] = gnu_standard_targets
targets_of (ms ∷ parents) = elim ms.standard_targets [ none ↦ targets_of parents | some ts ↦ ts ]

-- ms_is_standard_target
unfoldable pub ms_is_standard_target : List MakeSystem → Bytes → Bool
unfolding targets_of is_in
ms_is_standard_target systems targ = is_in targ (targets_of systems)

-- mp_which_makefile, on the makefiles of a make program
unfoldable pub mp_which_makefile : (Bytes → Bool) → List Bytes → Option Bytes
mp_which_makefile file_exists [] = none
mp_which_makefile file_exists (fn ∷ makefiles) =
    if file_exists fn then some fn else mp_which_makefile file_exists makefiles
