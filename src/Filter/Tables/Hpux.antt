-- ===== src/Filter/Tables/Hpux.antt =====
-- filter_load of filter.c: the HP-UX compilers.
use maketool.Common.{List, [], ◌∷◌, some, codes}
use maketool.Filter.Types.{error, plain, warning}
use maketool.Filter.Load.{Directive, add, spec, start_set}

abbrev pub hpux_filters : List Directive
hpux_filters =
    start_set (codes "HP-UX compilers")
    ∷ add (
        spec "" "(CC|cpp): \"([^\"]*)\", line ([0-9]+): error(.*)$" (plain error) "\\2" "\\3" ""
          (some "\\4") "HP-UX old CC/cpp error")
    ∷ add (
        spec "" "(CC|cpp): \"([^\"]*)\", line ([0-9]+): warning(.*)$" (plain warning) "\\2" "\\3" ""
          (some "\\4") "HP-UX old CC/cpp warning")
    ∷ []
