-- ===== src/Filter/Tables/Mwos.antt =====
-- filter_load of filter.c: the Microware OS-9 cross-compilers.
use maketool.Common.{List, [], ◌∷◌, some, codes}
use maketool.Filter.Types.{error, information, plain, warning}
use maketool.Filter.Load.{Directive, add, spec, start_set}

abbrev pub mwos_filters : List Directive
mwos_filters =
    start_set (codes "Microware OS-9 cross-compilers")
    ∷ add (
        spec "" "^\"([^\" \t]+)\", line ([0-9]+): error:(.*)$" (plain error) "\\1" "\\2" ""
          (some "\\3") "MWOS xcc errors")
    ∷ add (
        spec "" "^\"([^\" \t]+)\", line ([0-9]+): warning:(.*)$" (plain warning) "\\1" "\\2" ""
          (some "\\3") "MWOS xcc warnings")
    ∷ add (
        spec "" "^xcc.*[ \t]-r[ \t].*[ \t]([^ \t]*\\.)(c)" (plain information) "\\1\\2" "" ""
          (some "Compiling \\1\\2") "xcc C compile line")
    ∷ []
