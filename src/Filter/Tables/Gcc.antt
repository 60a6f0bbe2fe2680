-- ===== src/Filter/Tables/Gcc.antt =====
-- filter_load of filter.c: the GNU Compiler Collection.
use maketool.Common.{List, [], ◌∷◌, some, codes}
use maketool.Filter.Types.{error, information, plain, warning}
use maketool.Filter.Load.{Directive, add, spec, start_set}

abbrev pub gcc_filters : List Directive
gcc_filters =
    start_set (codes "GNU Compiler Collection")
    ∷ add (
        spec "" "^[^:]+:[0-9]+: \\(Each undeclared identifier is reported only once"
          (plain information) "" "" "" (some "") "gcc spurious message #1")
    ∷ add (
        spec "" "^[^:]+:[0-9]+: for each function it appears in.\\)" (plain information) "" "" ""
          (some "") "gcc spurious message #2")
    ∷ add (
        spec "" "^[^:]+: In function" (plain information) "" "" "" (some "")
          "gcc spurious message #3")
    ∷ add (
        spec "" "^([^: \t]+):([0-9]+):([0-9]+): [wW]arning:(.*)$" (plain warning) "\\1" "\\2" "\\3"
          (some "\\4") "new gcc warnings")
    ∷ add (
        spec "" "^\\{standard input\\}:([0-9]+): [wW]arning:(.*)$" (plain warning) "" "\\1" ""
          (some "\\2") "new gas warnings")
    ∷ add (
        spec "" "^([^: \t]+):([0-9]+): [wW]arning:(.*)$" (plain warning) "\\1" "\\2" "" (some "\\3")
          "gcc warnings")
    ∷ add (
        spec "" "^([^: \t]+):([0-9]+):([0-9]+):(.*)$" (plain error) "\\1" "\\2" "\\3" (some "\\4")
          "new gcc errors")
    ∷ add (
        spec "" "^([^: \t]+):([0-9]+):(.*)$" (plain error) "\\1" "\\2" "" (some "\\3") "gcc errors")
    ∷ add (
        spec "" "^In file included from ([^: \t]+):([0-9]+)[,:]$" (plain information) "\\1" "\\2" ""
          (some "Included from \\1:\\2") "gcc inclusion trace 1")
    ∷ add (
        spec "" "^[ \t]+from +([^: \t]+):([0-9]+)[,:]$" (plain information) "\\1" "\\2" ""
          (some "Included from \\1:\\2") "gcc inclusion trace 2")
    ∷ []
