-- ===== src/Filter/Tables/Parsers.antt =====
-- filter_load of filter.c: Bison and Flex.
use maketool.Common.{List, [], ◌∷◌, some, codes}
use maketool.Filter.Types.{error, plain, warning}
use maketool.Filter.Load.{Directive, add, spec, start_set}

abbrev pub parser_generator_filters : List Directive
parser_generator_filters =
    start_set (codes "Bison & Flex")
    ∷ add (
        spec "" "^\\(\"([^\"]+)\", line ([0-9]+)\\) [Ee]rror: (.*)$" (plain error) "\\1" "\\2" ""
          (some "\\3") "bison errors")
    ∷ add (
        spec "" "^\"([^\"]*)\", line ([0-9]+): [Ww]arning: (.*)$" (plain warning) "\\1" "\\2" ""
          (some "\\3") "flex warnings")
    ∷ add (
        spec "" "^\"([^\"]*)\", line ([0-9]+): (.*)$" (plain error) "\\1" "\\2" "" (some "\\3")
          "flex errors")
    ∷ []
