-- ===== src/Filter/Tables/Common.antt =====
-- filter_load of filter.c: compile lines, the Linux kernel and the directory messages of make.
use maketool.Common.{List, [], ◌∷◌, some, codes}
use maketool.Filter.Types.{information, plain, pop_dir, push_dir}
use maketool.Filter.Load.{Directive, add, spec, start_set}

abbrev pub common_filters : List Directive
common_filters =
    start_set (codes "Generic UNIX C compiler")
    ∷ add (
        spec ""
          "^[ \t]*(/[^ \t:#]+/)*(cc|c89|gcc|CC|c\\+\\+|g\\+\\+)([ \t]|[ \t].*[ \t])-c([ \t]|[ \t].*[ \t])([^ \t]*\\.)(c|C|cc|c\\+\\+|cpp)"
          (plain information) "\\5\\6" "" "" (some "Compiling \\5\\6") "C/C++ compile line")
    ∷ start_set (codes "GNU cross-compilers")
    ∷ add (
        spec ""
          "^[ \t]*(/[^ \t:#]+/)*[-/a-z0-9]+-(cc|gcc|c\\+\\+|g\\+\\+).*[ \t]-c([ \t]|[ \t].*[ \t])([^ \t]+\\.)(c|C|cc|c\\+\\+|cpp)"
          (plain information) "\\4\\5" "" "" (some "Cross-compiling \\4\\5")
          "GNU C/C++ cross-compile line")
    ∷ start_set (codes "Linux kernel build")
    ∷ add (
        spec "" "^(/[^ \t:#]+/)+scripts/mkdep" (plain information) "" "" ""
          (some "Building dependencies") "Linux mkdep line")
    ∷ start_set (codes "GNU make directory messages")
    ∷ add (
        spec "" "^(gmake|make|smake|pmake)\\[([0-9]+)\\]: Entering directory `([^']+)'"
          (plain push_dir) "\\3" "\\2" "" (some "") "make recursion - push")
    ∷ add (
        spec "" "^(gmake|make|smake|pmake)\\[([0-9]+)\\]: Leaving directory `([^']+)'"
          (plain pop_dir) "\\3" "\\2" "" (some "") "make recursion - pop")
    ∷ []
