-- ===== src/Filter/Tables/Others.antt =====
-- filter_load of filter.c: Pro/C, link lines, configure scripts and Java.
use maketool.Common.{List, [], ◌∷◌, some, none, codes}
use maketool.Filter.Types.{error, information, plain}
use maketool.Filter.Load.{Directive, add, spec, start_set}

abbrev pub other_filters : List Directive
other_filters =
    start_set (codes "Oracle Pro/C")
    ∷ add (
        spec ""
          "(Semantic|Syntax|Parser) error at line ([0-9]+), column ([0-9]+), file[ \t]*([^ \t]*):(.*)$"
          (plain error) "\\4" "\\2" "\\3" (some "\\1 error: \\5") "Oracle Pro/C error")
    ∷ start_set (codes "Generic UNIX C compiler")
    ∷ add (
        spec "" "^[ \t]*(/[^ \t:#]+/)*(cc|c89|gcc|CC|c\\+\\+|g\\+\\+|ld).*[ \t]+-o[ \t]+([^ \t]+)"
          (plain information) "" "" "" (some "Linking \\3") "C/C++ link line")
    ∷ start_set (codes "GNU cross-compilers")
    ∷ add (
        spec ""
          "^[ \t]*(/[^ \t:#]+/)*[-/a-z0-9]+-(cc|gcc|c\\+\\+|g\\+\\+|ld).*[ \t]+-o[ \t]+([^ \t]+)"
          (plain information) "" "" "" (some "Cross-linking \\3") "GNU C/C++ cross-link line")
    ∷ start_set (codes "Generic UNIX C compiler")
    ∷ add (
        spec "" "^[ \t]*(/[^ \t:#]+/)*ar[ \t][ \t]*[rc][a-z]*[ \t][ \t]*(lib[^ \t]*.a)"
          (plain information) "" "" "" (some "Building library \\2") "Archive library link line")
    ∷ start_set (codes "GNU autoconf messages")
    ∷ add (
        spec "" "^creating ([^ \t]+)$" (plain information) "\\1" "" "" none
          "configure script output file 1")
    ∷ add (
        spec "" "^([^ \t]+) is unchanged$" (plain information) "\\1" "" "" none
          "configure script output file 2")
    ∷ start_set (codes "Sun Java")
    ∷ add (
        spec "" "^javac[ \t].*[ \t]([A-Za-z_*][A-Za-z0-3_*]*).java" (plain information) "\\1.java"
          "" "" (some "Compiling \\1.java") "Java compile line")
    ∷ []
