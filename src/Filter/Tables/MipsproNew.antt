-- ===== src/Filter/Tables/MipsproNew.antt =====
-- filter_load of filter.c: the IRIX MIPSpro linker, and the new style of its compilers.
use maketool.Common.{List, [], ◌∷◌, some}
use maketool.Filter.Types.{done, error, pending, plain, undefined, warning}
use maketool.Filter.Load.{Directive, add, spec}

abbrev pub mipspro_new_filters : List Directive
mipspro_new_filters =
    add (
      spec "" "^(ld|ld32|ld64): ERROR[ \t]+[0-9]+[ \t]*: (.*)$" (plain error) "" "" "" (some "\\2")
        "MIPSpro ld error")
    ∷ add (
        spec ":Nmipspro1" "^cfe: Error: ([^ \t,]+), line ([0-9]+): (.*)$" (pending error) "\\1"
          "\\2" "" (some "\\3") "new MIPSpro cc/CC error")
    ∷ add (
        spec ":Nmipspro1" "^cfe: Warning [0-9]+: ([^ \t,]+), line ([0-9]+): (.*)$" (pending warning)
          "\\1" "\\2" "" (some "\\3") "new MIPSpro cc/CC warning")
    ∷ add (
        spec "Nmipspro1:Nmipspro2" "^ (.*)$" (pending undefined) "" "" "" (some "")
          "new MIPSpro multiline message 1")
    ∷ add (
        spec "Nmipspro2:" "^ [- \t]*\\^$" (plain done) "" "" "" (some "")
          "MIPSpro multiline message 5")
    ∷ add (
        spec "" "^cfe: Error: ([^ \t,]+):[ \t]*([0-9]+): (.*)$" (plain error) "\\1" "\\2" ""
          (some "\\3") "new MIPSpro cpp error")
    ∷ add (
        spec "" "^cfe: Warning [0-9]+: ([^ \t,]+):[ \t]*([0-9]+): (.*)$" (plain warning) "\\1" "\\2"
          "" (some "\\3") "new MIPSpro cpp warning")
    ∷ add (
        spec "" "^(as|as1): Warning: ([^ \t,]+), line ([0-9]+): (.*)$" (plain warning) "\\2" "\\3"
          "" (some "\\4") "new MIPSpro as warning")
    ∷ []
