-- ===== src/Filter/Tables/Mipspro.antt =====
-- filter_load of filter.c: the IRIX MIPSpro compilers, old style: messages of several lines.
use maketool.Common.{List, [], ◌∷◌, some, none, codes}
use maketool.Filter.Types.{done, error, information, pending, plain, undefined, warning}
use maketool.Filter.Load.{Directive, add, spec, start_set}

abbrev pub mipspro_filters : List Directive
mipspro_filters =
    start_set (codes "IRIX MIPSpro compilers")
    ∷ add (spec "" "^--- [^ \t:]+ ---$" (plain information) "" "" "" (some "") "smake target name")
    ∷ add (
        spec ":mipspro1" "^cc-[0-9]+ (cc|CC): ERROR File = ([^ \t,]+), Line = ([0-9]+)"
          (pending error) "\\2" "\\3" "" none "MIPSpro cc/CC error")
    ∷ add (
        spec ":mipspro1" "^cc-[0-9]+ (cc|CC): WARNING File = ([^ \t,]+), Line = ([0-9]+)"
          (pending warning) "\\2" "\\3" "" none "MIPSpro cc/CC warning")
    ∷ add (
        spec ":mipspro1" "^cc-[0-9]+ (cc|CC): REMARK File = ([^ \t,]+), Line = ([0-9]+)"
          (pending warning) "\\2" "\\3" "" none "MIPSpro cc/CC remark")
    ∷ add (
        spec "mipspro1:mipspro2" "^[ \t]+(.*)$" (pending undefined) "" "" "" (some "\\1")
          "MIPSpro multiline message 1")
    ∷ add (
        spec "mipspro2:mipspro2a" "^[ \t]+(.*)$" (pending undefined) "" "" "" (some "\\1")
          "MIPSpro multiline message 2")
    ∷ add (
        spec "mipspro2a:mipspro3" "^$" (pending undefined) "" "" "" none
          "MIPSpro multiline message 2")
    ∷ add (
        spec "mipspro2:mipspro3" "^$" (pending undefined) "" "" "" none
          "MIPSpro multiline message 2")
    ∷ add (spec "mipspro3:" "^$" (plain done) "" "" "" none "MIPSpro multiline message 3a")
    ∷ add (
        spec "mipspro3:mipspro4" "^.*$" (pending undefined) "" "" "" none
          "MIPSpro multiline message 3")
    ∷ add (
        spec "mipspro4:mipspro5" "^[ \t]+\\^$" (pending undefined) "" "" "" none
          "MIPSpro multiline message 4")
    ∷ add (spec "mipspro5:" "^$" (plain done) "" "" "" none "MIPSpro multiline message 5")
    ∷ []
