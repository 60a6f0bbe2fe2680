-- ===== src/Makes/Targets/Database.antt =====
-- gmake.c and pmake.c: the targets that are read from the database which gmake prints.
use maketool.Common.{◌≡◌, false, List, Bytes, codes, starts_with, All}

-- Lines behind the files.
abbrev pub IsBack : List Bytes → Type 0
IsBack bufs = All (λ buf. starts_with (codes "# Files") buf ≡ false) bufs

-- Lines in front of the files.
abbrev pub IsFront : List Bytes → Type 0
IsFront bufs =
    All
      (λ buf.
        (starts_with (codes "# Files") buf ≡ false)
        × (starts_with (codes "# Not a target:") buf ≡ false))
      bufs
