-- ===== src/Util/Paths/Cache.antt =====
-- util.c: the cached working directory.
use maketool.Common.{◌≡◌, refl, Option, none, some, Bytes}
use maketool.Util.Paths.{Current, file_current, file_change_current}

-- After a change of directory that succeeds, file_current gives the directory that the process is
-- now in, and so does asking again, whatever was cached before.
pub file_current-file_change_current :
    (chdir : Bytes → Bytes → Option Bytes) (dir d : Bytes) (c : Current)
    → chdir c.process dir ≡ some d
    → (c' : Current) × (file_change_current chdir dir c ≡ some c')
      × ((file_current c').0 ≡ d)
      × ((file_current (file_current c').1).0 ≡ d)
unfolding file_current file_change_current
file_current-file_change_current chdir dir d c h =
    (record { cached = none; process = d }, rw (file_change_current, h), refl, refl)
