-- ===== src/Log/Filenames.antt =====
-- log.c, log_get_filenames: the files that a message may name. Directories of the context are known
-- by their places in `dir_hash`; whether a file exists is a parameter. No files are the null pointer.
pub mod Found
use maketool.Common.{
  ℕ, Bool, true, false, Option, none, some, List, [], ◌∷◌, ◌++◌, ◌==◌, if◌then◌else◌, Bytes,
}
use maketool.Util.Paths.{file_normalise, is_absolute}

-- the loop over the directories in front of one, for that one
unfoldable pub is_seen : ℕ → List ℕ → Bool
is_seen dir [] = false
is_seen dir (d ∷ dirs) = if dir == d then true else is_seen dir dirs

module _ (file_exists : Bytes → Bool) (name_of : ℕ → Bytes) (current : Bytes) where
  unfoldable pub if_exists : Bytes → List Bytes
  if_exists file = if file_exists file then file ∷ [] else []

  -- the loop over the directories, with those that it has been through
  unfoldable pub files_in : Bytes → List ℕ → List ℕ → List Bytes
  unfolding is_seen if_exists
  files_in file seen [] = []
  files_in file seen (dir ∷ dirs) =
      (if is_seen dir seen then [] else if_exists (name_of dir ++ b'/' ∷ file))
      ++ files_in file (dir ∷ seen) dirs

  unfoldable pub files_of_context : Bytes → Option (List ℕ) → List Bytes
  unfolding files_in
  files_of_context file none = if_exists (file_normalise current file)
  files_of_context file (some []) = if_exists (file_normalise current file)
  files_of_context file (some (dir ∷ dirs)) = files_in file [] (dir ∷ dirs)

  -- log_get_filenames, on the file and the context of a record
  unfoldable pub log_get_filenames : Bytes → Option (List ℕ) → List Bytes
  unfolding files_of_context
  log_get_filenames file context =
      if is_absolute file then if_exists file else files_of_context file context
