-- ===== src/Agent/Files.antt =====
-- `distributeFile`, on the part of a file system that it uses.
use compute_sentry.Prelude.{
  ℕ, Bool, not, Option, none, some, List, [], ◌∷◌, take, maybe, if◌then◌else◌,
}
use compute_sentry.Prelude.Text.{Text, text_eq}
use compute_sentry.Prelude.Map
use compute_sentry.Prelude.Map.{Map}

pub record File : Type 0 where
  pub content : List ℕ
  pub mode : ℕ

-- A file system: its directories, and its files by their path.
pub record FileSystem : Type 0 where
  pub directories : List Text
  pub files : Map Text File

-- Which system calls succeed. A copy that fails has written the first `copied` bytes.
pub record Calls : Type 0 where
  pub mkdir_ok : Bool
  pub open_ok : Bool
  pub create_ok : Bool
  pub copy_ok : Bool
  pub copied : ℕ
  pub chmod_ok : Bool

pub data CopyError : Type 0 where
  dest_dir open_source create_dest copy_lib chmod_dest : CopyError

-- os.Create: an existing file is truncated and keeps its mode, a new one gets 0666 before the umask.
unfoldable pub create : ℕ → Text → FileSystem → FileSystem
create umask_mode dest fs = record fs {
  files =
      Map.insert dest
        (record { content = []; mode = maybe (Map.lookup dest fs.files) umask_mode (λ f. f.mode) })
        fs.files;
}

unfoldable pub write_content : Text → List ℕ → FileSystem → FileSystem
write_content dest bytes fs = record fs {
  files =
      maybe (Map.lookup dest fs.files) fs.files
        (λ f. Map.insert dest (record f { content = bytes }) fs.files);
}

unfoldable pub chmod : Text → ℕ → FileSystem → FileSystem
chmod dest mode fs = record fs {
  files =
      maybe (Map.lookup dest fs.files) fs.files
        (λ f. Map.insert dest (record f { mode = mode }) fs.files);
}

-- 0755
abbrev pub readable : ℕ
readable = 493

-- The copy and the chmod, of a source that is open on its file's content. Where `src` and `dest` are
-- one file the copy reads what the truncation has left.
unfoldable pub copy_opened : ℕ → Calls → Text → Text → FileSystem → FileSystem × Option CopyError
copy_opened umask_mode calls src dest fs =
    if not calls.create_ok
    then (fs, some create_dest)
    else let created = create umask_mode dest fs in
      let bytes = maybe (Map.lookup src created.files) [] (λ f. f.content) in
      if not calls.copy_ok
      then (write_content dest (take calls.copied bytes) created, some copy_lib)
      else let copied = write_content dest bytes created in
        if not calls.chmod_ok then (copied, some chmod_dest) else (chmod dest readable copied, none)

-- `distributeFile`; `dest_dir_of` is filepath.Dir(dest).
unfoldable pub distribute_file :
    ℕ → Calls → Text → Text → Text → FileSystem → FileSystem × Option CopyError
distribute_file umask_mode calls dest_dir_of src dest fs =
    if not calls.mkdir_ok
    then (fs, some dest_dir)
    else let made = record fs { directories = dest_dir_of ∷ fs.directories } in
      if not calls.open_ok
      then (made, some open_source)
      else maybe (Map.lookup src made.files) (made, some open_source)
          (λ _. copy_opened umask_mode calls src dest made)
