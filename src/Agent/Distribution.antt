-- ===== src/Agent/Distribution.antt =====
-- What `distributeFile` leaves at its destination, and elsewhere.
use compute_sentry.Prelude.{
  ℕ, true, false, not, Option, none, some, List, [], ◌∷◌, ◌≡◌, ◌≢◌, refl, ◌∙◌, take, ◌==◌, ==_iff,
  maybe, if_ind, maybe_ind, Option-cases, inl, inr,
}
use compute_sentry.Prelude.Text.{Text, text_eq}
use compute_sentry.Prelude.Map
use compute_sentry.Prelude.Map.{lookup-insert}
use compute_sentry.Agent.{
  File, FileSystem, Calls, CopyError, copy_lib, create_dest, chmod_dest, dest_dir, open_source,
  create, write_content, chmod, readable, copy_opened, distribute_file,
}

module _ (dest path : Text) (other : (dest == path) ≡ false) where
  -- The file at `path` is the one that was there.
  abbrev pub Same : FileSystem → FileSystem → Type 0
  Same fs fs' = Map.lookup path fs'.files ≡ Map.lookup path fs.files

  create-Same : (umask_mode : ℕ) (fs : FileSystem) → Same fs (create umask_mode dest fs)
  unfolding create
  create-Same umask_mode fs = rw (lookup-insert dest path _ fs.files, other) refl

  write_content-Same : (bytes : List ℕ) (fs : FileSystem) → Same fs (write_content dest bytes fs)
  unfolding write_content
  write_content-Same bytes fs = elim (Option-cases (Map.lookup dest fs.files)) [
    | inl e ↦ rw e refl
    | inr (f, e) ↦ rw (e, lookup-insert dest path _ fs.files, other) refl
  ]

  chmod-Same : (mode : ℕ) (fs : FileSystem) → Same fs (chmod dest mode fs)
  unfolding chmod
  chmod-Same mode fs = elim (Option-cases (Map.lookup dest fs.files)) [
    | inl e ↦ rw e refl
    | inr (f, e) ↦ rw (e, lookup-insert dest path _ fs.files, other) refl
  ]

  copy_opened-Same :
      (umask_mode : ℕ) (calls : Calls) (src : Text) (fs : FileSystem)
      → Same fs (copy_opened umask_mode calls src dest fs).0
  unfolding copy_opened
  copy_opened-Same umask_mode calls src fs =
      let P : FileSystem × Option CopyError → Type 0 = λ r. Same fs r.0 in
      let created = create umask_mode dest fs in
      let wrote : (bytes : List ℕ) → Same fs (write_content dest bytes created) =
        λ bytes. write_content-Same bytes created ∙ create-Same umask_mode fs in
      if_ind P (not calls.create_ok) refl (
        if_ind P (not calls.copy_ok) (wrote _)
          (if_ind P (not calls.chmod_ok) (wrote _) (chmod-Same readable _ ∙ wrote _)))

  -- `distributeFile` touches no file but its destination, whichever of its calls fail.
  pub distribute_file-Same :
      (umask_mode : ℕ) (calls : Calls) (dir src : Text) (fs : FileSystem)
      → Same fs (distribute_file umask_mode calls dir src dest fs).0
  unfolding distribute_file
  distribute_file-Same umask_mode calls dir src fs =
      let P : FileSystem × Option CopyError → Type 0 = λ r. Same fs r.0 in
      let made = record fs { directories = dir ∷ fs.directories } in
      if_ind P (not calls.mkdir_ok) refl (
        if_ind P (not calls.open_ok) refl (
          maybe_ind P (Map.lookup src fs.files) refl
            (λ _. copy_opened-Same umask_mode calls src made)))

itself : (path : Text) → (path == path) ≡ true
itself path = (==_iff path path).1 refl

module _ (dest : Text) where
  -- The file at the destination.
  abbrev Holds : FileSystem → File → Type 0
  Holds fs g = Map.lookup dest fs.files ≡ some g

  create-Holds :
      (umask_mode : ℕ) (fs : FileSystem)
      → (mode : ℕ) × Holds (create umask_mode dest fs) (record { content = []; mode = mode })
  unfolding create
  create-Holds umask_mode fs = (
    maybe (Map.lookup dest fs.files) umask_mode (λ f. f.mode),
    rw (lookup-insert dest dest _ fs.files, itself dest) refl,
  )

  write_content-Holds :
      (bytes : List ℕ) (fs : FileSystem) (g : File)
      → Holds fs g
      → Holds (write_content dest bytes fs) (record g { content = bytes })
  unfolding write_content
  write_content-Holds bytes fs g h = rw (h, lookup-insert dest dest _ fs.files, itself dest) refl

  chmod-Holds :
      (mode : ℕ) (fs : FileSystem) (g : File)
      → Holds fs g
      → Holds (chmod dest mode fs) (record g { mode = mode })
  unfolding chmod
  chmod-Holds mode fs g h = rw (h, lookup-insert dest dest _ fs.files, itself dest) refl

module _ (calls : Calls) (dest : Text) (f : File) where
  -- What the result says of the destination.
  pub record IsCopied (result : FileSystem × Option CopyError) : Type 0 where
    pub complete :
        result.1 ≡ none
        → Map.lookup dest result.0.files ≡ some (record { content = f.content; mode = readable })
    pub cut :
        result.1 ≡ some copy_lib
        → (g : File) × (Map.lookup dest result.0.files ≡ some g)
          × (g.content ≡ take calls.copied f.content)

  other_error : (fs : FileSystem) (error : CopyError) → error ≢ copy_lib → IsCopied (fs, some error)
  other_error fs error h = record { complete = λ e. cc; cut = λ e. absurd (h cc) }

module _ (umask_mode : ℕ) (calls : Calls) (dir src dest : Text) (f : File)
    (apart : (dest == src) ≡ false) where
  abbrev Copied : FileSystem × Option CopyError → Type 0
  Copied = IsCopied calls dest f

  copy_opened-IsCopied :
      (fs : FileSystem)
      → Map.lookup src fs.files ≡ some f
      → IsCopied calls dest f (copy_opened umask_mode calls src dest fs)
  unfolding copy_opened
  copy_opened-IsCopied fs there =
      let created = create umask_mode dest fs in
      let (mode, fresh) = create-Holds dest umask_mode fs in
      let opened = write_content-Holds dest f.content created _ fresh in
      let cut = write_content-Holds dest (take calls.copied f.content) created _ fresh in
      rw (create-Same dest src apart umask_mode fs, there)
        (if_ind Copied (not calls.create_ok) (other_error calls dest f fs create_dest cc) (
          if_ind Copied (not calls.copy_ok)
            (record { complete = λ e. cc; cut = λ e. (_, cut, refl) })
            (if_ind Copied (not calls.chmod_ok)
              (other_error calls dest f (write_content dest f.content created) chmod_dest cc)
              (record { complete = λ e. chmod-Holds dest readable _ _ opened; cut = λ e. cc }))))

  -- Where `distributeFile` reports no error, its destination holds the source's content, and anyone may
  -- read and execute it; where it reports a failed copy, the destination holds the part that was
  -- copied. The two paths differ, and there is a file at the source.
  pub distribute_file_lem :
      (fs : FileSystem)
      → Map.lookup src fs.files ≡ some f
      → IsCopied calls dest f (distribute_file umask_mode calls dir src dest fs)
  unfolding distribute_file
  distribute_file_lem fs there = rw there (
      if_ind Copied (not calls.mkdir_ok) (other_error calls dest f fs dest_dir cc) (
        if_ind Copied (not calls.open_ok)
          (other_error calls dest f (record fs { directories = dir ∷ fs.directories }) open_source
            cc)
          (copy_opened-IsCopied (record fs { directories = dir ∷ fs.directories }) there)))
