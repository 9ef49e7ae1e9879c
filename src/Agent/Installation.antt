-- ===== src/Agent/Installation.antt =====
-- What is in place on the node once the agent's main loop runs.
use compute_sentry.Prelude.{
  ℕ, Bool, true, false, none, some, ◌≡◌, ◌≢◌, refl, ◌∙◌, arith, ◌==◌, Option-cases, inl, inr,
}
use compute_sentry.Prelude.Text.{Text, text_eq}
use compute_sentry.Prelude.Map
use compute_sentry.Agent.{
  File, FileSystem, Calls, readable, distribute_file, Flags, script_failed, library_failed,
  start_collector, install_script, install,
}
use compute_sentry.Agent.Distribution.{distribute_file_lem, distribute_file-Same}

some-ne-none : {A : Type 0} (a : A) → some a ≢ none
some-ne-none a h = cc

module _ (flags : Flags) (umask_mode : ℕ) where
  start_collector-files :
      (collector_ok : Bool) (fs : FileSystem) → (start_collector collector_ok fs).0 ≡ fs
  unfolding start_collector
  start_collector-files true fs = refl
  start_collector-files false fs = refl

  -- The destination of the script, where nothing ended `main`.
  script_installed :
      (calls : Calls) (dir : Text) (collector_ok : Bool) (fs : FileSystem) (f : File)
      → (flags.script_dest == flags.script_src) ≡ false
      → Map.lookup flags.script_src fs.files ≡ some f
      → (install_script flags umask_mode calls dir collector_ok fs).1 ≡ none
      → Map.lookup flags.script_dest
          (install_script flags umask_mode calls dir collector_ok fs).0.files
        ≡ some (record { content = f.content; mode = readable })
  unfolding install_script
  script_installed calls dir collector_ok fs f apart there done =
      let copied = distribute_file umask_mode calls dir flags.script_src flags.script_dest fs in
      let known =
        distribute_file_lem umask_mode calls dir flags.script_src flags.script_dest f apart fs
          there in
      elim (Option-cases copied.1) [
        | inl e ↦ rw (e, start_collector-files collector_ok copied.0) (known.complete e)
        | inr (error, e) ↦ absurd (some-ne-none (script_failed error) (ground arith))
      ]

  script_step-other :
      (calls : Calls) (dir path : Text) (collector_ok : Bool) (fs : FileSystem)
      → (flags.script_dest == path) ≡ false
      → Map.lookup path (install_script flags umask_mode calls dir collector_ok fs).0.files
        ≡ Map.lookup path fs.files
  unfolding install_script
  script_step-other calls dir path collector_ok fs other =
      let copied = distribute_file umask_mode calls dir flags.script_src flags.script_dest fs in
      let same =
        distribute_file-Same flags.script_dest path other umask_mode calls dir flags.script_src
          fs in
      elim (Option-cases copied.1) [
        | inl e ↦ rw (e, start_collector-files collector_ok copied.0) same
        | inr (error, e) ↦ rw e same
      ]

  -- Where nothing has ended `main` before its loop, the two destinations hold the files of the image,
  -- readable and executable by anyone. The library's destination is neither of the sources, the script's
  -- is not its source, and the two destinations differ.
  pub install_lem :
      (lib_calls script_calls : Calls) (dirs : Text × Text) (collector_ok : Bool) (fs : FileSystem)
      (lib script : File)
      → (flags.lib_dest == flags.lib_src) ≡ false
      → (flags.lib_dest == flags.script_src) ≡ false
      → (flags.script_dest == flags.script_src) ≡ false
      → (flags.script_dest == flags.lib_dest) ≡ false
      → Map.lookup flags.lib_src fs.files ≡ some lib
      → Map.lookup flags.script_src fs.files ≡ some script
      → (install flags umask_mode lib_calls script_calls dirs collector_ok fs).1 ≡ none
      → (Map.lookup flags.lib_dest
            (install flags umask_mode lib_calls script_calls dirs collector_ok fs).0.files
          ≡ some (record { content = lib.content; mode = readable }))
        × (Map.lookup flags.script_dest
              (install flags umask_mode lib_calls script_calls dirs collector_ok fs).0.files
            ≡ some (record { content = script.content; mode = readable }))
  unfolding install
  install_lem lib_calls script_calls dirs collector_ok fs lib script apart spared own distinct
        lib_there script_there done =
      let copied = distribute_file umask_mode lib_calls dirs.0 flags.lib_src flags.lib_dest fs in
      let known =
        distribute_file_lem umask_mode lib_calls dirs.0 flags.lib_src flags.lib_dest lib apart fs
          lib_there in
      let kept =
        distribute_file-Same flags.lib_dest flags.script_src spared umask_mode lib_calls dirs.0
          flags.lib_src fs
        ∙ script_there in
      elim (Option-cases copied.1) [
        | inl e ↦ rw e (
          script_step-other script_calls dirs.1 flags.lib_dest collector_ok copied.0 distinct
              ∙ known.complete e,
          script_installed script_calls dirs.1 collector_ok copied.0 script own kept (ground arith),
        )
        | inr (error, e) ↦ absurd (some-ne-none (library_failed error) (ground arith))
      ]
