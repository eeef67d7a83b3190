-- ===== src/Control/Files.antt =====
-- `write_validated`, `load_optional_tunnel` and `load_optional_proxy` of
-- crates/gaterust-control/src/store.rs, and the blocking part of `mutate_tunnel` and `mutate_proxy`.
-- What the operating system answers to each call is an argument; so are the TOML printer and the
-- reader of a file's text.
pub mod Atomic
pub mod Edits
use gate_rust.Common.{
  ℕ, Bool, true, false, not, ◌&&◌, ◌||◌, Option, none, some, List, [], ◌∷◌, if◌then◌else◌, take,
  is_some, ◌==◌, ℕ_eq,
}
use gate_rust.Common.Text.{Text}
use gate_rust.Common.Result.{Result, ok, err, ◌>>=◌}
use gate_rust.Control.Errors.{
  ControlError, read_runtime_config, write_runtime_config, not_serialized, no_directory,
  open_failed, write_failed, read_back_failed, rename_failed, sync_failed,
}

-- The text of the configuration file, and the temporary files beside it, by the number in their names.
pub record Files : Type 0 where
  pub target : Option Text
  pub temporaries : List (ℕ × Text)

unfoldable pub content_of : ℕ → List (ℕ × Text) → Option Text
content_of name [] = none
content_of name (e ∷ entries) =
    let later = content_of name entries in if e.0 == name then some e.1 else later

unfoldable pub remove_temporary : ℕ → List (ℕ × Text) → List (ℕ × Text)
remove_temporary name [] = []
remove_temporary name (e ∷ entries) =
    let later = remove_temporary name entries in if e.0 == name then later else e ∷ later

-- The temporary file takes the place of the configuration file.
abbrev pub renamed : ℕ → Files → Files
unfolding content_of remove_temporary
renamed name files = record {
  target = content_of name files.temporaries;
  temporaries = remove_temporary name files.temporaries;
}

-- The random number of the temporary file's name, and whether each call succeeds: reading the file (a missing file is no failure), making the directory,
-- creating the temporary file, writing it (`some n`: it fails after n bytes), syncing it, reading it
-- back, renaming it, syncing the directory, removing the temporary file, reading the file again.
pub record Answers : Type 0 where
  pub random : ℕ
  pub reads : Bool
  pub makes_directory : Bool
  pub opens : Bool
  pub fails_after : Option ℕ
  pub syncs : Bool
  pub reads_back : Bool
  pub renames : Bool
  pub syncs_directory : Bool
  pub removes : Bool
  pub reloads : Bool

module _ {T E : Type 0} (print : T → Option Text) (read : Text → Result E T) where
  abbrev pub checked : Result E T → Result ControlError T
  checked (ok config) = ok config
  checked (err e) = err read_runtime_config

  -- A text that is missing is no error.
  abbrev pub decode : Option Text → Result ControlError (Option T)
  decode none = ok none
  decode (some content) = checked (read content) >>= (λ config. ok (some config))

  unfoldable pub load_optional : Answers → Files → Result ControlError (Option T)
  load_optional answers files =
      if answers.reads then decode files.target else err read_runtime_config

  -- The temporary file is renamed, and the directory synced.
  unfoldable pub install : Answers → T → Files → Result ControlError T × Files
  unfolding content_of remove_temporary
  install answers stored files =
      if not answers.renames
      then (err (write_runtime_config rename_failed), files)
      else if not answers.syncs_directory
      then (err (write_runtime_config sync_failed), renamed answers.random files)
      else (ok stored, renamed answers.random files)

  abbrev pub reread : Option Text → Result ControlError T
  reread none = err (write_runtime_config read_back_failed)
  reread (some content) = elim (read content) [
    | ok stored ↦ ok stored
    | err e ↦ err (write_runtime_config read_back_failed)
  ]

  -- The temporary file is read back and tested before it takes the place of the old one.
  unfoldable pub read_back : Answers → Files → Result ControlError T × Files
  unfolding install content_of
  read_back answers files =
      if not answers.reads_back
      then (err (write_runtime_config read_back_failed), files)
      else elim (reread (content_of answers.random files.temporaries)) [
        | err e ↦ (err e, files)
        | ok stored ↦ install answers stored files
      ]

  unfoldable pub write_temporary : Answers → Text → Files → Result ControlError T × Files
  unfolding read_back content_of
  write_temporary answers content files =
      let created : Text → Files =
        λ written. record files { temporaries = (answers.random, written) ∷ files.temporaries } in
      if not answers.opens || is_some (content_of answers.random files.temporaries)
      then (err (write_runtime_config open_failed), files)
      else elim answers.fails_after [
        | some n ↦ (err (write_runtime_config write_failed), created (take n content))
        | none ↦
            if not answers.syncs
            then (err (write_runtime_config write_failed), created content)
            else read_back answers (created content)
      ]

  -- The temporary file is removed after an error.
  abbrev pub clean_up : Answers → Result ControlError T × Files → Result ControlError T × Files
  unfolding remove_temporary
  clean_up answers (ok stored, files) = (ok stored, files)
  clean_up answers (err e, files) = (
    err e,
    if answers.removes
        then record files { temporaries = remove_temporary answers.random files.temporaries }
        else files,
  )

  abbrev pub write_text : Answers → Text → Files → Result ControlError T × Files
  unfolding write_temporary
  write_text answers content files =
      if not answers.makes_directory
      then (err (write_runtime_config no_directory), files)
      else clean_up answers (write_temporary answers content files)

  unfoldable pub write_validated : Answers → T → Files → Result ControlError T × Files
  unfolding write_temporary
  write_validated answers config files = elim (print config) [
    | none ↦ (err (write_runtime_config not_serialized), files)
    | some content ↦ write_text answers content files
  ]

  abbrev pub loaded_or : T → Option T → T
  loaded_or default none = default
  loaded_or default (some config) = config

  -- `load` reads the file again and resolves the paths of what it reads.
  abbrev pub reload_file : (T → T) → Answers → Files → Result ControlError T
  reload_file resolve answers files =
      if not answers.reloads then err read_runtime_config else elim files.target [
        | none ↦ err read_runtime_config
        | some content ↦ checked (read content) >>= (λ config. ok (resolve config))
      ]

  abbrev pub after_write :
      (T → T) → Answers → Result ControlError T × Files → Result ControlError (T × T) × Files
  after_write resolve answers (err e, files) = (err e, files)
  after_write resolve answers (ok stored, files) =
      (reload_file resolve answers files >>= (λ runtime. ok (stored, runtime)), files)

  -- The task that `mutate_tunnel` and `mutate_proxy` spawn: what is stored, and what is loaded for the
  -- runtime.
  unfoldable pub edit_file :
      T
      → (T → T)
      → Answers
      → (T → Result ControlError T)
      → Files
      → Result ControlError (T × T) × Files
  unfolding load_optional write_validated
  edit_file default resolve answers mutate files =
      elim (load_optional answers files >>= (λ found. mutate (loaded_or default found))) [
        | err e ↦ (err e, files)
        | ok config ↦ after_write resolve answers (write_validated answers config files)
      ]
