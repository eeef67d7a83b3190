-- ===== src/Control/Files/Atomic.antt =====
-- How `write_validated` of crates/gaterust-control/src/store.rs leaves the configuration file.
use gate_rust.Common.{
  ℕ, ◌≡◌, refl, ap, ◌∙◌, arith, List, [], ◌∷◌, ◌==◌, ==_self, ℕ_eq, ◌⊎◌, inl, inr, not, ◌||◌,
  Option, none, some, is_some, Option-cases, Bool-cases,
}
use gate_rust.Common.Text.{Text}
use gate_rust.Common.Result.{Result, ok, err, Result-cases}
use gate_rust.Control.Errors.{ControlError, write_runtime_config, sync_failed}
use gate_rust.Control.Files.{
  Files, Answers, content_of, remove_temporary, renamed, install, read_back, write_temporary,
  clean_up, write_validated,
}

-- Removing a temporary file that is not there.
remove_temporary-absent :
    (name : ℕ) (entries : List (ℕ × Text))
    → content_of name entries ≡ none
    → remove_temporary name entries ≡ entries
unfolding remove_temporary content_of
remove_temporary-absent name [] h = refl
remove_temporary-absent name (e ∷ entries) h = elim (Bool-cases (e.0 == name)) [
  | inl here ↦ absurd (ground (arith, here))
  | inr there ↦
      rw (there, remove_temporary)
        (ap (◌∷◌ e) (remove_temporary-absent name entries (ground (arith, there))))
]

renamed_new :
    (name : ℕ) (content : Text) (files : Files)
    → content_of name files.temporaries ≡ none
    → renamed name (record files { temporaries = (name, content) ∷ files.temporaries })
      ≡ record files { target = some content }
unfolding remove_temporary content_of
renamed_new name content files fresh =
    rw (==_self name, remove_temporary-absent name files.temporaries fresh) refl

module _ {T E : Type 0} (print : T → Option Text) (read : Text → Result E T) where
  -- The file has the whole text, which reads as a value; the temporary file of the name was not there
  -- before, and the temporary files are as before.
  pub record IsInstalled (name : ℕ) (content : Text) (stored : T) (before after : Files)
      : Type 0 where
    pub readable : read content ≡ ok stored
    pub target : after.target ≡ some content
    pub fresh : content_of name before.temporaries ≡ none
    pub beside : after.temporaries ≡ before.temporaries

  -- What a write of a text has done when it gives an answer.
  abbrev pub IsWritten : ℕ → Text → Files → Result ControlError T × Files → Type 0
  IsWritten name content before (ok stored, after) = IsInstalled name content stored before after
  IsWritten name content before (err e, after) =
      (after.target ≡ before.target)
      ⊎ ((stored : T) × (e ≡ write_runtime_config sync_failed)
          × IsInstalled name content stored before after)

  -- The files once the temporary file is written.
  abbrev with_new : ℕ → Text → Files → Files
  with_new name content files = record files { temporaries = (name, content) ∷ files.temporaries }

  renamed-IsInstalled :
      (name : ℕ) (content : Text) (stored : T) (files : Files)
      → content_of name files.temporaries ≡ none
      → read content ≡ ok stored
      → IsInstalled name content stored files (renamed name (with_new name content files))
  renamed-IsInstalled name content stored files fresh h =
      rw (renamed_new name content files fresh)
        (record { readable = h; target = refl; fresh = fresh; beside = refl })

  install-IsWritten :
      (answers : Answers) (content : Text) (stored : T) (files : Files)
      → content_of answers.random files.temporaries ≡ none
      → read content ≡ ok stored
      → IsWritten answers.random content files
          (install print read answers stored (with_new answers.random content files))
  unfolding install
  install-IsWritten answers content stored files fresh h =
      let installed = renamed-IsInstalled answers.random content stored files fresh h in
      elim (Bool-cases answers.renames) [
        | inr refused ↦ rw (refused, install) (inl refl)
        | inl renames ↦ elim (Bool-cases answers.syncs_directory) [
          | inl synced ↦ rw (renames, synced, install) installed
          | inr lost ↦ rw (renames, lost, install) (inr (stored, refl, installed))
        ]
      ]

  read_back-IsWritten :
      (answers : Answers) (content : Text) (files : Files)
      → content_of answers.random files.temporaries ≡ none
      → IsWritten answers.random content files
          (read_back print read answers (with_new answers.random content files))
  unfolding read_back content_of
  read_back-IsWritten answers content files fresh = elim (Bool-cases answers.reads_back) [
    | inr failed ↦ rw (failed, read_back) (inl refl)
    | inl opened ↦ elim (Result-cases (read content)) [
      | inr (e, refused) ↦ rw (read_back, opened, ==_self answers.random, refused) (inl refl)
      | inl (stored, accepted) ↦
          rw (read_back, opened, ==_self answers.random, accepted)
            (install-IsWritten answers content stored files fresh accepted)
    ]
  ]

  write_temporary-IsWritten :
      (answers : Answers) (content : Text) (files : Files)
      → IsWritten answers.random content files (write_temporary print read answers content files)
  unfolding write_temporary
  write_temporary-IsWritten answers content files =
      elim (Bool-cases
        (not answers.opens || is_some (content_of answers.random files.temporaries))) [
          | inl refused ↦ rw (refused, write_temporary) (inl refl)
          | inr opened ↦ elim (Option-cases answers.fails_after) [
            | inr (n, cut) ↦ rw (opened, cut, write_temporary) (inl refl)
            | inl whole ↦ elim (Bool-cases answers.syncs) [
              | inr lost ↦ rw (opened, whole, lost, write_temporary) (inl refl)
              | inl synced ↦
                  let fresh : content_of answers.random files.temporaries ≡ none =
                    elim (Option-cases (content_of answers.random files.temporaries)) [
                      | inl absent ↦ absent
                      | inr (text, there) ↦ absurd (ground (arith, opened, there))
                    ] in
                  rw (opened, whole, synced, write_temporary)
                    (read_back-IsWritten answers content files fresh)
            ]
          ]
        ]

  clean_up-IsWritten :
      (answers : Answers) (content : Text) (before : Files)
      (outcome : Result ControlError T × Files)
      → IsWritten answers.random content before outcome
      → IsWritten answers.random content before (clean_up print read answers outcome)
  unfolding remove_temporary
  clean_up-IsWritten answers content before (ok stored, after) h = h
  clean_up-IsWritten answers content before (err e, after) h = elim (Bool-cases answers.removes) [
    | inr kept ↦ rw kept h
    | inl removed ↦ rw removed (elim h [
      | inl same ↦ inl same
      | inr (stored, sync, i) ↦
          let gone =
            ap (remove_temporary answers.random) i.beside
            ∙ remove_temporary-absent answers.random before.temporaries i.fresh in
          inr (
            stored,
            sync,
            record { readable = i.readable; target = i.target; fresh = i.fresh; beside = gone },
          )
    ])
  ]

  -- However the calls of the operating system are answered: where write_validated gives a value, the
  -- file has the whole printed text, which reads as that value, and the temporary files are as before;
  -- where it fails, the file is as before, except that a failure to sync the directory after the
  -- renaming leaves a whole text that reads as a value.
  pub write_validated_atomic :
      (answers : Answers) (config : T) (content : Text) (files : Files)
      → print config ≡ some content
      → IsWritten answers.random content files (write_validated print read answers config files)
  unfolding write_validated
  write_validated_atomic answers config content files printed =
      elim (Bool-cases answers.makes_directory) [
        | inr failed ↦ rw (printed, failed, write_validated) (inl refl)
        | inl made ↦
            rw (printed, made, write_validated)
              (clean_up-IsWritten answers content files
                (write_temporary print read answers content files)
                (write_temporary-IsWritten answers content files))
      ]
