-- ===== src/Control/Files/Edits.antt =====
-- What the blocking part of `mutate_tunnel` and `mutate_proxy` in
-- crates/gaterust-control/src/store.rs leaves of a configuration file.
use gate_rust.Common.{
  ℕ, ◌≡◌, refl, ◌⊎◌, inl, inr, Option, none, some, arith, Option-cases, Bool-cases,
}
use gate_rust.Common.Text.{Text}
use gate_rust.Common.Result.{Result, ok, err, Result-cases, bind-eq-ok, ◌>>=◌}
use gate_rust.Control.Errors.{ControlError, write_runtime_config, not_serialized}
use gate_rust.Control.Files.{
  Files, Answers, decode, load_optional, loaded_or, reload_file, after_write, write_validated,
  edit_file,
}
use gate_rust.Control.Files.Atomic.{IsInstalled, IsWritten, write_validated_atomic}

module _ {T E : Type 0} (print : T → Option Text) (read : Text → Result E T) where
  -- The value that the file had, or the default one, changed, printed and read again.
  pub record IsEdited (default : T) (mutate : T → Result ControlError T) (before after : Files)
      (stored : T) : Type 0 where
    pub found : Option T
    pub loaded : decode print read before.target ≡ ok found
    pub config : T
    pub mutated : mutate (loaded_or print read default found) ≡ ok config
    pub name : ℕ
    pub content : Text
    pub printed : print config ≡ some content
    pub installed : IsInstalled print read name content stored before after

  -- What the task has done when it gives an answer.
  abbrev pub IsEditOutcome :
      T
      → (T → T)
      → (T → Result ControlError T)
      → Files
      → Result ControlError (T × T) × Files
      → Type 0
  IsEditOutcome default resolve mutate before (ok (stored, runtime), after) =
      IsEdited default mutate before after stored × (runtime ≡ resolve stored)
  IsEditOutcome default resolve mutate before (err e, after) =
      (after.target ≡ before.target) ⊎ ((stored : T) × IsEdited default mutate before after stored)

  reload_file_same :
      (resolve : T → T) (answers : Answers) (content : Text) (stored : T) (before files : Files)
      → IsInstalled print read answers.random content stored before files
      → (reload_file print read resolve answers files ≡ ok (resolve stored))
        ⊎ ((e : ControlError) × (reload_file print read resolve answers files ≡ err e))
  reload_file_same resolve answers content stored before files i =
      elim (Bool-cases answers.reloads) [
        | inl opened ↦ rw (opened, i.target, i.readable) (inl refl)
        | inr failed ↦ rw failed (inr (_, refl))
      ]

  after_write_cases :
      (default : T) (resolve : T → T) (answers : Answers) (mutate : T → Result ControlError T)
      (before : Files) (content : Text) (outcome : Result ControlError T × Files)
      → ((stored : T) (after : Files)
          → IsInstalled print read answers.random content stored before after
          → IsEdited default mutate before after stored)
      → IsWritten print read answers.random content before outcome
      → IsEditOutcome default resolve mutate before (after_write print read resolve answers outcome)
  after_write_cases default resolve answers mutate before content (err e, after) edited w = elim w [
    | inl same ↦ inl same
    | inr (stored, _, installed) ↦ inr (stored, edited stored after installed)
  ]
  after_write_cases default resolve answers mutate before content (ok stored, after) edited w =
      elim (reload_file_same resolve answers content stored before after w) [
        | inl same ↦ rw same (edited stored after w, refl)
        | inr (e, failed) ↦ rw failed (inr (stored, edited stored after w))
      ]

  after_write_sound :
      (default : T) (resolve : T → T) (answers : Answers) (mutate : T → Result ControlError T)
      (before : Files) (found : Option T) (config : T) (content : Text)
      (outcome : Result ControlError T × Files)
      → decode print read before.target ≡ ok found
      → mutate (loaded_or print read default found) ≡ ok config
      → print config ≡ some content
      → IsWritten print read answers.random content before outcome
      → IsEditOutcome default resolve mutate before (after_write print read resolve answers outcome)
  after_write_sound default resolve answers mutate before found config content outcome l m p w =
      let edited : (stored : T) (after : Files)
          → IsInstalled print read answers.random content stored before after
          → IsEdited default mutate before after stored =
        λ stored after installed. record {
          found = found;
          loaded = l;
          config = config;
          mutated = m;
          name = answers.random;
          content = content;
          printed = p;
          installed = installed;
        } in
      after_write_cases default resolve answers mutate before content outcome edited w

  pub load_optional_sound :
      (answers : Answers) (files : Files) (found : Option T)
      → load_optional print read answers files ≡ ok found
      → decode print read files.target ≡ ok found
  unfolding load_optional
  load_optional_sound answers files found h = elim (Bool-cases answers.reads) [
    | inl opened ↦ ground arith
    | inr failed ↦ absurd (ground arith)
  ]

  write_validated_silent :
      (answers : Answers) (config : T) (files : Files)
      → print config ≡ none
      → write_validated print read answers config files
        ≡ (err (write_runtime_config not_serialized), files)
  unfolding write_validated
  write_validated_silent answers config files h = rw (h, write_validated) refl

  pub decode_present :
      (target : Option Text) (config : T)
      → decode print read target ≡ ok (some config)
      → (content : Text) × (read content ≡ ok config)
  decode_present none config h = absurd (ground arith)
  decode_present (some content) config h = elim (Result-cases (read content)) [
    | inr (e, refused) ↦ absurd (ground arith)
    | inl (c, accepted) ↦ (content, ground arith)
  ]

  -- However the operating system answers: a task that succeeds has read the file, or taken the default
  -- for a missing one, changed the value, and left a file with its whole text, which reads as the
  -- value it returns, and the temporary files are as before; the runtime is given that value with its
  -- paths resolved. A task that fails has left the file as it was, or has left such a text.
  pub edit_file-IsEditOutcome :
      (default : T) (resolve : T → T) (answers : Answers) (mutate : T → Result ControlError T)
      (files : Files)
      → IsEditOutcome default resolve mutate files
          (edit_file print read default resolve answers mutate files)
  unfolding edit_file
  edit_file-IsEditOutcome default resolve answers mutate files =
      elim (Result-cases (
        load_optional print read answers files
        >>= (λ found. mutate (loaded_or print read default found)))) [
          | inr (e, failed) ↦ rw (failed, edit_file) (inl refl)
          | inl (config, done) ↦
              let (found, loaded, mutated) =
                bind-eq-ok (load_optional print read answers files) _ done in
              let decoded = load_optional_sound answers files found loaded in
              elim (Option-cases (print config)) [
                | inl unprinted ↦
                    let unwritten = write_validated_silent answers config files unprinted in
                    rw (done, unwritten, edit_file) (inl refl)
                | inr (content, printed) ↦
                    rw (done, edit_file)
                      (after_write_sound default resolve answers mutate files found config content
                        (write_validated print read answers config files) decoded mutated printed
                        (write_validated_atomic print read answers config content files printed))
              ]
        ]
