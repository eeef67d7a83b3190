-- ===== src/Control/Store/TunnelMutations.antt =====
-- What `mutate_tunnel` of crates/gaterust-control/src/store.rs leave of the store.
use gate_rust.Common.{◌≡◌, refl, ◌⊎◌, inl, inr, Bool, Option, none, some}
use gate_rust.Common.Text.{Text}
use gate_rust.Common.Result.{Result, ok, err}
use gate_rust.Tunnel.Config.{ServerConfig}
use gate_rust.Proxy.Config.{ProxyConfig}
use gate_rust.Control.Errors.{ControlError, ApplyCause, tunnel_runtime_apply}
use gate_rust.Control.Files.{Files, Answers, edit_file}
use gate_rust.Control.Files.Edits.{IsEdited, IsEditOutcome, edit_file-IsEditOutcome}
use gate_rust.Control.TunnelEdits.{default_tunnel}
use gate_rust.Control.Store.{
  Store, Waited, resolve_path, resolve_tunnel, fingerprint_failed, no_answer, answered, applied,
  update_tunnel, after_tunnel, mutate_tunnel,
}

module _ {E F : Type 0} (print_tunnel : ServerConfig → Option Text)
    (read_tunnel : Text → Result E ServerConfig) (print_proxy : ProxyConfig → Option Text)
    (read_proxy : Text → Result F ProxyConfig) (is_relative : Text → Bool)
    (join_tunnel join_proxy : Text → Text) where
  -- The store after an edit of its tunnel file, with the value in the snapshot.
  pub record TunnelIsStored (mutate : ServerConfig → Result ControlError ServerConfig)
      (store after : Store) (stored : ServerConfig) : Type 0 where
    pub files : Files
    pub edited :
        IsEdited print_tunnel read_tunnel default_tunnel mutate store.tunnel_files files stored
    pub updated : after ≡ update_tunnel (some stored) (record store { tunnel_files = files })

  -- The store after an edit that the caller does not see.
  pub record TunnelIsUnseen (mutate : ServerConfig → Result ControlError ServerConfig)
      (store after : Store) : Type 0 where
    pub stored : ServerConfig
    pub files : Files
    pub edited :
        IsEdited print_tunnel read_tunnel default_tunnel mutate store.tunnel_files files stored
    pub rest : after ≡ record store { tunnel_files = files }

  -- The store is the same, but for the temporary files.
  pub record TunnelIsKept (store after : Store) : Type 0 where
    pub files : Files
    pub target : files.target ≡ store.tunnel_files.target
    pub rest : after ≡ record store { tunnel_files = files }

  abbrev pub IsTunnelOutcome :
      (ServerConfig → Result ControlError ServerConfig)
      → Store
      → Result ControlError ServerConfig × Store
      → Type 0
  IsTunnelOutcome mutate store (ok stored, after) = TunnelIsStored mutate store after stored
  IsTunnelOutcome mutate store (err e, after) =
      TunnelIsKept store after
      ⊎ (TunnelIsUnseen mutate store after
          ⊎ ((stored : ServerConfig) × TunnelIsStored mutate store after stored))

  tunnel_answer :
      (mutate : ServerConfig → Result ControlError ServerConfig) (store after : Store)
      (stored : ServerConfig) (failure : ApplyCause → ControlError) (waited : Option Waited)
      → TunnelIsStored mutate store after stored
      → IsTunnelOutcome mutate store (applied failure waited stored, after)
  tunnel_answer mutate store after stored failure none h = h
  tunnel_answer mutate store after stored failure (some fingerprint_failed) h =
      inr (inr (stored, h))
  tunnel_answer mutate store after stored failure (some no_answer) h = inr (inr (stored, h))
  tunnel_answer mutate store after stored failure (some (answered none)) h = h
  tunnel_answer mutate store after stored failure (some (answered (some error))) h =
      inr (inr (stored, h))

  after_tunnel_sound :
      (wait : ServerConfig → Option Waited)
      (mutate : ServerConfig → Result ControlError ServerConfig) (store : Store)
      (outcome : Result ControlError (ServerConfig × ServerConfig) × Files)
      → IsEditOutcome print_tunnel read_tunnel default_tunnel
          (resolve_tunnel (resolve_path is_relative join_tunnel))
          mutate
          store.tunnel_files
          outcome
      → IsTunnelOutcome mutate store (
          after_tunnel print_tunnel read_tunnel print_proxy read_proxy is_relative join_tunnel
            join_proxy wait outcome store)
  unfolding after_tunnel
  after_tunnel_sound wait mutate store (err e, files) (inl same) =
      inl (record { files = files; target = same; rest = refl })
  after_tunnel_sound wait mutate store (err e, files) (inr (stored, edited)) =
      inr (inl (record { stored = stored; files = files; edited = edited; rest = refl }))
  after_tunnel_sound wait mutate store (ok (stored, runtime), files) (edited, same) =
      tunnel_answer mutate store
        (update_tunnel (some stored) (record store { tunnel_files = files })) stored
        tunnel_runtime_apply (wait runtime)
        (record { files = files; edited = edited; updated = refl })

  pub mutate_tunnel-IsTunnelOutcome :
      (answers : Answers) (wait : ServerConfig → Option Waited)
      (mutate : ServerConfig → Result ControlError ServerConfig) (store : Store)
      → IsTunnelOutcome mutate store (
          mutate_tunnel print_tunnel read_tunnel print_proxy read_proxy is_relative join_tunnel
            join_proxy answers wait mutate store)
  unfolding mutate_tunnel
  mutate_tunnel-IsTunnelOutcome answers wait mutate store =
      after_tunnel_sound wait mutate store
        (edit_file print_tunnel read_tunnel default_tunnel
          (resolve_tunnel (resolve_path is_relative join_tunnel)) answers mutate store.tunnel_files)
        (edit_file-IsEditOutcome print_tunnel read_tunnel default_tunnel
          (resolve_tunnel (resolve_path is_relative join_tunnel)) answers mutate store.tunnel_files)
