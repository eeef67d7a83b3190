-- ===== src/Control/Store/ProxyMutations.antt =====
-- What `mutate_proxy` of crates/gaterust-control/src/store.rs leaves of the store.
use gate_rust.Common.{◌≡◌, refl, ◌⊎◌, inl, inr, Bool, Option, none, some}
use gate_rust.Common.Text.{Text}
use gate_rust.Common.Result.{Result, ok, err}
use gate_rust.Tunnel.Config.{ServerConfig}
use gate_rust.Proxy.Config.{ProxyConfig}
use gate_rust.Control.Errors.{ControlError, ApplyCause, proxy_runtime_apply}
use gate_rust.Control.Files.{Files, Answers, edit_file}
use gate_rust.Control.Files.Edits.{IsEdited, IsEditOutcome, edit_file-IsEditOutcome}
use gate_rust.Control.ProxyEdits.{default_proxy}
use gate_rust.Control.View.{ProxyConfigView, view}
use gate_rust.Control.Store.{
  Store, Waited, resolve_path, resolve_proxy, fingerprint_failed, no_answer, answered, applied,
  update_proxy, after_proxy, mutate_proxy,
}

module _ {E F : Type 0} (print_tunnel : ServerConfig → Option Text)
    (read_tunnel : Text → Result E ServerConfig) (print_proxy : ProxyConfig → Option Text)
    (read_proxy : Text → Result F ProxyConfig) (is_relative : Text → Bool)
    (join_tunnel join_proxy : Text → Text) where
  -- The store after an edit of its proxy file, with the value in the snapshot.
  pub record ProxyIsStored (mutate : ProxyConfig → Result ControlError ProxyConfig)
      (store after : Store) (stored : ProxyConfig) : Type 0 where
    pub files : Files
    pub edited : IsEdited print_proxy read_proxy default_proxy mutate store.proxy_files files stored
    pub updated : after ≡ update_proxy (some stored) (record store { proxy_files = files })

  -- The store after an edit that the caller does not see.
  pub record ProxyIsUnseen (mutate : ProxyConfig → Result ControlError ProxyConfig)
      (store after : Store) : Type 0 where
    pub stored : ProxyConfig
    pub files : Files
    pub edited : IsEdited print_proxy read_proxy default_proxy mutate store.proxy_files files stored
    pub rest : after ≡ record store { proxy_files = files }

  -- The store is the same, but for the temporary files.
  pub record ProxyIsKept (store after : Store) : Type 0 where
    pub files : Files
    pub target : files.target ≡ store.proxy_files.target
    pub rest : after ≡ record store { proxy_files = files }

  abbrev pub IsProxyOutcome :
      (ProxyConfig → Result ControlError ProxyConfig)
      → Store
      → Result ControlError ProxyConfigView × Store
      → Type 0
  IsProxyOutcome mutate store (ok shown, after) =
      (stored : ProxyConfig) × (shown ≡ view stored) × ProxyIsStored mutate store after stored
  IsProxyOutcome mutate store (err e, after) =
      ProxyIsKept store after
      ⊎ (ProxyIsUnseen mutate store after
          ⊎ ((stored : ProxyConfig) × ProxyIsStored mutate store after stored))

  proxy_answer :
      (mutate : ProxyConfig → Result ControlError ProxyConfig) (store after : Store)
      (stored : ProxyConfig) (failure : ApplyCause → ControlError) (waited : Option Waited)
      → ProxyIsStored mutate store after stored
      → IsProxyOutcome mutate store (applied failure waited (view stored), after)
  proxy_answer mutate store after stored failure none h = (stored, refl, h)
  proxy_answer mutate store after stored failure (some fingerprint_failed) h = inr (inr (stored, h))
  proxy_answer mutate store after stored failure (some no_answer) h = inr (inr (stored, h))
  proxy_answer mutate store after stored failure (some (answered none)) h = (stored, refl, h)
  proxy_answer mutate store after stored failure (some (answered (some error))) h =
      inr (inr (stored, h))

  after_proxy_sound :
      (wait : ProxyConfig → Option Waited) (mutate : ProxyConfig → Result ControlError ProxyConfig)
      (store : Store) (outcome : Result ControlError (ProxyConfig × ProxyConfig) × Files)
      → IsEditOutcome print_proxy read_proxy default_proxy
          (resolve_proxy (resolve_path is_relative join_proxy))
          mutate
          store.proxy_files
          outcome
      → IsProxyOutcome mutate store (
          after_proxy print_tunnel read_tunnel print_proxy read_proxy is_relative join_tunnel
            join_proxy wait outcome store)
  unfolding after_proxy
  after_proxy_sound wait mutate store (err e, files) (inl same) =
      inl (record { files = files; target = same; rest = refl })
  after_proxy_sound wait mutate store (err e, files) (inr (stored, edited)) =
      inr (inl (record { stored = stored; files = files; edited = edited; rest = refl }))
  after_proxy_sound wait mutate store (ok (stored, runtime), files) (edited, same) =
      proxy_answer mutate store (update_proxy (some stored) (record store { proxy_files = files }))
        stored proxy_runtime_apply (wait runtime)
        (record { files = files; edited = edited; updated = refl })

  pub mutate_proxy-IsProxyOutcome :
      (answers : Answers) (wait : ProxyConfig → Option Waited)
      (mutate : ProxyConfig → Result ControlError ProxyConfig) (store : Store)
      → IsProxyOutcome mutate store (
          mutate_proxy print_tunnel read_tunnel print_proxy read_proxy is_relative join_tunnel
            join_proxy answers wait mutate store)
  unfolding mutate_proxy
  mutate_proxy-IsProxyOutcome answers wait mutate store =
      after_proxy_sound wait mutate store
        (edit_file print_proxy read_proxy default_proxy
          (resolve_proxy (resolve_path is_relative join_proxy)) answers mutate store.proxy_files)
        (edit_file-IsEditOutcome print_proxy read_proxy default_proxy
          (resolve_proxy (resolve_path is_relative join_proxy)) answers mutate store.proxy_files)
