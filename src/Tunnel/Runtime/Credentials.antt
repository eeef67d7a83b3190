-- ===== src/Tunnel/Runtime/Credentials.antt =====
-- `apply_credentials` of crates/gaterust-tunnel/src/runtime.rs: exactly the sessions whose key is
-- no longer their group's are taken out, and their connections are closed.
use mathlib.Core.List.{Memᴰ}
use mathlib.Core.List.Memᴰ
use gate_rust.Common.{
  ℕ, ◌≡◌, refl, ◌≢◌, true, not, none, some, List, [], ◌∷◌, ◌++◌, arith, ◌==◌, ==_iff, EqTest,
  list_eq, option_eq, ℕ_eq, contains, Option-cases, Bool-cases, inl, inr, if◌then◌else◌, map,
}
use gate_rust.Common.Text.{Text}
use gate_rust.HashMap
use gate_rust.HashMap.{HashMap, kept, holds_of}
use gate_rust.Tunnel.Runtime.{
  RuntimeState, SessionEntry, release_session, notify, credentials_revoked,
}
use gate_rust.Tunnel.Runtime.Operations.{apply_credentials, revoke_all, is_revoked, close_revoked}
use gate_rust.Tunnel.Runtime.Claims.{owner_of}
use gate_rust.Tunnel.Runtime.Tokens.{tokens_transfer}
use gate_rust.Tunnel.Runtime.Consistent.{IsConsistent, removed, release_removed-IsConsistent}
use gate_rust.Tunnel.Runtime.Preserved.{transfer, notify-IsConsistent}

-- The digest of each group's key, as `apply_credentials` collects it.
abbrev pub table_of : {D : Type 0} → (Text → D) → List (Text × Text) → HashMap Text D
table_of digest credentials = HashMap.collect (map (λ c. (c.0, digest c.1)) credentials)

module _ {C D : Type 0} ⦃q : EqTest D⦄ where
  sessions-revoke_all :
      (ids : List ℕ) (cs : List C) (st : RuntimeState C D) (i : ℕ)
      → HashMap.get i (revoke_all ids cs st).0.sessions
        ≡ (if contains ids i then none else HashMap.get i st.sessions)
  unfolding revoke_all release_session
  sessions-revoke_all [] cs st i = refl
  sessions-revoke_all (id ∷ ids) cs st i = elim (Option-cases (HashMap.get id st.sessions)) [
    | inl offline ↦
        rw (offline, revoke_all)
          (ground (arith, sessions-revoke_all ids cs st i, offline, ==_iff id i))
    | inr (session, online) ↦
        let next = release_session id (removed id st) in
        rw (online, revoke_all)
          (ground (
            arith,
            sessions-revoke_all ids (cs ++ session.connection ∷ []) next i,
            HashMap.get-remove id i st.sessions,
          ))
  ]

  abbrev with_credentials : HashMap Text D → RuntimeState C D → RuntimeState C D
  with_credentials t st = record st { credentials = t }

  -- The loop does not read the credentials.
  revoke_all-with_credentials :
      (t : HashMap Text D) (ids : List ℕ) (cs : List C) (st : RuntimeState C D)
      → revoke_all ids cs (with_credentials t st)
        ≡ (with_credentials t (revoke_all ids cs st).0, (revoke_all ids cs st).1)
  unfolding revoke_all release_session
  revoke_all-with_credentials t [] cs st = refl
  revoke_all-with_credentials t (id ∷ ids) cs st =
      elim (Option-cases (HashMap.get id st.sessions)) [
        | inl offline ↦ rw (offline, revoke_all) (revoke_all-with_credentials t ids cs st)
        | inr (session, online) ↦
            rw (online, revoke_all)
              (revoke_all-with_credentials t ids (cs ++ session.connection ∷ [])
                (release_session id (removed id st)))
      ]

  revoke_all-IsConsistent :
      (ids : List ℕ) (cs : List C) (st : RuntimeState C D)
      → IsConsistent st
      → IsConsistent (revoke_all ids cs st).0
  unfolding revoke_all
  revoke_all-IsConsistent [] cs st c = c
  revoke_all-IsConsistent (id ∷ ids) cs st c = elim (Option-cases (HashMap.get id st.sessions)) [
    | inl offline ↦ rw (offline, revoke_all) (revoke_all-IsConsistent ids cs st c)
    | inr (session, online) ↦
        rw (online, revoke_all)
          (revoke_all-IsConsistent ids (cs ++ session.connection ∷ [])
            (release_session id (removed id st)) (release_removed-IsConsistent id st c))
  ]

  with_credentials-IsConsistent :
      (t : HashMap Text D) (st : RuntimeState C D)
      → ((i : ℕ) (s : SessionEntry C D)
          → HashMap.get i st.sessions ≡ some s
          → HashMap.get s.group t ≡ some s.credential_digest)
      → IsConsistent st
      → IsConsistent (with_credentials t st)
  unfolding owner_of
  with_credentials-IsConsistent t st authorised c = record {
    regular = record {
      devices = c.devices;
      authorised = authorised;
      bounded = c.bounded;
      tokens = tokens_transfer st (with_credentials t st) refl refl (λ name o h. h) c.tokens;
    };
    owned = λ name id h.
        let held = c.owned name id h in
        record {
          session = held.session;
          spec = held.spec;
          online = held.online;
          configured = held.configured;
          same_group = held.same_group;
          declared = held.declared;
        };
  }

  close_revoked-IsConsistent :
      (st : RuntimeState C D) (cs : List C) → IsConsistent st → IsConsistent (close_revoked st cs)
  unfolding close_revoked
  close_revoked-IsConsistent st [] c = c
  close_revoked-IsConsistent st (k ∷ cs) c =
      transfer (notify st) (close_revoked st (k ∷ cs)) refl refl refl refl refl refl
        (notify-IsConsistent st c)

  connection-revoke_all_kept :
      (ids : List ℕ) (cs : List C) (st : RuntimeState C D) (k : C)
      → Memᴰ k cs
      → Memᴰ k (revoke_all ids cs st).1
  unfolding revoke_all
  connection-revoke_all_kept [] cs st k m = m
  connection-revoke_all_kept (id ∷ ids) cs st k m =
      elim (Option-cases (HashMap.get id st.sessions)) [
        | inl offline ↦ rw (offline, revoke_all) (connection-revoke_all_kept ids cs st k m)
        | inr (session, online) ↦
            rw (online, revoke_all)
              (connection-revoke_all_kept ids (cs ++ session.connection ∷ [])
                (release_session id (removed id st)) k
                (Memᴰ.append_left (session.connection ∷ []) m))
      ]

  connection-revoke_all :
      (ids : List ℕ) (cs : List C) (st : RuntimeState C D) (i : ℕ) (s : SessionEntry C D)
      → contains ids i ≡ true
      → HashMap.get i st.sessions ≡ some s
      → Memᴰ s.connection (revoke_all ids cs st).1
  unfolding revoke_all release_session
  connection-revoke_all [] cs st i s h e = absurd (ground arith)
  connection-revoke_all (id ∷ ids) cs st i s h e = elim (Bool-cases (id == i)) [
    | inl same ↦
        let e' = rw (← (==_iff id i).0 same) at e in
        rw (e', revoke_all)
          (connection-revoke_all_kept ids (cs ++ s.connection ∷ [])
            (release_session id (removed id st)) s.connection
            (Memᴰ.append_right cs (Memᴰ.head refl)))
    | inr other ↦ elim (Option-cases (HashMap.get id st.sessions)) [
      | inl offline ↦
          rw (offline, revoke_all) (connection-revoke_all ids cs st i s (ground arith) e)
      | inr (session, online) ↦
          rw (online, revoke_all)
            (connection-revoke_all ids (cs ++ session.connection ∷ [])
              (release_session id (removed id st)) i s (ground arith)
              (ground (arith, HashMap.get-remove id i st.sessions)))
    ]
  ]

  closed-close_revoked :
      (st : RuntimeState C D) (cs : List C) (k : C)
      → Memᴰ k cs
      → Memᴰ (k, credentials_revoked) (close_revoked st cs).closed
  unfolding close_revoked
  closed-close_revoked st [] k m = absurd (elim m [ ])
  closed-close_revoked st (c ∷ cs) k m =
      Memᴰ.append_left st.closed (Memᴰ.map (λ k'. (k', credentials_revoked)) m)

  sessions-close_revoked :
      (st : RuntimeState C D) (cs : List C) → (close_revoked st cs).sessions ≡ st.sessions
  unfolding close_revoked notify
  sessions-close_revoked st [] = refl
  sessions-close_revoked st (c ∷ cs) = refl

  revoked_ids : HashMap Text D → RuntimeState C D → List ℕ
  revoked_ids t st = HashMap.keys_of (is_revoked t) st.sessions

  -- `apply_credentials`, with the old credentials kept while the sessions are taken out.
  apply_credentials_lem :
      (digest : Text → D) (credentials : List (Text × Text)) (st : RuntimeState C D)
      → (let t = table_of digest credentials in
          let gone = revoke_all (revoked_ids t st) [] st in
          apply_credentials digest credentials st
          ≡ close_revoked (with_credentials t gone.0) gone.1)
  unfolding apply_credentials revoked_ids
  apply_credentials_lem digest credentials st =
      rw (revoke_all-with_credentials (table_of digest credentials) _ [] st)

  contains-revoked_ids :
      (t : HashMap Text D) (st : RuntimeState C D) (i : ℕ) (s : SessionEntry C D)
      → HashMap.get i st.sessions ≡ some s
      → contains (revoked_ids t st) i ≡ not (HashMap.get s.group t == some s.credential_digest)
  unfolding revoked_ids is_revoked
  contains-revoked_ids t st i s online =
      ground (arith, HashMap.contains-keys_of (is_revoked t) i st.sessions)

  -- After new credentials a session is online exactly if it was, and its key is still the key of
  -- its group; it is unchanged then.
  pub sessions-apply_credentials :
      (digest : Text → D) (credentials : List (Text × Text)) (st : RuntimeState C D) (i : ℕ)
      → HashMap.get i (apply_credentials digest credentials st).sessions
        ≡ kept
            (λ _ s. HashMap.get s.group (table_of digest credentials) == some s.credential_digest)
            i
            (HashMap.get i st.sessions)
  unfolding revoked_ids is_revoked
  sessions-apply_credentials digest credentials st i =
      let t = table_of digest credentials in
      let gone = revoke_all (revoked_ids t st) [] st in
      rw
        (
          apply_credentials_lem digest credentials st,
          sessions-close_revoked (with_credentials t gone.0) gone.1,
          sessions-revoke_all (revoked_ids t st) [] st i,
        )
        (ground (arith, HashMap.contains-keys_of (is_revoked t) i st.sessions))

  -- The connection of every session whose key is no longer its group's is closed, with the code
  -- for revoked credentials.
  pub closed-apply_credentials :
      (digest : Text → D) (credentials : List (Text × Text)) (st : RuntimeState C D) (i : ℕ)
      (s : SessionEntry C D)
      → HashMap.get i st.sessions ≡ some s
      → HashMap.get s.group (table_of digest credentials) ≢ some s.credential_digest
      → Memᴰ (s.connection, credentials_revoked) (apply_credentials digest credentials st).closed
  closed-apply_credentials digest credentials st i s online stale =
      let t = table_of digest credentials in
      let gone = revoke_all (revoked_ids t st) [] st in
      rw (apply_credentials_lem digest credentials st) (
        closed-close_revoked (with_credentials t gone.0) gone.1 s.connection (
          connection-revoke_all (revoked_ids t st) [] st i s
            (ground (
              arith,
              contains-revoked_ids t st i s online,
              ==_iff (HashMap.get s.group t) (some s.credential_digest),
            ))
            online))

  -- New credentials preserve the invariant.
  pub apply_credentials-IsConsistent :
      (digest : Text → D) (credentials : List (Text × Text)) (st : RuntimeState C D)
      → IsConsistent st
      → IsConsistent (apply_credentials digest credentials st)
  unfolding revoked_ids is_revoked
  apply_credentials-IsConsistent digest credentials st c =
      let t = table_of digest credentials in
      let ids = revoked_ids t st in
      let gone = revoke_all ids [] st in
      rw (apply_credentials_lem digest credentials st) (
        close_revoked-IsConsistent (with_credentials t gone.0) gone.1 (
          with_credentials-IsConsistent t gone.0
            (λ i s h. ground (
              arith,
              sessions-revoke_all ids [] st i,
              HashMap.contains-keys_of (is_revoked t) i st.sessions,
              ==_iff (HashMap.get s.group t) (some s.credential_digest),
            ))
            (revoke_all-IsConsistent ids [] st c)))
