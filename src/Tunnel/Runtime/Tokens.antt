-- ===== src/Tunnel/Runtime/Tokens.antt =====
-- The shutdown tokens of the owners (crates/gaterust-tunnel/src/runtime.rs): each owner has its
-- own, taken from the counter, and no owner in the table has a cancelled one.
use gate_rust.Common.{
  ℕ, ◌<◌, ◌≡◌, refl, true, false, not, some, List, [], ◌∷◌, arith, ◌==◌, ==_iff, list_eq, ℕ_eq,
  contains, Option-cases, inl, inr, Bool,
}
use gate_rust.Common.Text.{Text}
use gate_rust.HashMap
use gate_rust.HashMap.{HashMap, kept}
use gate_rust.Tunnel.Runtime.{
  RuntimeState, TunnelOwner, claim_one, claim_all, claim_available, is_available,
  retain_valid_owners, release_session, is_valid_owner,
}

pub owners-retain :
    (p : Text → TunnelOwner → Bool) (m : HashMap Text TunnelOwner) (name : Text) (o : TunnelOwner)
    → HashMap.get name (HashMap.retain p m) ≡ some o
    → HashMap.get name m ≡ some o
owners-retain p m name o h = ground (arith, HashMap.get-retain p name m)

module _ {C D : Type 0} where
  pub record TokensFresh (st : RuntimeState C D) : Type 0 where
    pub taken :
        (name : Text) (o : TunnelOwner)
        → HashMap.get name st.owners ≡ some o
        → o.shutdown < st.next_token
    pub live :
        (name : Text) (o : TunnelOwner)
        → HashMap.get name st.owners ≡ some o
        → contains st.cancelled o.shutdown ≡ false
    pub unique :
        (m n : Text) (o p : TunnelOwner)
        → HashMap.get m st.owners ≡ some o
        → HashMap.get n st.owners ≡ some p
        → o.shutdown ≡ p.shutdown
        → m ≡ n
    pub past : (t : ℕ) → contains st.cancelled t ≡ true → t < st.next_token

  -- The tokens depend on three fields, and on the owners only through what is found there.
  pub tokens_transfer :
      (a b : RuntimeState C D)
      → a.cancelled ≡ b.cancelled
      → a.next_token ≡ b.next_token
      → ((name : Text) (o : TunnelOwner)
          → HashMap.get name b.owners ≡ some o
          → HashMap.get name a.owners ≡ some o)
      → TokensFresh a
      → TokensFresh b
  tokens_transfer a b same_cancelled same_next sub f = record {
    taken = λ name o h. rw (← same_next) (f.taken name o (sub name o h));
    live = λ name o h. rw (← same_cancelled) (f.live name o (sub name o h));
    unique = λ m n o p h k. f.unique m n o p (sub m o h) (sub n p k);
    past = λ t h. rw (← same_next) (f.past t (rw same_cancelled h));
  }

  claim_one-TokensFresh :
      (id : ℕ) (name : Text) (st : RuntimeState C D)
      → TokensFresh st
      → TokensFresh (claim_one id name st)
  unfolding claim_one
  claim_one-TokensFresh id name st f =
      let added : TunnelOwner = record { session_id = id; shutdown = st.next_token } in
      record {
        taken = λ n o h. ground (arith, HashMap.get-insert name n added st.owners, f.taken n o);
        live = λ n o h.
            ground
              (arith, HashMap.get-insert name n added st.owners, f.live n o, f.past st.next_token);
        unique = λ m n o p h k e. ground (
          arith,
          HashMap.get-insert name m added st.owners,
          HashMap.get-insert name n added st.owners,
          ==_iff name m,
          ==_iff name n,
          f.taken m o,
          f.taken n p,
          f.unique m n o p,
        );
        past = λ t h. ground (arith, f.past t);
      }

  claim_all-TokensFresh :
      (id : ℕ) (names : List Text) (st : RuntimeState C D)
      → TokensFresh st
      → TokensFresh (claim_all id names st)
  unfolding claim_all
  claim_all-TokensFresh id [] st f = f
  claim_all-TokensFresh id (name ∷ names) st f =
      claim_all-TokensFresh id names (claim_one id name st) (claim_one-TokensFresh id name st f)

  pub claim_available-TokensFresh :
      (id : ℕ) (st : RuntimeState C D) → TokensFresh st → TokensFresh (claim_available id st)
  unfolding claim_available
  claim_available-TokensFresh id st f = elim (Option-cases (HashMap.get id st.sessions)) [
    | inl e ↦ rw (e, claim_available) f
    | inr (session, e) ↦
        rw (e, claim_available)
          (claim_all-TokensFresh id (HashMap.keys_of (is_available st session) st.tunnels) st f)
  ]

  pub retain_valid_owners-TokensFresh :
      (st : RuntimeState C D) → TokensFresh st → TokensFresh (retain_valid_owners st)
  unfolding retain_valid_owners
  retain_valid_owners-TokensFresh st f =
      tokens_transfer st (retain_valid_owners st) refl refl
        (owners-retain (is_valid_owner st) st.owners) f

  pub release_session-TokensFresh :
      (id : ℕ) (st : RuntimeState C D) → TokensFresh st → TokensFresh (release_session id st)
  unfolding release_session
  release_session-TokensFresh id st f =
      tokens_transfer st (release_session id st) refl refl
        (owners-retain (λ _ owner. not (owner.session_id == id)) st.owners) f
