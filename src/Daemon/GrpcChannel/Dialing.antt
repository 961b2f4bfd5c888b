-- ===== src/Daemon/GrpcChannel/Dialing.antt =====
-- Which endpoint `GrpcChannel::connect` gives a channel to.
use cw_orchestrator.Common.{
  String, ◌≡◌, ◌∙◌, refl, sym, arith, true, Option, none, some, List, [], ◌∷◌, Outcome, ok,
  ok_injective, ◌==◌, member, last, Bool-cases, inl, inr, ◌⊎◌, ◌||◌, err, panic, All, All-append,
  unwrap, unwrap-ok, eq_refl, eq_iff, ap,
}
use cw_orchestrator.Common.Exec.{>>=-eq-ok}
use cw_orchestrator.Common.Text.{contains}
use cw_orchestrator.Daemon.Error.{DaemonError}
use cw_orchestrator.Daemon.GrpcChannel.{
  Transport, dial, dial_all, connect, push, pop, verify, verified, obtain, kept, try_client,
  retry_client,
}

module _ {N Endpoint Client Channel : Type 0} (t : Transport N Endpoint Client Channel)
    (chain_id : String) where
  -- A client that was connected to an endpoint, as it is or with TLS.
  abbrev pub IsClientOf : Endpoint → Client → Type 0
  IsClientOf e c =
      ((n : N) × ((t.client e n).0 ≡ ok c))
      ⊎ ((tls : Endpoint) × (n : N) × (t.tls_config e ≡ ok tls) × ((t.client tls n).0 ≡ ok c))

  -- The channel was opened at the endpoint of an address of the list, after the client of that endpoint
  -- had answered with the chain as its network.
  pub record IsVerified (grpc : List String) (channel : Channel) : Type 0 where
    pub address : String
    pub listed : member address grpc ≡ true
    pub endpoint : Endpoint
    pub built : t.builder address ≡ some endpoint
    pub client : Client
    pub client_of : IsClientOf endpoint client
    pub asked : N
    pub answered : (t.get_node_info client asked).0 ≡ ok (some chain_id)
    pub opened : N
    pub channel_of : (t.connect endpoint opened).0 ≡ ok channel

  the_same :
      {A : Type 0} (a b : A)
      → Path (Outcome DaemonError (Option A)) (ok (some a)) (ok (some b))
      → a ≡ b
  the_same a b h = cc

  not_given :
      {A : Type 0} (a : A) → Path (Outcome DaemonError (Option A)) (ok none) (ok (some a)) → ⊥
  not_given a h = cc

  module _ (e : Endpoint) where
    try_client-ok :
        (r : Outcome DaemonError Client) (c : Client) → kept t r ≡ ok (some c) → r ≡ ok c
    unfolding dial
    try_client-ok (ok x) c h = rw (the_same x c h) refl
    try_client-ok (err x) c h = absurd (not_given c h)
    try_client-ok panic c h = cc

    retry_client-IsClientOf :
        (address : String) (o : Option Client) (first n : N) (c : Client)
        → (try_client t e first).0 ≡ ok o
        → (retry_client t address e o n).0 ≡ ok (some c)
        → IsClientOf e c
    unfolding dial
    retry_client-IsClientOf address (some x) first n c tried h = inl (
      first,
      try_client-ok (t.client e first).0 c (tried ∙ ap (λ y. ok (some y)) (the_same x c h)),
    )
    retry_client-IsClientOf address none first n c tried h =
        elim (Bool-cases (contains address "https" || contains address "443")) [
          | inl secure ↦
              let (tls, configured, eq) =
                >>=-eq-ok (λ m. (t.tls_config e, m)) (try_client t) n (rw secure at h) in
              inr (tls, n, configured, try_client-ok (t.client tls n).0 c (rw (secure, eq) at h))
          | inr plain ↦ absurd (not_given c (rw plain at h))
        ]

    obtain-IsClientOf :
        (address : String) (n : N) (c : Client)
        → (obtain t address e n).0 ≡ ok (some c)
        → IsClientOf e c
    unfolding dial
    obtain-IsClientOf address n c h =
        let (o, tried, eq) = >>=-eq-ok (try_client t e) (retry_client t address e) n h in
        retry_client-IsClientOf address o n _ c tried (rw eq at h)

  module _ (address : String) (e : Endpoint) (built : t.builder address ≡ some e) where
    verified-IsVerified :
        (c : Client) (of : IsClientOf e c) (asked : N) (network : String) (opened : N)
        (channel : Channel)
        → (t.get_node_info c asked).0 ≡ ok (some network)
        → (verified t chain_id e network opened).0 ≡ ok (some channel)
        → IsVerified (address ∷ []) channel
    unfolding dial
    verified-IsVerified c of asked network opened channel answered h =
        elim (Bool-cases (network == chain_id)) [
          | inl same ↦
              let (ch, connected, eq) = >>=-eq-ok (t.connect e) _ opened (rw same at h) in
              record {
                address = address;
                listed = rw (eq_refl address) refl;
                endpoint = e;
                built = built;
                client = c;
                client_of = of;
                asked = asked;
                answered = rw ((eq_iff network chain_id).0 same) at answered;
                opened = opened;
                channel_of = connected ∙ ap ok (the_same ch channel (rw (same, eq) at h));
              }
          | inr other ↦ absurd (not_given channel (rw other at h))
        ]

    verify-IsVerified :
        (o : Option Client) (asked : N) (channel : Channel)
        → ((c : Client) → o ≡ some c → IsClientOf e c)
        → (verify t chain_id e o asked).0 ≡ ok (some channel)
        → IsVerified (address ∷ []) channel
    unfolding dial
    verify-IsVerified none asked channel of h = absurd (not_given channel h)
    verify-IsVerified (some c) asked channel of h =
        let (info, answered, eq) = >>=-eq-ok (t.get_node_info c) _ asked h in
        let (network, named, eq₁) =
          >>=-eq-ok (λ m. (unwrap info, m)) (verified t chain_id e) _ (rw eq at h) in
        verified-IsVerified c (of c refl) asked network _ channel
          (rw (unwrap-ok info network named) at answered) (rw (eq, eq₁) at h)

  dial-IsVerified :
      (address : String) (n : N) (channel : Channel)
      → (dial t chain_id address n).0 ≡ ok (some channel)
      → IsVerified (address ∷ []) channel
  unfolding dial
  dial-IsVerified address n channel h =
      let (e, built, eq) = >>=-eq-ok (λ m. (unwrap (t.builder address), m)) _ n h in
      let (o, found, eq₁) = >>=-eq-ok (obtain t address e) (verify t chain_id e) n (rw eq at h) in
      verify-IsVerified address e (unwrap-ok _ e built) o _ channel
        (λ c given. obtain-IsClientOf e address n c (rw given at found)) (rw (eq, eq₁) at h)

  -- What is verified at some addresses is verified at more of them.
  more :
      (ls ms : List String) (channel : Channel)
      → ((a : String) → member a ls ≡ true → member a ms ≡ true)
      → IsVerified ls channel
      → IsVerified ms channel
  more ls ms channel h v = record {
    address = v.address;
    listed = h v.address v.listed;
    endpoint = v.endpoint;
    built = v.built;
    client = v.client;
    client_of = v.client_of;
    asked = v.asked;
    answered = v.answered;
    opened = v.opened;
    channel_of = v.channel_of;
  }

  push-All :
      (P : Channel → Type 0) (channels : List Channel) (o : Option Channel)
      → ((channel : Channel) → o ≡ some channel → P channel)
      → All P channels
      → All P (push t channels o)
  unfolding dial_all
  push-All P channels none given h = h
  push-All P channels (some c) given h = All-append P channels (c ∷ []) h (given c refl, tt)

  -- Every channel that the loop holds is verified at the addresses passed or held before.
  dial_all-IsVerified :
      (grpc : List String) (addresses : List String) (channels found : List Channel) (n : N)
      → ((a : String) → member a addresses ≡ true → member a grpc ≡ true)
      → All (IsVerified grpc) channels
      → (dial_all t chain_id addresses channels n).0 ≡ ok found
      → All (IsVerified grpc) found
  unfolding dial_all
  dial_all-IsVerified grpc [] channels found n sub held h =
      rw (sym (ok_injective channels found h)) held
  dial_all-IsVerified grpc (a ∷ rest) channels found n sub held h =
      let (o, dialed, eq) = >>=-eq-ok (dial t chain_id a) _ n h in
      dial_all-IsVerified grpc rest (push t channels o) found _ (λ b m. sub b (ground (arith, m)))
        (push-All (IsVerified grpc) channels o
          (λ c given.
            more (a ∷ []) grpc c (λ b m. sub b (ground (arith, m)))
              (dial-IsVerified a n c (rw given at dialed)))
          held)
        (rw eq at h)

  some_injective : (x c : Channel) → some x ≡ some c → x ≡ c
  some_injective x c e = cc

  last-All :
      (P : Channel → Type 0) (l : List Channel) (c : Channel) → All P l → last l ≡ some c → P c
  last-All P [] c h e = cc
  last-All P (x ∷ []) c (h, hs) e = rw (some_injective x c e) at h
  last-All P (x ∷ y ∷ l) c (h, hs) e = last-All P (y ∷ l) c hs e

  pop-ok :
      (o : Option Channel) (n : N) (channel : Channel)
      → (pop t o n).0 ≡ ok channel
      → o ≡ some channel
  unfolding connect
  pop-ok none n channel h = cc
  pop-ok (some c) n channel h = ap some (ok_injective c channel h)

  -- A channel that `connect` gives was opened at the endpoint of an address of the list; a client that was
  -- connected to that endpoint, as it is or with TLS, had named the chain as the network of its node.
  pub connect-IsVerified :
      (grpc : List String) (n : N) (channel : Channel)
      → (connect t grpc chain_id n).0 ≡ ok channel
      → IsVerified grpc channel
  unfolding connect
  connect-IsVerified [] n channel h = cc
  connect-IsVerified (a ∷ rest) n channel h =
      let (found, dialed, eq) = >>=-eq-ok (dial_all t chain_id (a ∷ rest) []) _ n h in
      last-All (IsVerified (a ∷ rest)) found channel
        (dial_all-IsVerified (a ∷ rest) (a ∷ rest) [] found n (λ b m. m) tt dialed)
        (pop-ok (last found) _ channel (rw eq at h))
