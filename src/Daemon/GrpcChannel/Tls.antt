-- ===== src/Daemon/GrpcChannel/Tls.antt =====
-- What `GrpcChannel::connect` does with an endpoint that is only reached with TLS.
use cw_orchestrator.Common.{String, ◌≡◌, refl, true, some, List, ◌∷◌, ok, err, ◌||◌, eq_refl}
use cw_orchestrator.Common.Text.{contains}
use cw_orchestrator.Daemon.Error.{DaemonError}
use cw_orchestrator.Daemon.GrpcChannel.{Transport, dial, dial_all, connect}

module _ {N Endpoint Client Channel : Type 0} (t : Transport N Endpoint Client Channel)
    (chain_id : String) where
  -- The node at the address fails without TLS, answers with TLS and is of the chain.
  pub record IsTlsOnly (address : String) (refusal failure : DaemonError) : Type 0 where
    pub plain : Endpoint
    pub secured : Endpoint
    pub client : Client
    pub built : t.builder address ≡ some plain
    pub looks_secured : (contains address "https" || contains address "443") ≡ true
    pub configured : t.tls_config plain ≡ ok secured
    pub refused : (n : N) → (t.client plain n).0 ≡ err refusal
    pub accepted : (n : N) → (t.client secured n).0 ≡ ok client
    pub answered : (n : N) → (t.get_node_info client n).0 ≡ ok (some chain_id)
    pub unreachable : (n : N) → (t.connect plain n).0 ≡ err failure

  dial-IsTlsOnly :
      (address : String) (refusal failure : DaemonError) (n : N)
      → IsTlsOnly address refusal failure
      → (dial t chain_id address n).0 ≡ err failure
  unfolding dial
  dial-IsTlsOnly address refusal failure n h =
      rw
        (
          h.built,
          h.refused n,
          h.looks_secured,
          h.configured,
          h.accepted _,
          h.answered _,
          eq_refl chain_id,
          h.unreachable _,
        )
        refl

  -- If a node of the chain at the first address is only reached with TLS, `connect` fails with the
  -- error of the connection without TLS, whatever the other addresses are.
  pub connect-IsTlsOnly :
      (address : String) (rest : List String) (refusal failure : DaemonError) (n : N)
      → IsTlsOnly address refusal failure
      → (connect t (address ∷ rest) chain_id n).0 ≡ err failure
  unfolding connect dial_all
  connect-IsTlsOnly address rest refusal failure n h =
      rw (dial-IsTlsOnly address refusal failure n h) refl
