-- ===== src/Interchain/Environment/Creation.antt =====
-- What `create_channel` and `await_and_check_packets` of
-- packages/interchain/interchain-core/src/env.rs give, over any environment.
use cw_orchestrator.Common.{
  String, ◌≡◌, ◌↔◌, refl, sym, ap, Option, none, some, Outcome, ok, err, Bool-cases, inl, inr,
  ok_injective, All, map_err-ok, ◌==◌,
}
use cw_orchestrator.Common.Exec.{>>=-eq-ok}
use cw_orchestrator.Interchain.Analysis.{TxAnalysis, Decoders, into_result}
use cw_orchestrator.Interchain.Analysis.Results.{acks, IsAccepted, into_result-acks}
use cw_orchestrator.Interchain.Channel.{
  IbcPort, InterchainChannel, new, get_ordered_ports_from, get_mut_ordered_ports_from,
  ordered-mut_ordered,
}
use cw_orchestrator.Interchain.Environment.{
  InterchainEnv, InternalChannelCreationResult, ChannelCreationTransactionsResult,
  ChannelCreationResult, create_channel, finish_channel, await_creation, connection_of, name_ends,
  into_error, await_and_check_packets,
}
use cw_orchestrator.Interchain.Error.{InterchainError, std_error}

module _ {H : Type 0} where
  ordered_of_mut :
      (c named : InterchainChannel H) (src : String)
      (change : IbcPort H × IbcPort H → IbcPort H × IbcPort H)
      → get_mut_ordered_ports_from c src change ≡ ok named
      → (ports : IbcPort H × IbcPort H) × (get_ordered_ports_from c src ≡ ok ports)
  unfolding get_mut_ordered_ports_from get_ordered_ports_from
  ordered_of_mut c named src change h = elim (Bool-cases (src == c.port_a.chain_id)) [
    | inl e ↦ ((c.port_a, c.port_b), rw e refl)
    | inr e ↦ elim (Bool-cases (src == c.port_b.chain_id)) [
      | inl f ↦ ((c.port_b, c.port_a), rw (e, f) refl)
      | inr f ↦ absurd (nothing (rw (e, f) at h))
    ]
  ]
    where
      nothing :
          {x : InterchainError}
          → Path (Outcome InterchainError (InterchainChannel H)) (err x) (ok named)
          → ⊥
      nothing h = cc

  ports_of :
      (c named : InterchainChannel H) (src a b d : String)
      → get_mut_ordered_ports_from c src (name_ends a b d) ≡ ok named
      → (ports : IbcPort H × IbcPort H) × (get_ordered_ports_from c src ≡ ok ports)
        × (get_ordered_ports_from named src ≡ ok (name_ends a b d ports))
  ports_of c named src a b d h =
      let (ports, o) = ordered_of_mut c named src _ h in
      (ports, o, rw (h, o) at (ordered-mut_ordered c src (name_ends a b d) (λ p q. (refl, refl))))

  moved :
      (src : String) (c d : InterchainChannel H)
      (x : Outcome InterchainError (IbcPort H × IbcPort H))
      → c ≡ d
      → get_ordered_ports_from c src ≡ x
      → get_ordered_ports_from d src ≡ x
  moved src c d x same h = rw (sym same) h

module _ {W H R Created Order E : Type 0} (env : InterchainEnv W H R Created Order E) where
  -- The channel between two ports whose identifier is not known yet, as the environment is asked about
  -- it; only the first port has a connection.
  abbrev pub unnamed : String → String → String → String → String → H → H → InterchainChannel H
  unnamed src dst src_port dst_port src_connection a b = record {
    port_a = record {
      chain = a;
      chain_id = src;
      connection_id = some src_connection;
      port = src_port;
      channel = none;
    };
    port_b = record {
      chain = b;
      chain_id = dst;
      connection_id = none;
      port = dst_port;
      channel = none;
    };
  }

  -- What `create_channel` did from a world `w`. The environment made a channel between the two ports, and
  -- was asked at once for its creation, with the handlers of the two chains. The transaction of the opening
  -- that it found names a connection. The port on the first chain then has the first channel identifier
  -- that was found, and the other port the second one and that connection; all else of the ports is as it
  -- was found.
  pub record IsNamed (src dst src_port dst_port version : String) (order : Option Order) (w : W)
      (channel : InterchainChannel H) : Type 0 where
    pub internal : InternalChannelCreationResult Created
    pub made :
        (env.internal_create_channel src dst src_port dst_port version order w).0 ≡ ok internal
    pub a : H
    pub b : H
    pub handler_a :
        env.handler_of src (env.internal_create_channel src dst src_port dst_port version order w).1
        ≡ ok a
    pub handler_b :
        env.handler_of dst (env.internal_create_channel src dst src_port dst_port version order w).1
        ≡ ok b
    pub found : InterchainChannel H × ChannelCreationTransactionsResult R
    pub given :
        (env.get_channel_creation_txs src
          (unnamed src dst src_port dst_port internal.src_connection_id a b)
          internal.created
          (env.internal_create_channel src dst src_port dst_port version order w).1).0
        ≡ ok found
    pub connection : String
    pub connected :
        env.response.attr_value found.1.channel_creation_txs.try_ "channel_open_try" "connection_id"
        ≡ ok connection
    pub ports : IbcPort H × IbcPort H
    pub before : get_ordered_ports_from found.0 src ≡ ok ports
    pub after :
        get_ordered_ports_from channel src
        ≡ ok (
          record ports.0 { channel = some found.1.src_channel_id },
          record ports.1 { connection_id = some connection; channel = some found.1.dst_channel_id },
        )

  -- What the rest of `create_channel` does with the transactions that were found.
  finish_channel-named :
      (src dst : String) (found : InterchainChannel H × ChannelCreationTransactionsResult R) (w : W)
      (r : ChannelCreationResult H R)
      → (finish_channel env src dst found w).0 ≡ ok r
      → (connection : String) × (ports : IbcPort H × IbcPort H) × (env.response.attr_value
            found.1.channel_creation_txs.try_ "channel_open_try" "connection_id"
          ≡ ok connection)
        × (get_ordered_ports_from found.0 src ≡ ok ports)
        × (get_ordered_ports_from r.interchain_channel src
            ≡ ok (name_ends found.1.src_channel_id found.1.dst_channel_id connection ports))
  unfolding create_channel connection_of
  finish_channel-named src dst (channel, txs) w r h =
      let (connection, connected, e) =
        >>=-eq-ok (λ m. (connection_of env txs.channel_creation_txs.try_, m)) _ w h in
      let (packets, awaited, e₁) =
        >>=-eq-ok (await_creation env src dst txs.channel_creation_txs) _ w (rw e at h) in
      let (named, renamed, e₂) =
        >>=-eq-ok
          (λ m. (
            get_mut_ordered_ports_from channel src
                (name_ends txs.src_channel_id txs.dst_channel_id connection),
            m,
          ))
          _ _ (rw (e, e₁) at h) in
      let (ports, before, after) = ports_of channel named src _ _ _ renamed in
      let same = ap (λ x. x.interchain_channel) (ok_injective _ r (rw (e, e₁, e₂) at h)) in
      (
        connection,
        ports,
        map_err-ok std_error _ connected,
        before,
        moved src named r.interchain_channel _ same after,
      )

  -- Where `create_channel` gives a channel, the environment made one between the two ports, and was asked
  -- about it with the first connection and the handlers of the chains. The port on the first chain has the
  -- first channel identifier that was found, and the other port the second one and the connection that the
  -- transaction of the opening names; nothing else of the ports has changed since they were found.
  pub create_channel-IsNamed :
      (src dst src_port dst_port version : String) (order : Option Order) (w : W)
      (r : ChannelCreationResult H R)
      → (create_channel env src dst src_port dst_port version order w).0 ≡ ok r
      → IsNamed src dst src_port dst_port version order w r.interchain_channel
  unfolding create_channel new
  create_channel-IsNamed src dst src_port dst_port version order w r h =
      let (internal, made, e) =
        >>=-eq-ok
          (into_error env (env.internal_create_channel src dst src_port dst_port version order)) _ w
          h in
      let (a, handled, e₁) =
        >>=-eq-ok (into_error env (λ m. (env.handler_of src m, m))) _ _ (rw e at h) in
      let (b, handled', e₂) =
        >>=-eq-ok (into_error env (λ m. (env.handler_of dst m, m))) _ _ (rw (e, e₁) at h) in
      let (found, given, e₃) =
        >>=-eq-ok
          (into_error env (
            env.get_channel_creation_txs src
              (unnamed src dst src_port dst_port internal.src_connection_id a b) internal.created))
          (finish_channel env src dst) _ (rw (e, e₁, e₂) at h) in
      let (connection, ports, connected, before, after) =
        finish_channel-named src dst found _ r (rw (e, e₁, e₂, e₃) at h) in
      record {
        internal = internal;
        made = map_err-ok env.into _ made;
        a = a;
        b = b;
        handler_a = map_err-ok env.into _ handled;
        handler_b = map_err-ok env.into _ handled';
        found = found;
        given = map_err-ok env.into _ given;
        connection = connection;
        connected = connected;
        ports = ports;
        before = before;
        after = after;
      }

  -- `await_and_check_packets` succeeds exactly if the packets can be awaited and, of all packets in the
  -- analysis, at any depth, none timed out and each acknowledgement is taken as a success by one of the
  -- three parsers.
  pub await_and_check_packets-acks :
      (d : Decoders) (chain_id : String) (tx : R) (w : W)
      → ((await_and_check_packets env d chain_id tx w).0 ≡ ok tt)
        ↔ (a : TxAnalysis R) × ((env.await_packets chain_id tx w).0 ≡ ok a)
          × All (IsAccepted d) (acks a)
  unfolding await_and_check_packets
  await_and_check_packets-acks d chain_id tx w = (
    (λ h.
        let (a, awaited, e) =
          >>=-eq-ok (into_error env (env.await_packets chain_id tx)) (λ a m. (into_result d a, m)) w
            h in
        (a, map_err-ok env.into _ awaited, (into_result-acks d a).0 (rw e at h))),
    (λ (a, awaited, h). rw (awaited, (into_result-acks d a).1 h) refl),
  )
