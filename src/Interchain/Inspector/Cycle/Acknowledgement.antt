-- ===== src/Interchain/Inspector/Cycle/Acknowledgement.antt =====
-- What `follow_packet_cycle` of packages/interchain/interchain-daemon/src/packet_inspector.rs reports of
-- a packet that was relayed.
use cw_orchestrator.Common.{
  ℕ, String, ◌≡◌, ◌⊎◌, inl, inr, refl, sym, arith, Bool, false, Option, none, some, List, [], ◌∷◌,
  Outcome, ok, err, panic, unwrap, unwrap-ok, ok_injective, map_err-ok, ◌==◌, if◌then◌else◌, first,
  ap, Bool-cases, eq_iff,
}
use cw_orchestrator.Common.Exec.{>>=-eq-ok}
use cw_orchestrator.Daemon.TxResponse.{
  TxResultBlockEvent, CosmTxResponse, get_events, get_first_attribute_value,
}
use cw_orchestrator.Interchain.Analysis.{TxId}
use cw_orchestrator.Interchain.Channel.{IbcPort, InterchainChannel, get_ordered_ports_from}
use cw_orchestrator.Interchain.Following.{SimpleAnalysis, PacketOutcome, success}
use cw_orchestrator.Interchain.Inspector.{
  Inspector, InterchainDaemonError, interchain_error, get_packet_send_tx, get_packet_receive_tx,
  get_packet_ack_receive_tx,
}
use cw_orchestrator.Interchain.Inspector.Cycle.{
  check_code, with_sequence, numbered, keep_if, ack_of, acknowledgement, follow_packet_cycle,
  ports_from,
}

-- The first event with a packet sequence; those before it have another one.
abbrev pub IsFirstWith : String → List TxResultBlockEvent → TxResultBlockEvent → Type 0
IsFirstWith sequence [] event = ⊥
IsFirstWith sequence (e ∷ events) event =
    ((get_first_attribute_value e "packet_sequence" ≡ some sequence) × (e ≡ event))
    ⊎ (((s : String) × (get_first_attribute_value e "packet_sequence" ≡ some s)
          × ((s == sequence) ≡ false))
        × IsFirstWith sequence events event)

module _ {N C Bytes Time Price Endpoint Client : Type 0}
    (i : Inspector N C Bytes Time Price Endpoint Client) where
  keep_if-ok :
      (e : TxResultBlockEvent) (o : Outcome (InterchainDaemonError C) Bool)
      (rest : Outcome (InterchainDaemonError C) (List TxResultBlockEvent))
      (l : List TxResultBlockEvent)
      → keep_if i e o rest ≡ ok l
      → (b : Bool) × (r : List TxResultBlockEvent) × (o ≡ ok b)
        × (rest ≡ ok r)
        × ((if b then e ∷ r else r) ≡ l)
  unfolding with_sequence
  keep_if-ok e (ok b) (ok r) l h = (b, r, refl, refl, ok_injective _ l h)
  keep_if-ok e (ok b) (err x) l h = cc
  keep_if-ok e (ok b) panic l h = cc
  keep_if-ok e (err x) rest l h = cc
  keep_if-ok e panic rest l h = cc

  numbered-ok :
      (sequence : String) (o : Option String) (b : Bool)
      → numbered i sequence o ≡ ok b
      → (s : String) × (o ≡ some s) × ((s == sequence) ≡ b)
  unfolding with_sequence
  numbered-ok sequence none b h = cc
  numbered-ok sequence (some s) b h = (s, refl, ok_injective _ b h)

  some_injective : {A : Type 0} (a b : A) → some a ≡ some b → a ≡ b
  some_injective a b h = cc

  not_first : (event : TxResultBlockEvent) → first {A = TxResultBlockEvent} [] ≡ some event → ⊥
  not_first event f = cc

  first_with :
      (sequence : String) (events l : List TxResultBlockEvent) (event : TxResultBlockEvent)
      → with_sequence i sequence events ≡ ok l
      → first l ≡ some event
      → IsFirstWith sequence events event
  unfolding with_sequence
  first_with sequence [] l event h f = not_first event (rw (sym (ok_injective [] l h)) at f)
  first_with sequence (e ∷ events) l event h f =
      let (b, r, tested, rest, kept) = keep_if-ok e _ (with_sequence i sequence events) l h in
      let (s, named, same) = numbered-ok sequence _ b tested in
      elim (Bool-cases (s == sequence)) [
        | inl t ↦ inl (
          rw ((eq_iff s sequence).0 t) at named,
          some_injective e event (rw (sym kept, sym same, t) at f),
        )
        | inr u ↦ inr (
          (s, named, u),
          first_with sequence events r event rest (rw (sym kept, sym same, u) at f),
        )
      ]

  -- The acknowledgement is the one in the first event with the sequence of the packet.
  pub record IsWritten (tx : CosmTxResponse Bytes Time) (sequence : ℕ) (ack : String) : Type 0 where
    pub event : TxResultBlockEvent
    pub is_first :
        IsFirstWith (i.show sequence) (get_events i.decoding tx "write_acknowledgement") event
    pub written : get_first_attribute_value event "packet_ack" ≡ some ack

  ack_of-some :
      (o : Option TxResultBlockEvent) (n : N) (ack : String)
      → (ack_of i o n).0 ≡ ok ack
      → (event : TxResultBlockEvent) × (o ≡ some event)
        × (get_first_attribute_value event "packet_ack" ≡ some ack)
  unfolding acknowledgement
  ack_of-some none n ack h = cc
  ack_of-some (some event) n ack h =
      let (s, numbered, q) =
        >>=-eq-ok (λ m. (unwrap (get_first_attribute_value event "packet_sequence"), m)) _ n h in
      let (x, data_, q₁) =
        >>=-eq-ok (λ m. (unwrap (get_first_attribute_value event "packet_data"), m)) _ n
          (rw q at h) in
      (event, refl, unwrap-ok _ ack (rw (q, q₁) at h))

  acknowledgement-IsWritten :
      (tx : CosmTxResponse Bytes Time) (sequence : ℕ) (n : N) (ack : String)
      → (acknowledgement i tx sequence n).0 ≡ ok ack
      → IsWritten tx sequence ack
  unfolding acknowledgement
  acknowledgement-IsWritten tx sequence n ack h =
      let (l, filtered, q) =
        >>=-eq-ok
          (λ m. (
            with_sequence i (i.show sequence) (get_events i.decoding tx "write_acknowledgement"),
            m,
          ))
          _ n h in
      let (event, found, written) = ack_of-some (first l) n ack (rw q at h) in
      record { event = event; is_first = first_with _ _ l event filtered found; written = written }

  check_code-ok :
      (chain_id : String) (tx : CosmTxResponse Bytes Time)
      → check_code i chain_id tx ≡ ok tt
      → tx.code ≡ 0
  unfolding check_code
  check_code-ok chain_id tx h = ground (arith, h)

  -- A packet was relayed: the receiving and the acknowledging transaction answer the searches for them
  -- and did not fail, and the acknowledgement is that of the receiving transaction.
  pub record IsRelayed (from : String) (channel : InterchainChannel C) (sequence : ℕ)
      (outcome : PacketOutcome (TxId (CosmTxResponse Bytes Time))) : Type 0 where
    pub ends : IbcPort C × IbcPort C
    pub ordered : get_ordered_ports_from channel from ≡ ok ends
    pub received : CosmTxResponse Bytes Time
    pub acked : CosmTxResponse Bytes Time
    pub ack : String
    pub at : N
    pub receiving : (get_packet_receive_tx i from channel sequence at).0 ≡ ok received
    pub then_ : N
    pub acknowledging :
        (get_packet_ack_receive_tx i ends.0.chain_id channel sequence then_).0 ≡ ok acked
    pub received_well : received.code ≡ 0
    pub acked_well : acked.code ≡ 0
    pub written : IsWritten received sequence ack
    pub outcome_of :
        outcome
        ≡ success
            (record { chain_id = ends.1.chain_id; response = received })
            (record { chain_id = ends.0.chain_id; response = acked })
            ack

  -- Where `follow_packet_cycle` gives an analysis, the packet was relayed by transactions that did not
  -- fail, and the acknowledgement is that of the first event in the receiving transaction that writes
  -- one for the sequence of the packet, on whatever channel.
  pub follow_packet_cycle-IsRelayed :
      (from : String) (channel : InterchainChannel C) (sequence : ℕ) (n : N)
      (r : SimpleAnalysis (CosmTxResponse Bytes Time))
      → (follow_packet_cycle i from channel sequence n).0 ≡ ok r
      → IsRelayed from channel sequence r.outcome
  unfolding follow_packet_cycle
  follow_packet_cycle-IsRelayed from channel sequence n r h =
      let (ends, ordered, q) = >>=-eq-ok (ports_from i channel from) _ n h in
      let (sent, sending, q₁) =
        >>=-eq-ok (get_packet_send_tx i from channel sequence) _ _ (rw q at h) in
      let (received, receiving, q₂) =
        >>=-eq-ok (get_packet_receive_tx i from channel sequence) _ _ (rw (q, q₁) at h) in
      let (u, well, q₃) =
        >>=-eq-ok (λ m. (check_code i ends.1.chain_id received, m)) _ _ (rw (q, q₁, q₂) at h) in
      let (ack, written, q₄) =
        >>=-eq-ok (acknowledgement i received sequence) _ _ (rw (q, q₁, q₂, q₃) at h) in
      let (acked, acknowledging, q₅) =
        >>=-eq-ok (get_packet_ack_receive_tx i ends.0.chain_id channel sequence) _ _
          (rw (q, q₁, q₂, q₃, q₄) at h) in
      let (v, well', q₆) =
        >>=-eq-ok (λ m. (check_code i ends.0.chain_id acked, m)) _ _
          (rw (q, q₁, q₂, q₃, q₄, q₅) at h) in
      record {
        ends = ends;
        ordered = map_err-ok interchain_error _ ordered;
        received = received;
        acked = acked;
        ack = ack;
        at = _;
        receiving = receiving;
        then_ = _;
        acknowledging = acknowledging;
        received_well = check_code-ok ends.1.chain_id received well;
        acked_well = check_code-ok ends.0.chain_id acked well';
        written = acknowledgement-IsWritten received sequence _ ack written;
        outcome_of =
            sym (ap (λ x. x.outcome) (ok_injective _ r (rw (q, q₁, q₂, q₃, q₄, q₅, q₆) at h)));
      }
