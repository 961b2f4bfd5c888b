-- ===== src/Interchain/Inspector/Sent/Aligned.antt =====
-- The packets that packages/interchain/interchain-daemon/src/packet_inspector.rs finds in a
-- transaction are those of its events.
use cw_orchestrator.Common.{
  String, ◌≡◌, sym, Option, some, List, [], ◌∷◌, ok, unwrap, map_err, first, ok_injective, ap,
  >>=-ok, map_err-ok, unwrap-ok, ◌∙◌,
}
use cw_orchestrator.Common.Exec.{>>=-eq-ok}
use cw_orchestrator.Daemon.TxResponse.{
  TxResultBlockEvent, CosmTxResponse, get_events, get_first_attribute_value,
}
use cw_orchestrator.Interchain.Following.{IbcPacketInfo}
use cw_orchestrator.Interchain.Inspector.{Inspector, validation_error, ics_channel}
use cw_orchestrator.Interchain.Inspector.Sent.{
  tail, attribute_values, chain_ids_of, packet_at, counterparty_of, packets_of, in_events,
  find_ibc_packets_sent_in_tx,
}

module _ {N C Bytes Time Price Endpoint Client : Type 0}
    (i : Inspector N C Bytes Time Price Endpoint Client) where
  -- A packet is what an event says: its port, channel and sequence are those of the event, parsed.
  pub record IsPacketOf (event : TxResultBlockEvent) (packet : IbcPacketInfo) : Type 0 where
    pub port : String
    pub channel : String
    pub number : String
    pub port_of : get_first_attribute_value event "packet_src_port" ≡ some port
    pub channel_of : get_first_attribute_value event "packet_src_channel" ≡ some channel
    pub number_of : get_first_attribute_value event "packet_sequence" ≡ some number
    pub port_parsed : i.parse_port port ≡ ok packet.src_port
    pub channel_parsed : i.parse_channel channel ≡ ok packet.src_channel
    pub number_parsed : i.parse_sequence number ≡ ok packet.sequence

  -- The packets are those of the events, one for each and in their order.
  abbrev pub ArePackets : List TxResultBlockEvent → List IbcPacketInfo → Type 0
  ArePackets [] [] = Unit
  ArePackets [] (p ∷ packets) = ⊥
  ArePackets (e ∷ events) [] = ⊥
  ArePackets (e ∷ events) (p ∷ packets) = IsPacketOf e p × ArePackets events packets

  packet_at-IsPacketOf :
      (e : TxResultBlockEvent) (port channel number : String) (chain_text : Option String) (n : N)
      (p : IbcPacketInfo)
      → get_first_attribute_value e "packet_src_port" ≡ some port
      → get_first_attribute_value e "packet_src_channel" ≡ some channel
      → get_first_attribute_value e "packet_sequence" ≡ some number
      → (packet_at i port (some channel) (some number) chain_text n).0 ≡ ok p
      → IsPacketOf e p
  unfolding packets_of
  packet_at-IsPacketOf e port channel number chain_text n p hp hc hn h =
      let (a, parsed, q) =
        >>=-eq-ok (λ m. (map_err validation_error (i.parse_port port), m)) _ n h in
      let (b, parsed', q₁) =
        >>=-eq-ok (λ m. (map_err validation_error (i.parse_channel channel), m)) _ n (rw q at h) in
      let (d, parsed'', q₂) =
        >>=-eq-ok (λ m. (map_err ics_channel (i.parse_sequence number), m)) _ n (rw (q, q₁) at h) in
      let (k, chain, q₃) = >>=-eq-ok (λ m. (unwrap chain_text, m)) _ n (rw (q, q₁, q₂) at h) in
      let same = ok_injective _ p (rw (q, q₁, q₂, q₃) at h) in
      record {
        port = port;
        channel = channel;
        number = number;
        port_of = hp;
        channel_of = hc;
        number_of = hn;
        port_parsed = map_err-ok validation_error _ parsed ∙ ap (λ r. ok r.src_port) same;
        channel_parsed = map_err-ok validation_error _ parsed' ∙ ap (λ r. ok r.src_channel) same;
        number_parsed = map_err-ok ics_channel _ parsed'' ∙ ap (λ r. ok r.sequence) same;
      }

  -- The values of an attribute: one of each event.
  abbrev AreValues : String → List TxResultBlockEvent → List String → Type 0
  AreValues attr [] [] = Unit
  AreValues attr [] (v ∷ vs) = ⊥
  AreValues attr (e ∷ events) [] = ⊥
  AreValues attr (e ∷ events) (v ∷ vs) =
      (get_first_attribute_value e attr ≡ some v) × AreValues attr events vs

  values_of :
      (attr : String) (events : List TxResultBlockEvent) (vs : List String)
      → attribute_values i attr events ≡ ok vs
      → AreValues attr events vs
  unfolding attribute_values
  values_of attr [] vs h = rw (sym (ok_injective [] vs h)) tt
  values_of attr (e ∷ events) vs h =
      let (v, found, q) = >>=-ok (unwrap (get_first_attribute_value e attr)) _ h in
      let (rest, others, q₁) = >>=-ok (attribute_values i attr events) _ q in
      rw (sym (ok_injective (v ∷ rest) vs q₁))
        (unwrap-ok _ v found, values_of attr events rest others)

  packets_of-ArePackets :
      (c : C) (events : List TxResultBlockEvent) (ports channels numbers chains : List String)
      (n : N) (ps : List IbcPacketInfo)
      → AreValues "packet_src_port" events ports
      → AreValues "packet_src_channel" events channels
      → AreValues "packet_sequence" events numbers
      → (packets_of i c ports channels numbers chains n).0 ≡ ok ps
      → ArePackets events ps
  unfolding packets_of
  packets_of-ArePackets c [] [] channels numbers chains n ps hp hc hn h =
      rw (sym (ok_injective [] ps h)) tt
  packets_of-ArePackets c [] (x ∷ ports) channels numbers chains n ps hp hc hn h = absurd hp
  packets_of-ArePackets c (e ∷ events) [] channels numbers chains n ps hp hc hn h = absurd hp
  packets_of-ArePackets c (e ∷ events) (x ∷ ports) [] numbers chains n ps hp hc hn h = absurd hc
  packets_of-ArePackets c (e ∷ events) (x ∷ ports) (y ∷ channels) [] chains n ps hp hc hn h =
      absurd hn
  packets_of-ArePackets c (e ∷ events) (x ∷ ports) (y ∷ channels) (z ∷ numbers) chains n ps hp hc hn
        h =
      let (p, made, q) = >>=-eq-ok (packet_at i x (some y) (some z) (first chains)) _ n h in
      let (other, asked, q₁) = >>=-eq-ok (counterparty_of i c x (some y)) _ _ (rw q at h) in
      let (rest, others, q₂) =
        >>=-eq-ok (packets_of i c ports channels numbers (tail chains)) _ _ (rw (q, q₁) at h) in
      rw (sym (ok_injective (p ∷ rest) ps (rw (q, q₁, q₂) at h))) (
        packet_at-IsPacketOf e x y z (first chains) n p hp.0 hc.0 hn.0 made,
        packets_of-ArePackets c events ports channels numbers (tail chains) _ rest hp.1 hc.1 hn.1
            others,
      )

  in_events-ArePackets :
      (c : C) (events : List TxResultBlockEvent) (n : N) (ps : List IbcPacketInfo)
      → (in_events i c events n).0 ≡ ok ps
      → ArePackets events ps
  unfolding find_ibc_packets_sent_in_tx
  in_events-ArePackets c [] n ps h = rw (sym (ok_injective [] ps h)) tt
  in_events-ArePackets c (e ∷ es) n ps h =
      let (cs, connections, q) =
        >>=-eq-ok (λ m. (attribute_values i "packet_connection" (e ∷ es), m)) _ n h in
      let (xs, ports, q₁) =
        >>=-eq-ok (λ m. (attribute_values i "packet_src_port" (e ∷ es), m)) _ n (rw q at h) in
      let (ys, channels, q₂) =
        >>=-eq-ok (λ m. (attribute_values i "packet_src_channel" (e ∷ es), m)) _ n
          (rw (q, q₁) at h) in
      let (zs, numbers, q₃) =
        >>=-eq-ok (λ m. (attribute_values i "packet_sequence" (e ∷ es), m)) _ n
          (rw (q, q₁, q₂) at h) in
      let (ds, datas, q₄) =
        >>=-eq-ok (λ m. (attribute_values i "packet_data" (e ∷ es), m)) _ n
          (rw (q, q₁, q₂, q₃) at h) in
      let (ids, chains, q₅) = >>=-eq-ok (chain_ids_of i c cs) _ n (rw (q, q₁, q₂, q₃, q₄) at h) in
      packets_of-ArePackets c (e ∷ es) xs ys zs ids _ ps (values_of _ _ xs ports)
        (values_of _ _ ys channels) (values_of _ _ zs numbers) (rw (q, q₁, q₂, q₃, q₄, q₅) at h)

  -- The packets that are found in a transaction are those of its events of the type send_packet, one
  -- for each and in their order, with the port, the channel and the sequence that the event names.
  pub find_ibc_packets-ArePackets :
      (c : C) (tx : CosmTxResponse Bytes Time) (n : N) (packets : List IbcPacketInfo)
      → (find_ibc_packets_sent_in_tx i c tx n).0 ≡ ok packets
      → ArePackets (get_events i.decoding tx "send_packet") packets
  unfolding find_ibc_packets_sent_in_tx
  find_ibc_packets-ArePackets c tx n packets h =
      in_events-ArePackets c (get_events i.decoding tx "send_packet") n packets h
