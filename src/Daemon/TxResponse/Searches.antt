-- ===== src/Daemon/TxResponse/Searches.antt =====
-- The searches on a node's response against those on an `AppResponse`, in
-- cw-orch-daemon/src/tx_resp.rs and packages/cw-orch-core/src/environment/index_response.rs.
use cw_orchestrator.Common.{
  String, ◌≡◌, refl, arith, List, [], ◌∷◌, map, ◌==◌, if◌then◌else◌, All, flat_map, map_err,
}
use cw_orchestrator.Core.Events
use cw_orchestrator.Core.Events.{StdError, no_value}
use cw_orchestrator.Daemon.TxResponse.{
  AbciEvent, CosmTxResponse, Decoding, events, event_attr_value, event_attr_values, std_attribute,
  std_event, raw_values, raw_first, search,
}

module _ {Bytes : Type 0} (d : Decoding Bytes) (key : String) where
  -- A key that is text decodes to itself: the test on the bytes is the test on the decoded key.
  abbrev pub IsReadable : Bytes × Bytes → Type 0
  IsReadable a = d.is_text a.0 key ≡ (d.parse_attribute_bytes a.0 == key)

  abbrev pub AreReadable : AbciEvent Bytes → Type 0
  AreReadable e = All IsReadable e.attributes

  values-raw :
      (l : List (Bytes × Bytes))
      → All IsReadable l
      → raw_values d key l ≡ Events.values key (map (std_attribute d) l)
  unfolding raw_values Events.values events
  values-raw [] h = refl
  values-raw (a ∷ l) (h, hs) = rw (h, values-raw l hs) refl

  first-raw :
      (l : List (Bytes × Bytes))
      → All IsReadable l
      → raw_first d key l ≡ Events.first_value key (map (std_attribute d) l)
  unfolding event_attr_value Events.first_value events
  first-raw [] h = refl
  first-raw (a ∷ l) (h, hs) = rw (h, first-raw l hs) refl

  search-std :
      (ty : String) (es : List (AbciEvent Bytes))
      → All AreReadable es
      → search d ty key es ≡ Events.search_event ty key (map (std_event d) es)
  unfolding event_attr_value Events.search_event events
  search-std ty [] h = refl
  search-std ty (e ∷ es) (h, hs) = rw (search-std ty es hs, first-raw e.attributes h) (ground arith)

  values-std :
      (ty : String) (es : List (AbciEvent Bytes))
      → All AreReadable es
      → flat_map (λ e. if e.type_ == ty then raw_values d key e.attributes else []) es
        ≡ Events.event_attr_values (map (std_event d) es) ty key
  unfolding events Events.event_attr_values
  values-std ty [] h = refl
  values-std ty (e ∷ es) (h, hs) =
      rw (values-std ty es hs, values-raw e.attributes h) (ground arith)

  -- If every key in the response that is tested against the key is text where it decodes to it, the
  -- searches on the response find what the searches on an `AppResponse` with its events find: all values,
  -- and the first value; where there is none both fail, the response with its own error text.
  pub searches-app_response :
      {Time : Type 0} (r : CosmTxResponse Bytes Time) (ty : String)
      → All AreReadable r.events
      → (event_attr_value d r ty key
          ≡ map_err (λ e. no_value ty key) (Events.event_attr_value (events d r) ty key))
        × (event_attr_values d r ty key ≡ Events.event_attr_values (events d r) ty key)
  unfolding event_attr_value Events.event_attr_value event_attr_values events
  searches-app_response r ty h =
      (rw (search-std ty r.events h) (ground arith), values-std ty r.events h)
