-- ===== src/Daemon/Tests/Channels.antt =====
-- Channels to a node that answers for its chain, with and without TLS.
use cw_orchestrator.Common.{◌≡◌, refl, Bool, true, false, some, [], ◌∷◌, Outcome, ok, err}
use cw_orchestrator.Common.Text.{contains}
use cw_orchestrator.Daemon.Error.{DaemonError, grpc_list_is_empty}
use cw_orchestrator.Daemon.GrpcChannel.{Transport, connect, dial_all, dial}
use cw_orchestrator.Daemon.GrpcChannel.Dialing.{IsVerified, connect-IsVerified}
use cw_orchestrator.Daemon.GrpcChannel.Tls.{IsTlsOnly, connect-IsTlsOnly}

-- An endpoint is whether it uses TLS; the node can be reached with `needed` alone.
abbrev reached : Bool → Bool → Outcome DaemonError (Unit {0})
reached false tls = ok tt
reached true true = ok tt
reached true false = err grpc_list_is_empty

abbrev node : Bool → Transport (Unit {0}) Bool (Unit {0}) (Unit {0})
node needed = record {
  builder = λ address. some false;
  tls_config = λ e. ok true;
  client = λ e n. (reached needed e, n);
  get_node_info = λ c n. (ok (some "juno-1"), n);
  connect = λ e n. (reached needed e, n);
}

opened : (connect (node false) ("http://one" ∷ []) "juno-1" tt).0 ≡ ok tt
unfolding connect dial_all dial
opened = refl

connect-IsVerified_example : IsVerified (node false) "juno-1" ("http://one" ∷ []) tt
connect-IsVerified_example =
    connect-IsVerified (node false) "juno-1" ("http://one" ∷ []) tt tt opened

only_tls : IsTlsOnly (node true) "juno-1" "https://one" grpc_list_is_empty grpc_list_is_empty
unfolding contains
only_tls = record {
  plain = false;
  secured = true;
  client = tt;
  built = refl;
  looks_secured = refl;
  configured = refl;
  refused = λ n. refl;
  accepted = λ n. refl;
  answered = λ n. refl;
  unreachable = λ n. refl;
}

connect-IsTlsOnly_example :
    (connect (node true) ("https://one" ∷ "http://two" ∷ []) "juno-1" tt).0 ≡ err grpc_list_is_empty
connect-IsTlsOnly_example =
    connect-IsTlsOnly (node true) "juno-1" "https://one" ("http://two" ∷ []) grpc_list_is_empty
      grpc_list_is_empty tt only_tls
