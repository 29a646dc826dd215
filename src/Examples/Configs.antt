-- ===== src/Examples/Configs.antt =====
-- Tests of the configuration (internal/mesh/config.go, internal/mesh/bootstrap.go).
use blackchain_node.Merkle.{
  nonzero_rows, insert_row, sort_rows, leaf, next_level, build, merkle_balances_root,
}
use blackchain_node.Sync.{
  next_retry_delay, insert_text, sort_texts, select_peers, reachable_peers,
  reachable_peers_for_sync, check_sample, check_report, take_sample, note_peer_height_sample,
}
use blackchain_node.Prelude.{
  String, true, false, none, some, List, [], ◌∷◌, ◌≡◌, refl, pos, All, length, ◌+ℤ◌, ◌-ℤ◌, ◌*ℤ◌,
  wrap64, add64, sub64, mul64, div64,
}
use blackchain_node.Types.{ok}
use blackchain_node.Dict.{Map, contains, insert, string_Eq, lookup, delete}
use blackchain_node.Config.{
  Net, normalize_bootstrap_peers, is_valid_hostname, validate_tcp_address,
  validate_non_wildcard_listen, same_socket, normalize_loop, add_startup_peers,
  build_startup_peer_set,
}
use blackchain_node.Config.Startup.{IsIncreasing, IsForeign, normalize_bootstrap_peers_sound}
use blackchain_node.Config.Mesh.{
  Files, MeshConfig, RawFields, normalize_and_validate_mesh_config, validate_tls_file, validate_tls,
  is_loopback_http_listen, resolve_http_surface_enabled, candidate_self_addresses, check_peers,
  check_peer_api, validate_mesh_config, trim_config, choose_listen, bind_address,
}
use blackchain_node.Config.Safety.{IsSafe, normalize_and_validate_mesh_config_sound}

-- Every host listens at port 9000, which is left out of its address.
instance abbrev toy_net : Net
toy_net = record {
  trim_space = λ s. s;
  split_host_port = λ s. some (s, "9000");
  join_host_port = λ host port. host;
  atoi = λ s. some (pos 9000);
  itoa = λ z. "9000";
  is_ip = λ s. false;
  labels = λ s. (110 ∷ 49 ∷ []) ∷ [];
}

instance abbrev toy_files : Files
toy_files = record {
  stat = λ path. none;
  readable = λ path. false;
  key_pair = λ cert key. none;
  parse_cert = λ raw. none;
  has_certs = λ path. false;
  is_loopback = λ host. false;
}

abbrev own_addresses : Map String (Unit {0})
own_addresses = ("n9", tt) ∷ []

two_peers_pass : normalize_bootstrap_peers ("n2" ∷ "n1" ∷ []) own_addresses ≡ ok ("n1" ∷ "n2" ∷ [])
unfolding is_valid_hostname validate_tcp_address validate_non_wildcard_listen same_socket
    normalize_loop normalize_bootstrap_peers add_startup_peers build_startup_peer_set
    next_retry_delay insert_text sort_texts select_peers reachable_peers reachable_peers_for_sync
    check_sample check_report take_sample note_peer_height_sample nonzero_rows insert_row sort_rows
    leaf next_level build merkle_balances_root lookup insert delete contains ◌+ℤ◌ ◌-ℤ◌ ◌*ℤ◌ wrap64
    add64 sub64 mul64 div64
two_peers_pass = refl

normalize_bootstrap_peers_sound_example :
    let out : List String = "n1" ∷ "n2" ∷ [] in
    (length out ≡ 2) × IsIncreasing out × All (IsForeign own_addresses) out
normalize_bootstrap_peers_sound_example =
    normalize_bootstrap_peers_sound ("n2" ∷ "n1" ∷ []) own_addresses ("n1" ∷ "n2" ∷ [])
      two_peers_pass

-- A node with a listen address, an HTTP server on the loopback and a peer.
abbrev node_config : MeshConfig
node_config = record {
  tls = none;
  node_id = "node1";
  persist_dir = "";
  data_dir = "data";
  listen = "n9";
  host = "";
  port = pos 0;
  debug = "";
  http_listen = "localhost";
  debug_endpoints_enabled = some true;
  admin_endpoints_enabled = none;
  peers = "n1" ∷ [];
  peer_api = [];
}

abbrev node_fields : RawFields
node_fields = ("node_id", tt) ∷ ("listen", tt) ∷ ("http_listen", tt) ∷ []

node_config_passes : normalize_and_validate_mesh_config 5 node_config node_fields ≡ ok node_config
unfolding is_valid_hostname validate_tcp_address validate_non_wildcard_listen same_socket
    normalize_loop normalize_bootstrap_peers add_startup_peers build_startup_peer_set
    validate_tls_file validate_tls is_loopback_http_listen resolve_http_surface_enabled
    candidate_self_addresses check_peers check_peer_api validate_mesh_config trim_config
    choose_listen bind_address normalize_and_validate_mesh_config lookup insert delete contains ◌+ℤ◌
    ◌-ℤ◌ ◌*ℤ◌ wrap64 add64 sub64 mul64 div64
node_config_passes = refl

normalize_and_validate_mesh_config_sound_example : IsSafe node_config
normalize_and_validate_mesh_config_sound_example =
    normalize_and_validate_mesh_config_sound 5 node_config node_config node_fields
      node_config_passes
