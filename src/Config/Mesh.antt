-- ===== src/Config/Mesh.antt =====
-- `normalizeAndValidateMeshConfig` and `validateMeshConfig` of internal/mesh/config.go, with
-- `MeshTLS.validate` of internal/mesh/transport_tls.go and the tests for loopback of
-- internal/mesh/daemon_bridge.go. Files and certificates are parameters.
use blackchain_node.Prelude.{
  ℕ, String, str_eq, Bool, true, false, not, ◌&&◌, ◌||◌, Option, none, some, List, [], ◌∷◌, ℤ, pos,
  eqb_ℤ, ltb, if◌then◌else◌,
}
use blackchain_node.Types.{
  Result, ok, err, ◌>>=◌, ◌>>◌, reject_if, empty_peer, duplicate_peer, self_peer, exclusive_listen,
  incomplete_host, legacy_debug, missing_field, same_address, not_loopback, tls_missing_file,
  tls_bad_file, tls_broad_key, tls_mismatch, tls_bad_cert, tls_bad_time, tls_bad_ca,
}
use blackchain_node.Platform.{Bytes}
use blackchain_node.Signing.{is_empty}
use blackchain_node.Dict.{Map, insert, contains, string_Eq}
use blackchain_node.Config.{Net, validate_tcp_address, same_socket}

-- `MeshTLS`
pub record MeshTls : Type 0 where
  pub enabled : Bool
  pub cert_file : String
  pub key_file : String
  pub ca_file : String

-- What the code uses of os, crypto/tls and crypto/x509, and `IP.IsLoopback` of net.
pub record Files : Type 0 where
  -- `os.Stat`: whether it is a directory, and whether others than the owner have rights
  pub stat : String → Option (Bool × Bool)
  pub readable : String → Bool
  -- `tls.LoadX509KeyPair`: the certificates
  pub key_pair : String → String → Option (List Bytes)
  -- `x509.ParseCertificate`: the times between which it is valid
  pub parse_cert : Bytes → Option (ℕ × ℕ)
  -- whether `AppendCertsFromPEM` finds a certificate in the file
  pub has_certs : String → Bool
  pub is_loopback : String → Bool

-- `MeshConfig`, as far as it is validated.
pub record MeshConfig : Type 0 where
  pub tls : Option MeshTls
  pub node_id : String
  pub persist_dir : String
  pub data_dir : String
  pub listen : String
  pub host : String
  pub port : ℤ
  pub debug : String
  pub http_listen : String
  pub debug_endpoints_enabled : Option Bool
  pub admin_endpoints_enabled : Option Bool
  pub peers : List String
  pub peer_api : Map String String

-- The keys that stand in the file.
abbrev pub RawFields : Type 0
RawFields = Map String (Unit {0})

module _ ⦃n : Net⦄ ⦃f : Files⦄ where
  abbrev check_stat : Option (Bool × Bool) → Result (Unit {0})
  check_stat none = err tls_missing_file
  check_stat (some info) = reject_if info.0 tls_bad_file

  abbrev is_broad : Option (Bool × Bool) → Bool
  is_broad none = false
  is_broad (some info) = info.1

  -- `validateTLSFile`
  unfoldable pub validate_tls_file : String → Bool → Result (Unit {0})
  validate_tls_file path private_key = do
    reject_if (is_empty (n.trim_space path)) missing_field
    check_stat (f.stat (n.trim_space path))
    reject_if (not (f.readable (n.trim_space path))) tls_bad_file
    reject_if (private_key && is_broad (f.stat (n.trim_space path))) tls_broad_key

  abbrev check_times : ℕ → Option (ℕ × ℕ) → Result (Unit {0})
  check_times now none = err tls_bad_cert
  check_times now (some times) = reject_if (ltb now times.0 || ltb times.1 now) tls_bad_time

  abbrev check_cert : ℕ → Option (List Bytes) → Result (Unit {0})
  check_cert now none = err tls_mismatch
  check_cert now (some []) = err tls_bad_cert
  check_cert now (some (leaf ∷ certs)) = check_times now (f.parse_cert leaf)

  -- `MeshTLS.validate`
  unfoldable pub validate_tls : ℕ → MeshTls → Result (Unit {0})
  unfolding validate_tls_file
  validate_tls now t = if not t.enabled then ok tt else (do
    reject_if (is_empty t.cert_file || is_empty t.key_file || is_empty t.ca_file) missing_field
    validate_tls_file t.cert_file false
    validate_tls_file t.key_file true
    validate_tls_file t.ca_file false
    check_cert now (f.key_pair t.cert_file t.key_file)
    reject_if (not (f.readable t.ca_file) || not (f.has_certs t.ca_file)) tls_bad_ca)

  abbrev loopback_host : Option (String × String) → Bool
  loopback_host none = false
  loopback_host (some hp) =
      str_eq (n.trim_space hp.0) "localhost"
      || (n.is_ip (n.trim_space hp.0) && f.is_loopback (n.trim_space hp.0))

  -- `isLoopbackHTTPListen`
  unfoldable pub is_loopback_http_listen : String → Bool
  is_loopback_http_listen addr = loopback_host (n.split_host_port (n.trim_space addr))

  -- `resolveHTTPSurfaceEnabled`
  unfoldable pub resolve_http_surface_enabled : Option Bool → String → Bool
  unfolding is_loopback_http_listen
  resolve_http_surface_enabled none http_listen = is_loopback_http_listen http_listen
  resolve_http_surface_enabled (some override) http_listen = override

  abbrev add_address : Result String → Map String (Unit {0}) → Map String (Unit {0})
  add_address (ok a) out = insert a tt out
  add_address (err e) out = out

  -- `candidateSelfAddresses`
  unfoldable pub candidate_self_addresses : MeshConfig → Map String (Unit {0})
  unfolding validate_tcp_address
  candidate_self_addresses cfg =
      let listening =
        if is_empty cfg.listen then [] else add_address (validate_tcp_address cfg.listen) [] in
      if not (is_empty (n.trim_space cfg.host)) && not (eqb_ℤ cfg.port (pos 0))
      then add_address
          (validate_tcp_address (n.join_host_port (n.trim_space cfg.host) (n.itoa cfg.port)))
          listening
      else listening

  -- The loop over the peers.
  unfoldable pub check_peers :
      List String → Map String (Unit {0}) → Map String (Unit {0}) → Result (Unit {0})
  unfolding validate_tcp_address
  check_peers [] seen self = ok tt
  check_peers (peer ∷ peers) seen self = do
    reject_if (is_empty (n.trim_space peer)) empty_peer
    addr ← validate_tcp_address (n.trim_space peer)
    reject_if (contains addr seen) duplicate_peer
    reject_if (contains addr self) self_peer
    check_peers peers (insert addr tt seen) self

  -- The loop over the addresses of the peers' APIs.
  unfoldable pub check_peer_api : Map String String → Map String (Unit {0}) → Result (Unit {0})
  unfolding validate_tcp_address
  check_peer_api [] self = ok tt
  check_peer_api ((mesh_addr, api_addr) ∷ api) self = do
    mesh ← validate_tcp_address (n.trim_space mesh_addr)
    shown ← validate_tcp_address (n.trim_space api_addr)
    reject_if (contains mesh self) self_peer
    check_peer_api api self

  unfoldable check_tls : ℕ → Option MeshTls → Result (Unit {0})
  unfolding validate_tls
  check_tls now none = ok tt
  check_tls now (some t) = validate_tls now t

  -- `validateMeshConfig`
  unfoldable pub validate_mesh_config : ℕ → MeshConfig → Result (Unit {0})
  unfolding resolve_http_surface_enabled candidate_self_addresses check_peers check_peer_api
      check_tls
  validate_mesh_config now cfg = do
    reject_if (is_empty cfg.node_id) missing_field
    reject_if (is_empty cfg.listen) missing_field
    reject_if (is_empty cfg.http_listen) missing_field
    mesh ← validate_tcp_address cfg.listen
    http ← validate_tcp_address cfg.http_listen
    reject_if (same_socket cfg.listen cfg.http_listen) same_address
    reject_if
        (not (is_loopback_http_listen cfg.http_listen)
          && (resolve_http_surface_enabled cfg.debug_endpoints_enabled cfg.http_listen
              || resolve_http_surface_enabled cfg.admin_endpoints_enabled cfg.http_listen))
        not_loopback
    check_tls now cfg.tls
    check_peers cfg.peers [] (candidate_self_addresses cfg)
    check_peer_api cfg.peer_api (candidate_self_addresses cfg)

  abbrev trim_tls : MeshTls → MeshTls
  trim_tls t = record t {
    cert_file = n.trim_space t.cert_file;
    key_file = n.trim_space t.key_file;
    ca_file = n.trim_space t.ca_file;
  }

  -- The trimmed fields.
  unfoldable pub trim_config : MeshConfig → MeshConfig
  trim_config cfg = record cfg {
    node_id = n.trim_space cfg.node_id;
    listen = n.trim_space cfg.listen;
    host = n.trim_space cfg.host;
    debug = n.trim_space cfg.debug;
    http_listen = n.trim_space cfg.http_listen;
    data_dir = n.trim_space cfg.data_dir;
    persist_dir = n.trim_space cfg.persist_dir;
    tls = elim cfg.tls [ none ↦ none | some t ↦ some (trim_tls t) ];
  }

  -- Either a listen address or a host with a port.
  unfoldable pub choose_listen : RawFields → MeshConfig → Result MeshConfig
  choose_listen raw cfg =
      let has_host = contains "host" raw && not (is_empty cfg.host) in
      let has_port = contains "port" raw && not (eqb_ℤ cfg.port (pos 0)) in
      if contains "listen" raw
      then (if has_host && has_port
          then err exclusive_listen
          else ok (record cfg { host = ""; port = pos 0 }))
      else (if (has_host && not has_port) || (has_port && not has_host)
          then err incomplete_host
          else ok cfg)

  -- The bind address of a host and a port.
  unfoldable pub bind_address : MeshConfig → MeshConfig
  bind_address cfg =
      if is_empty cfg.listen && not (is_empty cfg.host) && not (eqb_ℤ cfg.port (pos 0))
      then record cfg { listen = n.join_host_port cfg.host (n.itoa cfg.port) }
      else cfg

  -- `normalizeAndValidateMeshConfig`, which returns the changed configuration.
  unfoldable pub normalize_and_validate_mesh_config : ℕ → MeshConfig → RawFields → Result MeshConfig
  unfolding trim_config choose_listen bind_address validate_mesh_config
  normalize_and_validate_mesh_config now cfg raw = do
    chosen ← choose_listen raw (trim_config cfg)
    reject_if (not (is_empty chosen.debug)) legacy_debug
    validate_mesh_config now (bind_address chosen)
    ok (bind_address chosen)
