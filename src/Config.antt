-- ===== src/Config.antt =====
-- Network addresses of the configuration (internal/mesh/config.go) and the peers that a node starts with
-- (internal/mesh/bootstrap.go, buildStartupPeerSet of internal/mesh/daemon_bridge.go). The net and
-- strconv packages are parameters.
use blackchain_node.Prelude.{
  ℕ, zero, suc, String, str_eq, Bool, true, false, not, ◌&&◌, ◌||◌, Option, none, some, List, [],
  ◌∷◌, ℤ, pos, ltb_ℤ, leb, any, ◌==◌, if◌then◌else◌,
}
use blackchain_node.Types.{
  Error, Result, ok, err, ◌>>=◌, ◌>>◌, reject_if, invalid_address, missing_port, bad_port,
  invalid_host, wildcard_bind, empty_peer, duplicate_peer, self_peer,
}
use blackchain_node.Signing.{is_empty}
use blackchain_node.Dict.{Map, insert, contains, string_Eq}
use blackchain_node.Sync.{sort_texts}
pub mod Startup
pub mod Mesh
pub mod Address
pub mod Safety

-- What the code uses of net, strconv and strings.
pub record Net : Type 0 where
  pub trim_space : String → String
  pub split_host_port : String → Option (String × String)
  pub join_host_port : String → String → String
  pub atoi : String → Option ℤ
  pub itoa : ℤ → String
  -- whether `net.ParseIP` returns an address
  pub is_ip : String → Bool
  -- `strings.Split(host, ".")`, each label as its runes
  pub labels : String → List (List ℕ)

abbrev split_or_fail : Option (String × String) → Result (String × String)
split_or_fail none = err invalid_address
split_or_fail (some hp) = ok hp

-- `p < 1 || p > 65535`, after `strconv.Atoi`
abbrev port_number : Option ℤ → Result ℤ
port_number none = err bad_port
port_number (some n) = if ltb_ℤ n (pos 1) || ltb_ℤ (pos 65535) n then err bad_port else ok n

-- `-` is 45.
abbrev is_alpha_num : ℕ → Bool
is_alpha_num r = (leb 97 r && leb r 122) || (leb 65 r && leb r 90) || (leb 48 r && leb r 57)

-- The runes of a label from `i` on, where `first` says that `i` is 0.
abbrev valid_runes : Bool → List ℕ → Bool
valid_runes first [] = true
valid_runes first (r ∷ []) = is_alpha_num r
valid_runes first (r ∷ q ∷ rest) =
    (is_alpha_num r || (r == 45 && not first)) && valid_runes false (q ∷ rest)

abbrev valid_label : List ℕ → Bool
valid_label [] = false
valid_label (r ∷ rest) = valid_runes true (r ∷ rest)

abbrev is_wildcard : String → Bool
is_wildcard host = is_empty host || str_eq host "0.0.0.0" || str_eq host "::" || str_eq host "[::]"

module _ ⦃n : Net⦄ where
  -- `isValidHostname`
  unfoldable pub is_valid_hostname : String → Bool
  is_valid_hostname host = is_empty host || not (any (λ l. not (valid_label l)) (n.labels host))

  -- `validateTCPAddress`
  unfoldable pub validate_tcp_address : String → Result String
  unfolding is_valid_hostname
  validate_tcp_address addr = do
    hp ← split_or_fail (n.split_host_port (n.trim_space addr))
    reject_if (is_empty hp.1) missing_port
    port ← port_number (n.atoi hp.1)
    reject_if (not (is_empty hp.0) && not (n.is_ip hp.0) && not (is_valid_hostname hp.0))
        invalid_host
    ok (n.join_host_port hp.0 (n.itoa port))

  -- `validateNonWildcardListen`
  unfoldable pub validate_non_wildcard_listen : String → Result (Unit {0})
  validate_non_wildcard_listen addr = do
    hp ← split_or_fail (n.split_host_port (n.trim_space addr))
    reject_if (is_wildcard (n.trim_space hp.0)) wildcard_bind

  abbrev equal_results : Result String → Result String → Bool
  equal_results (ok a) (ok b) = str_eq a b
  equal_results _ _ = false

  -- `sameSocket`
  unfoldable pub same_socket : String → String → Bool
  unfolding validate_tcp_address
  same_socket a b = equal_results (validate_tcp_address a) (validate_tcp_address b)

  -- The loop of `normalizeBootstrapPeers`.
  unfoldable pub normalize_loop :
      List String → Map String (Unit {0}) → Map String (Unit {0}) → Result (List String)
  unfolding validate_tcp_address
  normalize_loop [] seen self = ok []
  normalize_loop (peer ∷ peers) seen self = do
    reject_if (is_empty (n.trim_space peer)) empty_peer
    addr ← validate_tcp_address (n.trim_space peer)
    reject_if (contains addr seen) duplicate_peer
    reject_if (contains addr self) self_peer
    rest ← normalize_loop peers (insert addr tt seen) self
    ok (addr ∷ rest)

  -- `normalizeBootstrapPeers`. The addresses differ, so every sort gives this list. An empty `self` stands for a nil map too.
  unfoldable pub normalize_bootstrap_peers :
      List String → Map String (Unit {0}) → Result (List String)
  unfolding normalize_loop sort_texts
  normalize_bootstrap_peers peers self = do
    addrs ← normalize_loop peers [] self
    ok (sort_texts addrs)

  -- The inner loop of `buildStartupPeerSet`.
  unfoldable pub add_startup_peers :
      List String → Map String (Unit {0}) → Result (Map String (Unit {0}))
  unfolding validate_tcp_address
  add_startup_peers [] peer_set = ok peer_set
  add_startup_peers (peer ∷ peers) peer_set =
      if is_empty (n.trim_space peer) then add_startup_peers peers peer_set else (do
        addr ← validate_tcp_address (n.trim_space peer)
        add_startup_peers peers (insert addr tt peer_set))

  -- `buildStartupPeerSet`
  unfoldable pub build_startup_peer_set : List String → List String → Result (Map String (Unit {0}))
  unfolding add_startup_peers
  build_startup_peer_set config_peers bootstrap_peers = do
    peer_set ← add_startup_peers config_peers []
    add_startup_peers bootstrap_peers peer_set
