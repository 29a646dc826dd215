-- ===== src/Config/Safety.antt =====
-- What `normalizeAndValidateMeshConfig` (internal/mesh/config.go) guarantees of a configuration that it accepts.
use mathlib.Core.Path.{subst}
use blackchain_node.Prelude.{
  ℕ, String, str_eq, str_eq_iff, true, false, Bool, Option, some, List, ap, refl, ◌⊎◌,
  if◌then◌else◌, [], ◌∷◌, ◌≡◌, ◌≢◌, arith, All, inl, inr,
}
use blackchain_node.Types.{ok, Result-cases}
use blackchain_node.Signing.{is_empty}
use blackchain_node.Dict.{Map, insert, contains, string_Eq, contains-insert}
use blackchain_node.Config.{Net, validate_tcp_address, same_socket}
use blackchain_node.Config.Address.{
  IsAddress, validate_tcp_address_sound, IsLocal, is_loopback_http_listen-IsLocal,
}
use blackchain_node.Config.Mesh.{
  Files, MeshConfig, RawFields, resolve_http_surface_enabled, candidate_self_addresses, check_peers,
  validate_mesh_config, trim_config, choose_listen, bind_address,
  normalize_and_validate_mesh_config,
}

module _ ⦃n : Net⦄ ⦃f : Files⦄ where
  -- A peer with a valid address that is none of these.
  abbrev IsUnlisted : Map String (Unit {0}) → String → Type 0
  IsUnlisted self peer =
      (a : String) × (validate_tcp_address (n.trim_space peer) ≡ ok a) × (contains a self ≡ false)

  check_peers-IsUnlisted :
      (peers : List String) (seen self : Map String (Unit {0}))
      → check_peers peers seen self ≡ ok tt
      → All (IsUnlisted self) peers
  unfolding check_peers
  check_peers-IsUnlisted [] seen self h = tt
  check_peers-IsUnlisted (peer ∷ peers) seen self h =
      elim (Result-cases (validate_tcp_address (n.trim_space peer))) [
        | inr (e, bad) ↦ absurd (ground (arith, h, bad))
        | inl (a, good) ↦ (
          (a, good, ground (arith, h, good)),
          check_peers-IsUnlisted peers (insert a tt seen) self (ground (arith, h, good)),
        )
      ]

  contains-add :
      (a b : String) (m : Map String (Unit {0}))
      → contains a (insert b tt m) ≡ (if str_eq b a then true else contains a m)
  contains-add a b m = contains-insert b a tt m

  -- The address that the mesh listens at is among the node's own.
  own_address :
      (cfg : MeshConfig) (a : String)
      → is_empty cfg.listen ≡ false
      → validate_tcp_address cfg.listen ≡ ok a
      → contains a (candidate_self_addresses cfg) ≡ true
  unfolding candidate_self_addresses
  own_address cfg a full mesh =
      let given = n.join_host_port (n.trim_space cfg.host) (n.itoa cfg.port) in
      elim (Result-cases (validate_tcp_address given)) [
        | inr (e, bad) ↦ ground (arith, full, mesh, bad, contains-add a a [], str_eq_iff a a)
        | inl (b, good) ↦ ground (
          arith,
          full,
          mesh,
          good,
          contains-add a a [],
          contains-add a b (insert a tt []),
          str_eq_iff a a,
        )
      ]

  -- A peer with a valid address, which is not this one.
  pub record IsOther (mesh peer : String) : Type 0 where
    pub address : String
    pub valid : IsAddress (n.trim_space peer) address
    pub other : address ≢ mesh

  unlisted-IsOther :
      (mesh : String) (self : Map String (Unit {0})) (peers : List String)
      → contains mesh self ≡ true
      → All (IsUnlisted self) peers
      → All (IsOther mesh) peers
  unlisted-IsOther mesh self [] own h = tt
  unlisted-IsOther mesh self (peer ∷ peers) own h =
      let (a, valid, new) = h.0 in
      (
        record {
          address = a;
          valid = validate_tcp_address_sound (n.trim_space peer) a valid;
          other = λ e. absurd (ground (arith, new, own, ap (λ x. contains x self) e));
        },
        unlisted-IsOther mesh self peers own h.1,
      )

  -- A configuration that a node may run with: the mesh and the HTTP server listen at two different
  -- addresses, debug and admin endpoints are open on the loopback alone, and no peer has the address
  -- that the mesh listens at.
  pub record IsSafe (cfg : MeshConfig) : Type 0 where
    pub mesh : String
    pub http : String
    pub mesh_at : IsAddress cfg.listen mesh
    pub http_at : IsAddress cfg.http_listen http
    pub apart : mesh ≢ http
    pub named : cfg.node_id ≢ ""
    pub debug_local :
        (cfg.debug_endpoints_enabled ≡ some true)
          ⊎ (resolve_http_surface_enabled cfg.debug_endpoints_enabled cfg.http_listen ≡ true)
        → IsLocal cfg.http_listen
    pub admin_local :
        (cfg.admin_endpoints_enabled ≡ some true)
          ⊎ (resolve_http_surface_enabled cfg.admin_endpoints_enabled cfg.http_listen ≡ true)
        → IsLocal cfg.http_listen
    pub others : All (IsOther mesh) cfg.peers

  resolved :
      (given : Option Bool) (http : String)
      → (given ≡ some true) ⊎ (resolve_http_surface_enabled given http ≡ true)
      → resolve_http_surface_enabled given http ≡ true
  unfolding resolve_http_surface_enabled
  resolved given http (inl set) = rw set refl
  resolved given http (inr on) = on

  same_socket-false :
      (s t a b : String)
      → validate_tcp_address s ≡ ok a
      → validate_tcp_address t ≡ ok b
      → same_socket s t ≡ false
      → a ≢ b
  unfolding same_socket
  same_socket-false s t a b h k apart e =
      let same : str_eq a b ≡ false = ground (arith, h, k, apart) in
      absurd (ground (arith, same, str_eq_iff a b, e))

  validate_mesh_config-IsSafe :
      (now : ℕ) (cfg : MeshConfig) → validate_mesh_config now cfg ≡ ok tt → IsSafe cfg
  unfolding validate_mesh_config
  validate_mesh_config-IsSafe now cfg h = elim (Result-cases (validate_tcp_address cfg.listen)) [
    | inr (e, bad) ↦ absurd (ground (arith, h, bad))
    | inl (a, mesh) ↦ elim (Result-cases (validate_tcp_address cfg.http_listen)) [
      | inr (e, bad) ↦ absurd (ground (arith, h, mesh, bad))
      | inl (b, http) ↦
          let full : is_empty cfg.listen ≡ false = ground (arith, h) in
          let differ : same_socket cfg.listen cfg.http_listen ≡ false =
            ground (arith, h, mesh, http) in
          let checked : check_peers cfg.peers [] (candidate_self_addresses cfg) ≡ ok tt =
            ground (arith, h, mesh, http) in
          record {
            mesh = a;
            http = b;
            mesh_at = validate_tcp_address_sound cfg.listen a mesh;
            http_at = validate_tcp_address_sound cfg.http_listen b http;
            apart = same_socket-false cfg.listen cfg.http_listen a b mesh http differ;
            named = λ e. absurd (ground (arith, h, str_eq_iff cfg.node_id "", e));
            debug_local = λ given.
                let on = resolved cfg.debug_endpoints_enabled cfg.http_listen given in
                is_loopback_http_listen-IsLocal cfg.http_listen (ground (arith, h, mesh, http, on));
            admin_local = λ given.
                let on = resolved cfg.admin_endpoints_enabled cfg.http_listen given in
                is_loopback_http_listen-IsLocal cfg.http_listen (ground (arith, h, mesh, http, on));
            others =
                unlisted-IsOther a (candidate_self_addresses cfg) cfg.peers
                  (own_address cfg a full mesh)
                  (check_peers-IsUnlisted cfg.peers [] (candidate_self_addresses cfg) checked);
          }
    ]
  ]

  -- A configuration that `normalizeAndValidateMeshConfig` accepts has a node id, listens for the mesh and
  -- for HTTP at two addresses that differ, each with a port from 1 to 65535, opens the debug and admin
  -- endpoints only where the host of the HTTP address is localhost or an IP address of the loopback,
  -- and lists only peers with such addresses, none of them the text of the mesh address.
  pub normalize_and_validate_mesh_config_sound :
      (now : ℕ) (cfg out : MeshConfig) (raw : RawFields)
      → normalize_and_validate_mesh_config now cfg raw ≡ ok out
      → IsSafe out
  unfolding normalize_and_validate_mesh_config
  normalize_and_validate_mesh_config_sound now cfg out raw h =
      elim (Result-cases (choose_listen raw (trim_config cfg))) [
        | inr (e, bad) ↦ absurd (ground (arith, h, bad))
        | inl (chosen, good) ↦
            elim (Result-cases (validate_mesh_config now (bind_address chosen))) [
              | inr (e, bad) ↦ absurd (ground (arith, h, good, bad))
              | inl (tt, valid) ↦
                  let same : bind_address chosen ≡ out = ground (arith, h, good, valid) in
                  subst IsSafe same (validate_mesh_config-IsSafe now (bind_address chosen) valid)
            ]
      ]
