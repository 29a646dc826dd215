-- ===== src/Config/Address.antt =====
-- What an address that `validateTCPAddress` (internal/mesh/config.go) returns stands for, and which HTTP
-- addresses are on the loopback (internal/mesh/daemon_bridge.go).
use blackchain_node.Prelude.{
  String, str_eq, str_eq_iff, true, false, not, ◌&&◌, some, ◌≡◌, ◌⊎◌, inl, inr, arith, ℤ, pos, ◌≤ℤ◌,
  Bool-cases, Option-cases,
}
use blackchain_node.Types.{ok}
use blackchain_node.Signing.{is_empty}
use blackchain_node.Config.{Net, is_valid_hostname, validate_tcp_address}
use blackchain_node.Config.Mesh.{Files, is_loopback_http_listen}

module _ ⦃n : Net⦄ where
  -- The address `a` is that of the text `s`: a host, which is empty, an IP address or a host name, and a
  -- port from 1 to 65535.
  pub record IsAddress (s a : String) : Type 0 where
    pub host : String
    pub port : String
    pub number : ℤ
    pub parts : n.split_host_port (n.trim_space s) ≡ some (host, port)
    pub parsed : n.atoi port ≡ some number
    pub low : pos 1 ≤ℤ number
    pub high : number ≤ℤ pos 65535
    pub named : (host ≡ "") ⊎ ((n.is_ip host ≡ true) ⊎ (is_valid_hostname host ≡ true))
    pub joined : a ≡ n.join_host_port host (n.itoa number)

  named_host :
      (h : String)
      → (not (is_empty h) && not (n.is_ip h) && not (is_valid_hostname h)) ≡ false
      → (h ≡ "") ⊎ ((n.is_ip h ≡ true) ⊎ (is_valid_hostname h ≡ true))
  named_host h e = elim (Bool-cases (is_empty h)) [
    | inl empty ↦ inl ((str_eq_iff h "").0 empty)
    | inr full ↦ elim (Bool-cases (n.is_ip h)) [
      | inl ip ↦ inr (inl ip)
      | inr name ↦ inr (inr (ground (arith, e, full, name)))
    ]
  ]

  pub validate_tcp_address_sound : (s a : String) → validate_tcp_address s ≡ ok a → IsAddress s a
  unfolding validate_tcp_address
  validate_tcp_address_sound s a h = elim (Option-cases (n.split_host_port (n.trim_space s))) [
    | inl bad ↦ absurd (ground (arith, h, bad))
    | inr (hp, split) ↦ elim (Option-cases (n.atoi hp.1)) [
      | inl bad ↦ absurd (ground (arith, h, split, bad))
      | inr (k, number) ↦ record {
        host = hp.0;
        port = hp.1;
        number = k;
        parts = split;
        parsed = number;
        low = ground (arith, h, split, number);
        high = ground (arith, h, split, number);
        named = named_host hp.0 (ground (arith, h, split, number));
        joined = ground (arith, h, split, number);
      }
    ]
  ]

module _ ⦃n : Net⦄ ⦃f : Files⦄ where
  -- The host of an address is localhost or an IP address of the loopback.
  pub record IsLocal (s : String) : Type 0 where
    pub host : String
    pub port : String
    pub parts : n.split_host_port (n.trim_space s) ≡ some (host, port)
    pub local :
        (n.trim_space host ≡ "localhost")
        ⊎ ((n.is_ip (n.trim_space host) ≡ true) × (f.is_loopback (n.trim_space host) ≡ true))

  pub is_loopback_http_listen-IsLocal : (s : String) → is_loopback_http_listen s ≡ true → IsLocal s
  unfolding is_loopback_http_listen
  is_loopback_http_listen-IsLocal s h = elim (Option-cases (n.split_host_port (n.trim_space s))) [
    | inl bad ↦ absurd (ground (arith, h, bad))
    | inr (hp, split) ↦ record {
      host = hp.0;
      port = hp.1;
      parts = split;
      local = elim (Bool-cases (str_eq (n.trim_space hp.0) "localhost")) [
        | inl same ↦ inl ((str_eq_iff (n.trim_space hp.0) "localhost").0 same)
        | inr other ↦ inr (ground (arith, h, split, other), ground (arith, h, split, other))
      ];
    }
  ]
