-- ===== src/Gossip/Forward.antt =====
-- Which messages a node sends on (`gossipForward` and the other senders of internal/mesh/gossip.go).
use native.Mathlib.Decide.{dec_le}
use mathlib.Core.List.{append-nil}
use blackchain_node.Prelude.{
  ℕ, ◌-◌, ◌≤◌, ◌<◌, ◌^◌, String, str_eq, str_eq_iff, true, false, not, ◌&&◌, ◌||◌, List, [], ◌∷◌,
  ◌++◌, ◌≡◌, ◌≢◌, refl, arith, pos, sub64, leb_ℤ, ◌-ℤ◌, length, All, Bool-cases, inl, inr, sym, ap,
  ◌∙◌,
}
use blackchain_node.Platform.{Platform}
use blackchain_node.Signing.{is_empty}
use blackchain_node.Gossip.{WireMessage, Mesh, Remote, fan_out, gossip_forward}

spent_at : (n : ℕ) → n ≤ 1 → leb_ℤ (sub64 (pos n) (pos 1)) (pos 0) ≡ true
unfolding sub64 ◌-ℤ◌
spent_at n h = ground arith

less_at : (n : ℕ) → n < 2 ^ 63 → 2 ≤ n → sub64 (pos n) (pos 1) ≡ pos (n - 1)
unfolding sub64 ◌-ℤ◌
less_at n h k = ground arith

module _ ⦃p : Platform⦄ ⦃r : Remote⦄ where
  -- A copy of a message that goes to another node than the sender and the one it came from.
  pub record IsCopy (self skip : String) (wm out : WireMessage) : Type 0 where
    pub same : out ≡ record wm { to = out.to }
    pub named : is_empty out.to ≡ false
    pub other : out.to ≢ self
    pub onward : is_empty skip ≡ false → out.to ≢ skip

  pub fan_out-IsCopy :
      (self skip : String) (wm : WireMessage) (peers : List String)
      → All (IsCopy self skip wm) (fan_out self wm peers skip)
  unfolding fan_out
  fan_out-IsCopy self skip wm [] = tt
  fan_out-IsCopy self skip wm (peer ∷ peers) =
      let addr = p.trim_space peer in
      elim (Bool-cases
        (is_empty addr || str_eq addr self || (not (is_empty skip) && str_eq addr skip))) [
          | inl left_out ↦ rw (fan_out, left_out) (fan_out-IsCopy self skip wm peers)
          | inr sent ↦
              rw (fan_out, sent)
                (
                  record {
                    same = refl;
                    named = ground arith;
                    other = λ e. ground (arith, str_eq_iff addr self);
                    onward = λ k e. ground (arith, str_eq_iff addr skip);
                  },
                  fan_out-IsCopy self skip wm peers,
                )
        ]

  pub length-fan_out_le :
      (self skip : String) (wm : WireMessage) (peers : List String)
      → length (fan_out self wm peers skip) ≤ length peers
  unfolding fan_out
  length-fan_out_le self skip wm [] = omega arith
  length-fan_out_le self skip wm (peer ∷ peers) =
      ground (arith, length-fan_out_le self skip wm peers)

  forward_last :
      (wm : WireMessage) (m : Mesh) (n : ℕ)
      → wm.ttl ≡ pos n
      → n ≤ 1
      → gossip_forward wm m ≡ record m { sent = m.sent ++ [] }
  unfolding gossip_forward
  forward_last wm m n e last =
      let spent : leb_ℤ (sub64 wm.ttl (pos 1)) (pos 0) ≡ true =
        ap (λ z. leb_ℤ (sub64 z (pos 1)) (pos 0)) e ∙ spent_at n last in
      rw spent (ap (λ l. record m { sent = l }) (sym (append-nil m.sent)))

  forward_more :
      (wm : WireMessage) (m : Mesh) (n : ℕ)
      → wm.ttl ≡ pos n
      → n < 2 ^ 63
      → 2 ≤ n
      → gossip_forward wm m ≡ record m {
        sent =
            m.sent
            ++ fan_out m.id
                (record wm { ttl = pos (n - 1); via = m.id })
                m.bootstrap_peers
                (p.trim_space wm.via);
      }
  unfolding gossip_forward
  forward_more wm m n e small more =
      let less : sub64 wm.ttl (pos 1) ≡ pos (n - 1) =
        ap (λ z. sub64 z (pos 1)) e ∙ less_at n small more in
      let live : leb_ℤ (sub64 wm.ttl (pos 1)) (pos 0) ≡ false =
        ap (λ z. leb_ℤ z (pos 0)) less ∙ ground arith in
      rw live (
        ap
          (λ z. record m {
            sent =
                m.sent
                ++ fan_out m.id (record wm { ttl = z; via = m.id }) m.bootstrap_peers
                    (p.trim_space wm.via);
          })
          less)

  -- `gossipForward` sends nothing on of a message whose hops are used up. Of any other it sends one
  -- hop less, to at most as many nodes as are configured, which are neither this node nor the one
  -- that the message came from, with the same id, origin and body.
  pub gossip_forward_lem :
      (wm : WireMessage) (m : Mesh) (n : ℕ)
      → wm.ttl ≡ pos n
      → n < 2 ^ 63
      → (out : List WireMessage) × (gossip_forward wm m ≡ record m { sent = m.sent ++ out })
        × All (IsCopy m.id (p.trim_space wm.via) (record wm { ttl = pos (n - 1); via = m.id })) out
        × (length out ≤ length m.bootstrap_peers)
        × (n ≤ 1 → out ≡ [])
  gossip_forward_lem wm m n e small = elim (dec_le n 1) [
    | yes last ↦ ([], forward_last wm m n e last, tt, omega arith, λ k. refl)
    | no more ↦
        let wm' = record wm { ttl = pos (n - 1); via = m.id } in
        let skip = p.trim_space wm.via in
        (
          fan_out m.id wm' m.bootstrap_peers skip,
          forward_more wm m n e small (omega arith),
          fan_out-IsCopy m.id skip wm' m.bootstrap_peers,
          length-fan_out_le m.id skip wm' m.bootstrap_peers,
          λ k. absurd (omega arith),
        )
  ]
