-- ===== src/Config/Startup.antt =====
-- What `normalizeBootstrapPeers` (internal/mesh/bootstrap.go) and `buildStartupPeerSet`
-- (internal/mesh/daemon_bridge.go) return.
use mathlib.Core.Path.{subst}
use blackchain_node.Prelude.{
  suc, String, str_eq_iff, true, false, List, [], ◌∷◌, ◌≡◌, ◌≢◌, refl, sym, ap, ◌∙◌, arith, All,
  length, Bool-cases, inl, inr,
}
use blackchain_node.Types.{ok, Result-cases}
use blackchain_node.Dict.{Map, insert, contains, string_Eq, contains-insert}
use blackchain_node.Merkle.{str_lt}
use blackchain_node.Merkle.Order.{str_lt_trans, str_lt_total}
use blackchain_node.Sync.{insert_text, sort_texts}
use blackchain_node.Config.{Net, validate_tcp_address, normalize_loop, normalize_bootstrap_peers}

-- Texts in increasing order, none of them twice.
abbrev pub IsIncreasing : List String → Type 0
IsIncreasing [] = Unit
IsIncreasing (s ∷ ts) = All (λ t. str_lt s t ≡ true) ts × IsIncreasing ts

-- No text twice.
abbrev AreApart : List String → Type 0
AreApart [] = Unit
AreApart (s ∷ ts) = All (λ t. s ≢ t) ts × AreApart ts

All-map :
    {P Q : String → Type 0} → ((s : String) → P s → Q s) → (ts : List String) → All P ts → All Q ts
All-map f [] h = tt
All-map f (t ∷ ts) h = (f t h.0, All-map f ts h.1)

All-insert :
    (P : String → Type 0) (s : String) (ts : List String)
    → P s
    → All P ts
    → All P (insert_text s ts)
unfolding insert_text
All-insert P s [] h k = (h, tt)
All-insert P s (t ∷ ts) h k = elim (Bool-cases (str_lt t s)) [
  | inl below ↦ rw below (k.0, All-insert P s ts h k.1)
  | inr above ↦ rw above (h, k)
]

insert-IsIncreasing :
    (s : String) (ts : List String)
    → All (λ t. s ≢ t) ts
    → IsIncreasing ts
    → IsIncreasing (insert_text s ts)
unfolding insert_text
insert-IsIncreasing s [] h k = (tt, tt)
insert-IsIncreasing s (t ∷ ts) h k = elim (Bool-cases (str_lt t s)) [
  | inl below ↦
      rw below
        (All-insert (λ u. str_lt t u ≡ true) s ts below k.0, insert-IsIncreasing s ts h.1 k.1)
  | inr above ↦
      let low : str_lt s t ≡ true = str_lt_total t s (λ e. h.0 (sym e)) above in
      rw above ((low, All-map (λ u g. str_lt_trans s t u low g) ts k.0), k)
]

All-sort : (P : String → Type 0) (ts : List String) → All P ts → All P (sort_texts ts)
unfolding sort_texts
All-sort P [] h = tt
All-sort P (t ∷ ts) h = All-insert P t (sort_texts ts) h.0 (All-sort P ts h.1)

sort-IsIncreasing : (ts : List String) → AreApart ts → IsIncreasing (sort_texts ts)
unfolding sort_texts
sort-IsIncreasing [] h = tt
sort-IsIncreasing (t ∷ ts) h =
    insert-IsIncreasing t (sort_texts ts) (All-sort (λ u. t ≢ u) ts h.0) (sort-IsIncreasing ts h.1)

length-insert_text : (s : String) (ts : List String) → length (insert_text s ts) ≡ suc (length ts)
unfolding insert_text
length-insert_text s [] = refl
length-insert_text s (t ∷ ts) = elim (Bool-cases (str_lt t s)) [
  | inl below ↦ rw below (ap suc (length-insert_text s ts))
  | inr above ↦ rw above refl
]

length-sort_texts : (ts : List String) → length (sort_texts ts) ≡ length ts
unfolding sort_texts
length-sort_texts [] = refl
length-sort_texts (t ∷ ts) = length-insert_text t (sort_texts ts) ∙ ap suc (length-sort_texts ts)

module _ ⦃n : Net⦄ where
  -- An address that `validateTCPAddress` returns, and that is not one of these.
  abbrev pub IsForeign : Map String (Unit {0}) → String → Type 0
  IsForeign self a = ((s : String) × (validate_tcp_address s ≡ ok a)) × (contains a self ≡ false)

  record IsNormal (peers : List String) (seen self : Map String (Unit {0})) (out : List String)
      : Type 0 where
    pub foreign : All (IsForeign self) out
    pub unseen : All (λ a. contains a seen ≡ false) out
    pub apart : AreApart out
    pub same_length : length out ≡ length peers

  normalize_cons :
      (peer : String) (peers : List String) (seen self : Map String (Unit {0})) (out : List String)
      → normalize_loop (peer ∷ peers) seen self ≡ ok out
      → (a : String) × (rest : List String) × (validate_tcp_address (n.trim_space peer) ≡ ok a)
        × (contains a seen ≡ false)
        × (contains a self ≡ false)
        × (normalize_loop peers (insert a tt seen) self ≡ ok rest)
        × (out ≡ a ∷ rest)
  unfolding normalize_loop
  normalize_cons peer peers seen self out h =
      elim (Result-cases (validate_tcp_address (n.trim_space peer))) [
        | inr (e, bad) ↦ absurd (ground (arith, h, bad))
        | inl (a, good) ↦ elim (Result-cases (normalize_loop peers (insert a tt seen) self)) [
          | inr (e, bad) ↦ absurd (ground (arith, h, good, bad))
          | inl (rest, run) ↦ (
            a,
            rest,
            good,
            ground (arith, h, good, run),
            ground (arith, h, good, run),
            run,
            ground (arith, h, good, run),
          )
        ]
      ]

  -- What was not seen with `a` differs from `a` and was not seen before it.
  unseen_before :
      (a b : String) (seen : Map String (Unit {0}))
      → contains b (insert a tt seen) ≡ false
      → (a ≢ b) × (contains b seen ≡ false)
  unseen_before a b seen h = (
    λ e. absurd (ground (arith, h, contains-insert a b tt seen, str_eq_iff a b, e)),
    ground (arith, h, contains-insert a b tt seen),
  )

  normalize_loop-IsNormal :
      (peers : List String) (seen self : Map String (Unit {0})) (out : List String)
      → normalize_loop peers seen self ≡ ok out
      → IsNormal peers seen self out
  unfolding normalize_loop
  normalize_loop-IsNormal [] seen self out h =
      let e : [] ≡ out = ground (arith, h) in
      subst (IsNormal [] seen self) e
        record { foreign = tt; unseen = tt; apart = tt; same_length = refl }
  normalize_loop-IsNormal (peer ∷ peers) seen self out h =
      let (a, rest, valid, new, other, run, e) = normalize_cons peer peers seen self out h in
      let normal = normalize_loop-IsNormal peers (insert a tt seen) self rest run in
      subst (IsNormal (peer ∷ peers) seen self) (sym e) record {
        foreign = (((n.trim_space peer, valid), other), normal.foreign);
        unseen = (new, All-map (λ b u. (unseen_before a b seen u).1) rest normal.unseen);
        apart = (All-map (λ b u. (unseen_before a b seen u).0) rest normal.unseen, normal.apart);
        same_length = ap suc normal.same_length;
      }

  -- The peers that `normalizeBootstrapPeers` accepts are as many as were configured, in increasing
  -- order without a duplicate, each an address that `validateTCPAddress` returns, and none of them an
  -- address of the node itself.
  pub normalize_bootstrap_peers_sound :
      (peers : List String) (self : Map String (Unit {0})) (out : List String)
      → normalize_bootstrap_peers peers self ≡ ok out
      → (length out ≡ length peers) × IsIncreasing out × All (IsForeign self) out
  unfolding normalize_bootstrap_peers
  normalize_bootstrap_peers_sound peers self out h =
      elim (Result-cases (normalize_loop peers [] self)) [
        | inr (e, bad) ↦ absurd (ground (arith, h, bad))
        | inl (addrs, run) ↦
            let normal = normalize_loop-IsNormal peers [] self addrs run in
            let e : sort_texts addrs ≡ out = ground (arith, h, run) in
            subst
              (λ (o : List String).
                (length o ≡ length peers) × IsIncreasing o × All (IsForeign self) o)
              e
              (
                length-sort_texts addrs ∙ normal.same_length,
                sort-IsIncreasing addrs normal.apart,
                All-sort (IsForeign self) addrs normal.foreign,
              )
      ]
