-- ===== src/RateLimit/Caps.antt =====
-- The buckets of internal/mesh/http_ratelimit.go: they never hold more than the burst, and every request
-- that is let through has paid out of its client's.
use blackchain_node.Prelude.{
  ℕ, ◌+◌, ◌-◌, ◌≤◌, ◌<◌, ◌≢◌, ap, ◌∙◌, Bool, not, Option, none, some, if◌then◌else◌, String, str_eq,
  true, false, [], ◌∷◌, ◌≡◌, refl, arith, pos, ltb, Bool-cases, inl, inr,
}
use blackchain_node.Dict.{Map, lookup, insert, string_Eq, lookup-insert_self, lookup-insert_ne}
use blackchain_node.RateLimit.{
  bucket_ttl, Float, RateConfig, is_enabled, Bucket, Limiter, collect, bucket_of, refill, allow,
}

-- The middleware is on exactly if the setting says so, whatever the other two settings are.
pub is_enabled_lem : (cfg : RateConfig) → is_enabled cfg ≡ cfg.enabled
unfolding is_enabled
is_enabled_lem cfg = ground arith

-- What the limiter relies on: no number is below itself, and a positive amount less is not more.
pub record FloatLaws (f : Float) : Type 0 where
  pub irreflexive : (x : f.F) → f.lt x x ≡ false
  pub lower :
      (x y z : f.F)
      → f.lt x y ≡ false
      → f.lt (f.of_int (pos 0)) z ≡ true
      → f.lt x (f.sub y z) ≡ false

module _ ⦃f : Float⦄ where
  abbrev IsUnder : f.F → Bucket → Type 0
  IsUnder burst b = f.lt burst b.tokens ≡ false

  -- No bucket holds more than the burst.
  abbrev pub AreCapped : f.F → Map String Bucket → Type 0
  AreCapped burst [] = Unit
  AreCapped burst ((ip, b) ∷ buckets) = IsUnder burst b × AreCapped burst buckets

  collect-AreCapped :
      (burst : f.F) (now : ℕ) (m : Map String Bucket)
      → AreCapped burst m
      → AreCapped burst (collect now m)
  unfolding collect
  collect-AreCapped burst now [] h = tt
  collect-AreCapped burst now ((ip, b) ∷ m) h = elim (Bool-cases (ltb (b.seen + bucket_ttl) now)) [
    | inl old ↦ rw (collect, old) (collect-AreCapped burst now m h.1)
    | inr fresh ↦ rw (collect, fresh) (h.0, collect-AreCapped burst now m h.1)
  ]

  insert-AreCapped :
      (burst : f.F) (ip : String) (b : Bucket) (m : Map String Bucket)
      → IsUnder burst b
      → AreCapped burst m
      → AreCapped burst (insert ip b m)
  unfolding insert
  insert-AreCapped burst ip b [] k h = (k, tt)
  insert-AreCapped burst ip b ((j, c) ∷ m) k h = elim (Bool-cases (str_eq j ip)) [
    | inl same ↦ rw (insert, same) (k, h.1)
    | inr other ↦ rw (insert, other) (h.0, insert-AreCapped burst ip b m k h.1)
  ]

  lookup-IsUnder :
      (burst : f.F) (now : ℕ) (ip : String) (m : Map String Bucket)
      → FloatLaws f
      → AreCapped burst m
      → IsUnder burst (bucket_of now burst (lookup ip m))
  unfolding lookup
  lookup-IsUnder burst now ip [] laws h = laws.irreflexive burst
  lookup-IsUnder burst now ip ((j, c) ∷ m) laws h = elim (Bool-cases (str_eq j ip)) [
    | inl same ↦ rw same h.0
    | inr other ↦ rw other (lookup-IsUnder burst now ip m laws h.1)
  ]

  refill-IsUnder :
      (now : ℕ) (rl : Limiter) (b : Bucket)
      → FloatLaws f
      → IsUnder rl.burst b
      → IsUnder rl.burst (refill now rl b)
  unfolding refill
  refill-IsUnder now rl b laws h = ground (arith, laws.irreflexive rl.burst)

  -- What a client holds before it pays: the burst where it is new; where it was seen within ten minutes,
  -- what it held, and for the time that has passed the rate more, up to the burst.
  pub record Holds (now : ℕ) (ip : String) (rl : Limiter) (h : Bucket) : Type 0 where
    pub newcomer :
        lookup ip rl.bucket ≡ none → h ≡ record { tokens = rl.burst; last = now; seen = now }
    pub unchanged :
        (b : Bucket)
        → lookup ip rl.bucket ≡ some b
        → now ≤ b.seen + 600_000_000_000
        → now ≤ b.last
        → h ≡ record { tokens = b.tokens; last = b.last; seen = now }
    pub refilled :
        (b : Bucket)
        → lookup ip rl.bucket ≡ some b
        → now ≤ b.seen + 600_000_000_000
        → b.last < now
        → let full = f.add b.tokens (f.mul (f.seconds (now - b.last)) rl.rps) in
          h ≡ record {
            tokens = if f.lt rl.burst full then rl.burst else full;
            last = now;
            seen = now;
          }

  -- The client has paid its cost if that was held and the request was let through, and no other
  -- client that was seen within ten minutes has lost or gained.
  pub record IsCharged (now : ℕ) (ip : String) (cost : f.F) (allowed : Bool) (rl rl' : Limiter)
      : Type 0 where
    pub held : Bucket
    pub holds : Holds now ip rl held
    pub decided : allowed ≡ not (f.lt held.tokens cost)
    pub left :
        lookup ip rl'.bucket
        ≡ some (if allowed then record held { tokens = f.sub held.tokens cost } else held)
    pub others :
        (j : String) (b : Bucket)
        → ip ≢ j
        → lookup j rl.bucket ≡ some b
        → now ≤ b.seen + 600_000_000_000
        → lookup j rl'.bucket ≡ some b

  collect-fresh :
      (now : ℕ) (ip : String) (m : Map String Bucket) (b : Bucket)
      → lookup ip m ≡ some b
      → now ≤ b.seen + bucket_ttl
      → lookup ip (collect now m) ≡ some b
  unfolding collect lookup
  collect-fresh now ip [] b found le = absurd (ground (arith, found))
  collect-fresh now ip ((j, c) ∷ m) b found le = elim (Bool-cases (str_eq j ip)) [
    | inr other ↦
        let rest = collect-fresh now ip m b (ground (arith, found, other)) le in
        elim (Bool-cases (ltb (c.seen + bucket_ttl) now)) [
          | inl old ↦ rw (collect, old) rest
          | inr fresh ↦ rw (collect, fresh, other) rest
        ]
    | inl same ↦
        let here : some c ≡ some b = ground (arith, found, same) in
        let it = ap (λ (o : Option Bucket). elim o [ none ↦ c | some x ↦ x ]) here in
        let seen = ap (λ (x : Bucket). x.seen) it in
        let fresh : ltb (c.seen + bucket_ttl) now ≡ false = rw seen (ground (arith, le)) in
        rw (collect, fresh, same) here
  ]

  collect-none :
      (now : ℕ) (ip : String) (m : Map String Bucket)
      → lookup ip m ≡ none
      → lookup ip (collect now m) ≡ none
  unfolding collect lookup
  collect-none now ip [] found = refl
  collect-none now ip ((j, c) ∷ m) found =
      let other : str_eq j ip ≡ false = ground (arith, found) in
      let rest = collect-none now ip m (ground (arith, found)) in
      elim (Bool-cases (ltb (c.seen + bucket_ttl) now)) [
        | inl old ↦ rw (collect, old) rest
        | inr fresh ↦ rw (collect, fresh, other) rest
      ]

  -- The bucket that `allow` charges.
  refill-Holds :
      (now : ℕ) (ip : String) (rl : Limiter)
      → Holds now ip rl (refill now rl (bucket_of now rl.burst (lookup ip (collect now rl.bucket))))
  unfolding refill
  refill-Holds now ip rl = record {
    newcomer = λ e. rw (collect-none now ip rl.bucket e) (ground arith);
    unchanged = λ b e fresh le. rw (collect-fresh now ip rl.bucket b e fresh) (ground (arith, le));
    refilled = λ b e fresh lt. rw (collect-fresh now ip rl.bucket b e fresh) (ground (arith, lt));
  }

  -- Where the cost is positive: however requests come in, the limiter leaves no bucket with more tokens
  -- than the burst; a request is let through exactly if the client holds its cost, and then it has
  -- paid it; and the other clients keep what they have.
  pub allow-AreCapped :
      (now : ℕ) (ip : String) (cost : f.F) (rl : Limiter)
      → FloatLaws f
      → f.lt (f.of_int (pos 0)) cost ≡ true
      → AreCapped rl.burst rl.bucket
      → let (allowed, rl') = allow now ip cost rl in
        (rl'.burst ≡ rl.burst)
        × (rl'.rps ≡ rl.rps)
        × AreCapped rl'.burst rl'.bucket
        × IsCharged now ip cost allowed rl rl'
  unfolding allow
  allow-AreCapped now ip cost rl laws positive h =
      let buckets = collect now rl.bucket in
      let kept = collect-AreCapped rl.burst now rl.bucket h in
      let b = refill now rl (bucket_of now rl.burst (lookup ip buckets)) in
      let under =
        refill-IsUnder now rl (bucket_of now rl.burst (lookup ip buckets)) laws
          (lookup-IsUnder rl.burst now ip buckets laws kept) in
      let paid = record b { tokens = f.sub b.tokens cost } in
      elim (Bool-cases (f.lt b.tokens cost)) [
        | inl poor ↦
            rw (allow, positive, poor)
              (
                refl,
                refl,
                insert-AreCapped rl.burst ip b buckets under kept,
                record {
                  held = b;
                  holds = refill-Holds now ip rl;
                  decided = rw poor refl;
                  left = lookup-insert_self ip b buckets;
                  others = λ j x ne e fresh.
                      lookup-insert_ne ip j b buckets ne ∙ collect-fresh now j rl.bucket x e fresh;
                },
              )
        | inr rich ↦
            rw (allow, positive, rich)
              (
                refl,
                refl,
                insert-AreCapped rl.burst ip paid buckets
                    (laws.lower rl.burst b.tokens cost under positive) kept,
                record {
                  held = b;
                  holds = refill-Holds now ip rl;
                  decided = rw rich refl;
                  left = lookup-insert_self ip paid buckets;
                  others = λ j x ne e fresh.
                      lookup-insert_ne ip j paid buckets ne
                      ∙ collect-fresh now j rl.bucket x e fresh;
                },
              )
      ]
