-- ===== src/RateLimit.antt =====
-- The rate limiter of the HTTP surface (internal/mesh/http_ratelimit.go): a bucket of tokens for each
-- client address, and the decision of the middleware. Go's float64 is a parameter.
use text.Mathlib.Text.{starts_with}
use blackchain_node.Prelude.{
  ℕ, ◌+◌, ◌-◌, String, str_eq, Bool, true, false, not, ◌&&◌, ◌||◌, Option, none, some, List, [],
  ◌∷◌, ℤ, pos, leb_ℤ, eqb_ℤ, ltb, if◌then◌else◌, ◌≡◌,
}
use blackchain_node.Platform.{Platform}
use blackchain_node.Dict.{Map, lookup, insert, string_Eq}
pub mod Caps

-- The operations on float64 that the limiter uses; `seconds` is `Duration.Seconds`, of a number of
-- nanoseconds.
pub record Float : Type 1 where
  pub F : Type 0
  pub add : F → F → F
  pub sub : F → F → F
  pub mul : F → F → F
  pub lt : F → F → Bool
  pub of_int : ℤ → F
  pub seconds : ℕ → F

-- ten minutes
abbrev pub bucket_ttl : ℕ
bucket_ttl = 600_000_000_000

-- The answer of the middleware: the request is refused, limited, or handled.
pub data Verdict : Type 0 where
  forbidden limited handled : Verdict

-- The settings that `buildHTTPMiddleware` reads.
pub record RateConfig : Type 0 where
  pub enabled : Bool
  pub rps : ℤ
  pub burst : ℤ

-- `enabled` in `buildHTTPMiddleware`
unfoldable pub is_enabled : RateConfig → Bool
is_enabled cfg =
    if not cfg.enabled && (not (eqb_ℤ cfg.rps (pos 0)) || not (eqb_ℤ cfg.burst (pos 0)))
    then false
    else cfg.enabled

-- `rateCost`
unfoldable pub rate_cost : String → ℤ
rate_cost path =
    if starts_with path "/chain/status"
      || starts_with path "/chain/height"
      || starts_with path "/chain/block"
    then pos 1
    else (if starts_with path "/chain/tx"
        then pos 5
        else (if starts_with path "/chain/apply" || starts_with path "/chain/snapshot/apply"
            then pos 8
            else (if starts_with path "/chain/propose" then pos 10 else pos 1)))

-- The paths that are limited.
unfoldable pub is_limited_path : String → Bool
is_limited_path path =
    starts_with path "/chain/"
    || starts_with path "/debug/"
    || str_eq path "/peers"
    || str_eq path "/routes"
    || str_eq path "/reputation"
    || str_eq path "/uc"

module _ ⦃f : Float⦄ where
  -- `ipBucket`
  pub record Bucket : Type 0 where
    pub tokens : f.F
    pub last : ℕ
    pub seen : ℕ

  -- `httpRateLimiter`
  pub record Limiter : Type 0 where
    pub rps : f.F
    pub burst : f.F
    pub bucket : Map String Bucket

  -- `newHTTPRateLimiter`
  unfoldable pub new_limiter : ℤ → ℤ → Limiter
  new_limiter rps burst = record {
    rps = f.of_int (if leb_ℤ rps (pos 0) then pos 25 else rps);
    burst = f.of_int (if leb_ℤ burst (pos 0) then pos 50 else burst);
    bucket = [];
  }

  -- The loop that forgets clients.
  unfoldable pub collect : ℕ → Map String Bucket → Map String Bucket
  collect now [] = []
  collect now ((ip, b) ∷ buckets) =
      if ltb (b.seen + bucket_ttl) now then collect now buckets else (ip, b) ∷ collect now buckets

  -- The bucket of a client, a full one where there is none.
  abbrev pub bucket_of : ℕ → f.F → Option Bucket → Bucket
  bucket_of now burst none = record { tokens = burst; last = now; seen = now }
  bucket_of now burst (some b) = b

  unfoldable pub refill : ℕ → Limiter → Bucket → Bucket
  refill now rl b =
      let full = f.add b.tokens (f.mul (f.seconds (now - b.last)) rl.rps) in
      if ltb b.last now
      then record { tokens = if f.lt rl.burst full then rl.burst else full; last = now; seen = now }
      else record b { seen = now }

  -- `if cost <= 0 { cost = 1 }`, where `0 < cost` is the negation on the costs that are used
  abbrev pub charge : f.F → f.F
  charge cost = if f.lt (f.of_int (pos 0)) cost then cost else f.of_int (pos 1)

  -- `allow`
  unfoldable pub allow : ℕ → String → f.F → Limiter → Bool × Limiter
  allow now ip cost rl =
      let buckets = collect now rl.bucket in
      let b = refill now rl (bucket_of now rl.burst (lookup ip buckets)) in
      if f.lt b.tokens (charge cost) then (false, record rl { bucket = insert ip b buckets }) else (
        true,
        record rl {
          bucket = insert ip (record b { tokens = f.sub b.tokens (charge cost) }) buckets;
        },
      )

module _ ⦃p : Platform⦄ where
  -- `isLoopbackIP`
  unfoldable pub is_loopback_ip : String → Bool
  is_loopback_ip given =
      let ip = p.trim_space given in
      str_eq ip "127.0.0.1" || str_eq ip "::1" || starts_with ip "127."

module _ ⦃p : Platform⦄ ⦃f : Float⦄ where
  -- The decision on a request from an address for a path, in the function that
  -- `buildHTTPMiddleware` returns; `handled` passes the request on.
  unfoldable pub decide : ℕ → String → String → Limiter → Verdict × Limiter
  decide now ip path rl =
      if starts_with path "/debug/" && not (is_loopback_ip ip)
      then (forbidden, rl)
      else (if is_loopback_ip ip && leb_ℤ (pos 5) (rate_cost path)
          then (handled, rl)
          else (if is_limited_path path
              then (let (allowed, rl') = allow now ip (f.of_int (rate_cost path)) rl in
                  ((if allowed then handled else limited), rl'))
              else (handled, rl)))

  -- The whole middleware: switched off, it passes every request on.
  unfoldable pub middleware : RateConfig → ℕ → String → String → Limiter → Verdict × Limiter
  middleware cfg now ip path rl = if is_enabled cfg then decide now ip path rl else (handled, rl)
