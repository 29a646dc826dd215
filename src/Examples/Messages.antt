-- ===== src/Examples/Messages.antt =====
-- Tests of messages, of the status and of the rate limiter (internal/mesh/gossip.go,
-- internal/mesh/seen.go, internal/mesh/daemon_bridge.go, internal/mesh/http_ratelimit.go).
use blackchain_node.Prelude.{
  ℕ, ◌+◌, ◌-◌, ◌*◌, ◌≤◌, ◌<>◌, str_eq, str_eq_iff, ◌≡◌, refl, sym, ap, Bool-cases, inl, inr, arith,
  true, false, none, List, [], ◌∷◌, ◌++◌, pos, negsuc, pos_part, ltb, length, All,
}
use blackchain_node.Dict.{lookup, string_Eq}
use blackchain_node.Signing.{is_empty}
use blackchain_node.Gossip.{WireMessage, Mesh, Remote, seen_max, itoa64, mark_seen, gossip_forward}
use blackchain_node.Gossip.Digits.{value_from, AreDigits, HasLead, spelled, itoa64_lem}
use blackchain_node.Gossip.Forward.{IsCopy, gossip_forward_lem}
use blackchain_node.Gossip.Seen.{HasNames, mark_seen-bounded}
use blackchain_node.Status.{Status, runtime_state_snapshot}
use blackchain_node.Status.Runs.{ready, replay_failed, run_records, run_records-flags}
use blackchain_node.RateLimit.{Float, Limiter, allow}
use blackchain_node.RateLimit.Caps.{FloatLaws, AreCapped, IsCharged, allow-AreCapped}
use blackchain_node.Examples.{toy, genesis}

instance abbrev toy_remote : Remote
toy_remote = record {
  json_decode_wire = λ b. none;
  json_decode_announcement = λ b. none;
  json_block_text = λ b. none;
  peer_api_base = λ s. none;
  client_works = false;
  get = λ s. none;
  replace_all = λ s a b. s;
  format_block_time = λ t. "now";
}

abbrev mesh : Mesh
mesh = record {
  id = "n1:7000";
  bootstrap_peers = "n1:7000" ∷ "n2:7000" ∷ "n3:7000" ∷ [];
  chain = genesis;
  table = record {
    peers = [];
    peer_failure_count = pos 0;
    last_peer_failure = "";
    peer_suppression_count = pos 0;
    last_peer_suppression = "";
  };
  seen = [];
  inbox = [];
  sent = [];
}

abbrev hello : WireMessage
hello = record {
  id = "m1";
  kind = "msg";
  from = "n9:7000";
  via = "n2:7000";
  to = "n1:7000";
  body = "hello";
  topic = "";
  time = pos 5;
  ttl = pos 4;
  pub_key = "";
}

gossip_forward_lem_example :
    (out : List WireMessage) × (gossip_forward hello mesh ≡ record mesh { sent = mesh.sent ++ out })
    × All (IsCopy "n1:7000" "n2:7000" (record hello { ttl = pos 3; via = "n1:7000" })) out
    × (length out ≤ 3)
    × (4 ≤ 1 → out ≡ [])
gossip_forward_lem_example = gossip_forward_lem hello mesh 4 refl (omega arith)

one_named : HasNames (("m1", 7) ∷ [])
unfolding lookup
one_named k t found = elim (Bool-cases (str_eq "m1" k)) [
  | inl same ↦ ap is_empty (sym ((str_eq_iff "m1" k).0 same))
  | inr other ↦ absurd (ground (arith, found, other))
]

mark_seen-bounded_example :
    (length (mark_seen 100 "m2" (("m1", 7) ∷ [])) ≤ seen_max)
    × HasNames (mark_seen 100 "m2" (("m1", 7) ∷ []))
mark_seen-bounded_example = mark_seen-bounded 100 "m2" (("m1", 7) ∷ []) (omega arith) one_named

itoa64_lem_example :
    (ds : List ℕ) × AreDigits ds
    × HasLead ds
    × (value_from 0 ds ≡ 305)
    × (itoa64 (pos 305) ≡ spelled ds)
    × (itoa64 (negsuc 304) ≡ "-" <> spelled ds)
itoa64_lem_example = itoa64_lem 304 (omega arith)

abbrev starting : Status
starting = record {
  startup_phase = "replay_blocks";
  startup_ready = false;
  shutdown_initiated = false;
  replay_failure_count = pos 0;
  last_replay_error = "";
  sync_error_count = pos 0;
  last_sync_error = "";
  last_sync_local_height = pos 0;
  last_sync_best_height = pos 0;
  peer_failure_count = pos 0;
  last_peer_failure = "";
  peer_suppression_count = pos 0;
  last_peer_suppression = "";
  proposal_failure_count = pos 0;
  last_proposal_failure = "";
  recovery_event_count = pos 0;
  last_recovery_event = "";
  rejected_peer_mutation_count = pos 0;
  last_rejected_peer_mutation = "";
}

run_records-flags_example :
    let (state, reasons, live, is_ready) =
      runtime_state_snapshot (run_records (replay_failed "torn file" ∷ ready ∷ []) starting) in
    (live ≡ true) × (is_ready ≡ true)
run_records-flags_example = run_records-flags (replay_failed "torn file" ∷ ready ∷ []) starting

-- Whole numbers in the place of float64.
instance abbrev whole : Float
whole = record {
  F = ℕ;
  add = ◌+◌;
  sub = ◌-◌;
  mul = ◌*◌;
  lt = ltb;
  of_int = pos_part;
  seconds = λ n. n;
}

whole_laws : FloatLaws whole
whole_laws = record { irreflexive = λ x. ground arith; lower = λ x y z h k. ground arith }

abbrev limiter : Limiter
limiter = record {
  rps = 1;
  burst = 10;
  bucket = ("10.0.0.1", record { tokens = 4; last = 5; seen = 5 }) ∷ [];
}

allow-AreCapped_example :
    let (allowed, rl) = allow 7 "10.0.0.1" 5 limiter in
    (rl.burst ≡ 10)
    × (rl.rps ≡ 1)
    × AreCapped rl.burst rl.bucket
    × IsCharged 7 "10.0.0.1" 5 allowed limiter rl
allow-AreCapped_example = allow-AreCapped 7 "10.0.0.1" 5 limiter whole_laws refl (refl, tt)
