-- ===== src/Status.antt =====
-- The runtime status of the daemon (internal/mesh/daemon_bridge.go): the startup phase, the counters
-- of failures, and the state that operators see.
use blackchain_node.Prelude.{
  ℕ, String, ◌<>◌, str_eq, Bool, true, false, not, ◌&&◌, ◌||◌, List, [], ◌∷◌, ◌++◌, ℤ, pos, add64,
  sub64, ltb_ℤ, ltb, count, length, if◌then◌else◌,
}
use blackchain_node.Platform.{Platform}
use blackchain_node.Signing.{is_empty}
use blackchain_node.Dict.{Map}
use blackchain_node.Peers.{Peer}
pub mod Runs

-- The fields of `meshDaemon` under `statusMu`. Where the code keeps a text, so does this.
pub record Status : Type 0 where
  pub startup_phase : String
  pub startup_ready : Bool
  pub shutdown_initiated : Bool
  pub replay_failure_count : ℤ
  pub last_replay_error : String
  pub sync_error_count : ℤ
  pub last_sync_error : String
  pub last_sync_local_height : ℤ
  pub last_sync_best_height : ℤ
  pub peer_failure_count : ℤ
  pub last_peer_failure : String
  pub peer_suppression_count : ℤ
  pub last_peer_suppression : String
  pub proposal_failure_count : ℤ
  pub last_proposal_failure : String
  pub recovery_event_count : ℤ
  pub last_recovery_event : String
  pub rejected_peer_mutation_count : ℤ
  pub last_rejected_peer_mutation : String

pub data DaemonState : Type 0 where
  halted startup degraded healthy : DaemonState

pub data Reason : Type 0 where
  shutdown_initiated : Reason
  startup_phase : String → Reason
  replay_failures sync_errors peer_failures peer_suppressions proposal_failures : Reason

-- `markStartupReady`
unfoldable pub mark_startup_ready : Status → Status
mark_startup_ready s = record s { startup_phase = "ready"; startup_ready = true }

-- The status part of `Shutdown`; closing the server and the listener is not modelled
unfoldable pub initiate_shutdown : Status → Status
initiate_shutdown s = record s { shutdown_initiated = true }

-- The errors that are recorded are given by their texts.
unfoldable pub record_replay_failure : String → Status → Status
record_replay_failure e s = record s {
  replay_failure_count = add64 s.replay_failure_count (pos 1);
  last_replay_error = e;
}

-- `recordSyncHeights`
unfoldable pub record_sync_heights : ℤ → ℤ → Status → Status
record_sync_heights local_h best_h s = record s {
  last_sync_local_height = local_h;
  last_sync_best_height = best_h;
}

unfoldable pub record_sync_error : String → Status → Status
record_sync_error e s = record s {
  sync_error_count = add64 s.sync_error_count (pos 1);
  last_sync_error = e;
}

-- `recordProposalFailure`
unfoldable pub note_proposal_failure : String → Status → Status
note_proposal_failure e s = record s {
  proposal_failure_count = add64 s.proposal_failure_count (pos 1);
  last_proposal_failure = e;
}

-- `recordRejectedPeerMutation`
unfoldable pub record_rejected_peer_mutation : String → Status → Status
record_rejected_peer_mutation reason s = record s {
  rejected_peer_mutation_count = add64 s.rejected_peer_mutation_count (pos 1);
  last_rejected_peer_mutation = reason;
}

module _ ⦃p : Platform⦄ where
  -- `setStartupPhase`
  unfoldable pub set_startup_phase : String → Status → Status
  set_startup_phase phase s =
      if is_empty (p.trim_space phase) || str_eq s.startup_phase (p.trim_space phase)
      then s
      else record s { startup_phase = p.trim_space phase }

  -- `recordPeerFailure`
  unfoldable pub note_peer_failure : String → String → Status → Status
  note_peer_failure addr reason s =
      let msg = p.trim_space reason in
      let named =
        if is_empty (p.trim_space addr)
        then msg
        else ((("peer=" <> p.trim_space addr) <> " ") <> msg) in
      if is_empty msg then s else record s {
        peer_failure_count = add64 s.peer_failure_count (pos 1);
        last_peer_failure = named;
      }

  -- `recordPeerSuppression`
  unfoldable pub note_peer_suppression : String → ℕ → String → Status → Status
  note_peer_suppression addr until reason s =
      let msg = p.trim_space reason in
      let named =
        if is_empty (p.trim_space addr)
        then msg
        else ((((("peer=" <> p.trim_space addr) <> " until=") <> p.format_time until) <> " ")
            <> msg) in
      record s {
        peer_suppression_count = add64 s.peer_suppression_count (pos 1);
        last_peer_suppression = p.trim_space named;
      }

  -- `recordRecoveryEvent`
  unfoldable pub record_recovery_event : String → String → Status → Status
  record_recovery_event kind detail s =
      let msg = p.trim_space kind in
      record s {
        recovery_event_count = add64 s.recovery_event_count (pos 1);
        last_recovery_event =
            if is_empty (p.trim_space detail) then msg else ((msg <> ": ") <> p.trim_space detail);
      }

-- `if count > 0 { reasons = append(reasons, reason) }`
abbrev pub reason_if : ℤ → Reason → List Reason → List Reason
reason_if n reason reasons = if ltb_ℤ (pos 0) n then reasons ++ reason ∷ [] else reasons

-- The reasons of a daemon that is up.
unfoldable pub degraded_reasons : Status → List Reason
degraded_reasons s = reason_if s.proposal_failure_count proposal_failures (
    reason_if s.peer_suppression_count peer_suppressions (
      reason_if s.peer_failure_count peer_failures (
        reason_if s.sync_error_count sync_errors
          (reason_if s.replay_failure_count replay_failures []))))

abbrev pub up_state : List Reason → DaemonState × List Reason × Bool × Bool
up_state [] = (healthy, [], true, true)
up_state (reason ∷ reasons) = (degraded, reason ∷ reasons, true, true)

-- `runtimeStateSnapshot`: the state, the reasons, and whether the daemon is live and ready
unfoldable pub runtime_state_snapshot : Status → DaemonState × List Reason × Bool × Bool
runtime_state_snapshot s =
    if s.shutdown_initiated
    then (halted, Reason.shutdown_initiated ∷ [], false, false)
    else (if not s.startup_ready
        then (startup, Reason.startup_phase s.startup_phase ∷ [], true, false)
        else up_state (degraded_reasons s))

-- The lag and the counts of peers in `operatorStatusSnapshot`; the rest of it are the fields above.
unfoldable pub sync_lag : Status → ℤ
sync_lag s =
    if ltb_ℤ s.last_sync_local_height s.last_sync_best_height
    then sub64 s.last_sync_best_height s.last_sync_local_height
    else pos 0

unfoldable pub reachable_peer_count : Map String Peer → ℕ
reachable_peer_count peers = count (λ entry. (entry.1).reachable) peers
