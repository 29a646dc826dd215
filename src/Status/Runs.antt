-- ===== src/Status/Runs.antt =====
-- The status of internal/mesh/daemon_bridge.go over a run of the daemon.
use blackchain_node.Prelude.{
  ℕ, String, Bool, true, false, not, ◌&&◌, ◌||◌, List, [], ◌∷◌, ◌≡◌, refl, arith, ℤ, any,
}
use blackchain_node.Platform.{Platform}
use blackchain_node.Status.{
  Status, Reason, mark_startup_ready, initiate_shutdown, set_startup_phase, record_replay_failure,
  record_sync_heights, record_sync_error, note_proposal_failure, record_rejected_peer_mutation,
  note_peer_failure, note_peer_suppression, record_recovery_event, degraded_reasons, up_state,
  runtime_state_snapshot,
}

-- What the daemon records.
pub data Record : Type 0 where
  ready shutdown : Record
  phase replay_failed sync_failed proposal_failed mutation_rejected : String → Record
  heights : ℤ → ℤ → Record
  peer_failed recovered : String → String → Record
  suppressed : String → ℕ → String → Record

abbrev pub is_ready_mark : Record → Bool
is_ready_mark ready = true
is_ready_mark _ = false

abbrev pub is_shutdown_mark : Record → Bool
is_shutdown_mark shutdown = true
is_shutdown_mark _ = false

module _ ⦃p : Platform⦄ where
  abbrev pub apply_record : Record → Status → Status
  apply_record ready s = mark_startup_ready s
  apply_record shutdown s = initiate_shutdown s
  apply_record (phase x) s = set_startup_phase x s
  apply_record (replay_failed e) s = record_replay_failure e s
  apply_record (sync_failed e) s = record_sync_error e s
  apply_record (proposal_failed e) s = note_proposal_failure e s
  apply_record (mutation_rejected e) s = record_rejected_peer_mutation e s
  apply_record (heights a b) s = record_sync_heights a b s
  apply_record (peer_failed a e) s = note_peer_failure a e s
  apply_record (recovered k d) s = record_recovery_event k d s
  apply_record (suppressed a t e) s = note_peer_suppression a t e s

  abbrev pub run_records : List Record → Status → Status
  run_records [] s = s
  run_records (x ∷ xs) s = run_records xs (apply_record x s)

  one_ready :
      (x : Record) (s : Status)
      → ((apply_record x s).startup_ready ≡ (s.startup_ready || is_ready_mark x))
        × ((apply_record x s).shutdown_initiated ≡ (s.shutdown_initiated || is_shutdown_mark x))
  unfolding mark_startup_ready initiate_shutdown set_startup_phase record_replay_failure
      record_sync_heights record_sync_error note_proposal_failure record_rejected_peer_mutation
      note_peer_failure note_peer_suppression record_recovery_event
  one_ready ready s = ground arith
  one_ready shutdown s = ground arith
  one_ready (phase x) s = ground arith
  one_ready (replay_failed e) s = ground arith
  one_ready (sync_failed e) s = ground arith
  one_ready (proposal_failed e) s = ground arith
  one_ready (mutation_rejected e) s = ground arith
  one_ready (heights a b) s = ground arith
  one_ready (peer_failed a e) s = ground arith
  one_ready (recovered k d) s = ground arith
  one_ready (suppressed a t e) s = ground arith

  run_marks :
      (xs : List Record) (s : Status)
      → ((run_records xs s).startup_ready ≡ (s.startup_ready || any is_ready_mark xs))
        × ((run_records xs s).shutdown_initiated
            ≡ (s.shutdown_initiated || any is_shutdown_mark xs))
  run_marks [] s = (ground arith, ground arith)
  run_marks (x ∷ xs) s =
      let one = one_ready x s in
      let rest = run_marks xs (apply_record x s) in
      (ground (arith, one.0, rest.0), ground (arith, one.1, rest.1))

  up_flags : (reasons : List Reason) → ((up_state reasons).2 ≡ true) × ((up_state reasons).3 ≡ true)
  up_flags [] = (refl, refl)
  up_flags (x ∷ xs) = (refl, refl)

  -- After any run of records the daemon reports that it is live exactly if no shutdown was initiated,
  -- and that it is ready exactly if moreover the startup was marked as ready; no failure that is
  -- recorded changes either, nor does their order.
  pub run_records-flags :
      (xs : List Record) (s : Status)
      → let (state, reasons, live, is_ready) = runtime_state_snapshot (run_records xs s) in
        (live ≡ not (s.shutdown_initiated || any is_shutdown_mark xs))
        × (is_ready ≡ (
            not (s.shutdown_initiated || any is_shutdown_mark xs)
            && (s.startup_ready || any is_ready_mark xs)))
  unfolding runtime_state_snapshot
  run_records-flags xs s =
      let marks = run_marks xs s in
      let flags = up_flags (degraded_reasons (run_records xs s)) in
      ground (arith, marks.0, marks.1, flags.0, flags.1)
