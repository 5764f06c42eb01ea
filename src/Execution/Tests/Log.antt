-- ===== src/Execution/Tests/Log.antt =====
-- The log theorems on the run: the events of a worker, their counters, and a start that comes twice.
use documents_backend.Common.{
  length, false, ◌≢◌, List, ◌++◌, ℕ, ◌+◌, String, true, ◌≡◌, refl, none, [], ◌∷◌, ok,
}
use documents_backend.Execution.Types.{inference}
use documents_backend.Execution.Entity.{Execution}
use documents_backend.Execution.Progress.Consume.{no_detections}
use documents_backend.Execution.Progress.Projection.{project, initial, step, steps}
use documents_backend.Execution.Budget.Requests.{nat}
use documents_backend.Execution.Service.Store.{Store, envelopes, find_root}
use documents_backend.Execution.Lifecycle.Attempts
use documents_backend.Execution.Lifecycle.Attempts.{Accepted, more}
use documents_backend.Execution.Ingest.{Incoming, Surroundings, schema_of}
use documents_backend.Execution.Ingest.Loop.{AcceptReply, accept_events}
use documents_backend.Execution.Ingest.Log.{
  IsNumbered, accept_events-Reach, accept_events-Accepted, accept_events-IsNumbered,
}
use documents_backend.Execution.Limits.Service.{Reach}
use documents_backend.Execution.Progress.Starts.{HasTotals}
use documents_backend.Execution.Progress.Conservation.{project-HasTotals}
use documents_backend.Execution.Budget.Governed.{
  GovernedStart, governed_identity, assert_budget_projection,
}
use documents_backend.Execution.Budget.SingleUse.{governed-single_use}
use documents_backend.Execution.Events.{Event, Row}
use documents_backend.Execution.Tests.{
  root_id, chat, with_reservation, inference_started, inference_finished, whole_log, machine,
  Reach-with_reservation, store_of,
}

abbrev incoming : String → ℕ → Event → Incoming
incoming id n e = record {
  event_id = id;
  root_execution_id = root_id;
  execution_id = root_id;
  payload_schema = schema_of e.event_type;
  producer_component = "documents-models";
  producer_instance_id = "worker-1";
  producer_sequence = nat n;
  has_timestamp = true;
  data_classification = "workspace";
  caused_by = none;
  artifact_refs = [];
  event = e;
}

-- The start twice, and the finish.
abbrev batch : List Incoming
batch =
    incoming "00000000-0000-4000-8000-00000000000a" 1 inference_started
    ∷ incoming "00000000-0000-4000-8000-00000000000a" 1 inference_started
    ∷ incoming "00000000-0000-4000-8000-00000000000b" 2 inference_finished
    ∷ []

abbrev no_others : Surroundings
no_others = record { screen = λ i. ok tt; is_elsewhere = λ id. false; has_artifact = λ id. false }

abbrev after_batch : Store
after_batch = store_of (accept_events no_others root_id batch with_reservation)

abbrev two_accepted : AcceptReply
two_accepted = record { accepted = 2; duplicates = 1; last_sequence = 5 }

accept_events-Reach_example : Reach after_batch
unfolding machine
accept_events-Reach_example =
    accept_events-Reach no_others root_id batch with_reservation two_accepted after_batch refl
      Reach-with_reservation

Accepted-with_reservation : Accepted with_reservation.rows
unfolding machine
Accepted-with_reservation = more (more (more Attempts.start _ refl) _ refl) _ refl

accept_events-Accepted_example : Accepted after_batch.rows
unfolding machine
accept_events-Accepted_example =
    accept_events-Accepted no_others root_id batch with_reservation two_accepted after_batch refl
      Accepted-with_reservation

accept_events-IsNumbered_example :
    (x : Execution) × (find_root root_id with_reservation.executions ≡ ok x)
    × ((new : List Row) × (after_batch.rows ≡ with_reservation.rows ++ new)
        × (length new ≡ 2)
        × IsNumbered x.last_sequence new)
    × (◌≡◌ {A = ℕ} (2 + 1) 3)
    × (5 ≡ x.last_sequence + 2)
unfolding machine
accept_events-IsNumbered_example =
    accept_events-IsNumbered no_others root_id batch with_reservation two_accepted after_batch refl

-- The log of one inference that fails: it is counted in the phase `agent_loop`.
project-HasTotals_example : HasTotals (project whole_log).ledger
project-HasTotals_example = project-HasTotals whole_log

abbrev accepted_start : GovernedStart
accepted_start = governed_identity inference inference_started

-- The inference starts once; its start is refused when it comes again.
governed-single_use_example :
    assert_budget_projection accepted_start
      (steps
        (step (steps initial (envelopes with_reservation.rows)) inference_started)
        (inference_finished ∷ [])).ledger.operation_budget
      no_detections
    ≢ ok tt
unfolding machine
governed-single_use_example =
    governed-single_use chat inference_started accepted_start
      (steps initial (envelopes with_reservation.rows)) no_detections refl refl
      (inference_finished ∷ []) accepted_start no_detections refl
