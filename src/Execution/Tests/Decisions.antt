-- ===== src/Execution/Tests/Decisions.antt =====
-- The decision theorems on the run: a request that is repeated, and a new one.
use documents_backend.Common.{◌⊎◌, false, true, ◌≡◌, refl, none, Result, ok}
use documents_backend.Execution.Types.{inference, normal, Reservation, BudgetUsage, GrantState}
use documents_backend.Execution.Progress.BudgetEvents.{grant_state}
use documents_backend.Execution.Progress.Consume.{no_detections}
use documents_backend.Execution.Budget.ReservationRequests.{ReservationRequest, read_request}
use documents_backend.Execution.Budget.Policy.{create_grant}
use documents_backend.Execution.Budget.Checks.{create_reservation}
use documents_backend.Execution.Service.Store.{Store}
use documents_backend.Execution.Service.Reserve.{
  ReserveReply, Decision, decide, reserve_operation_budget,
}
use documents_backend.Execution.Service.Decisions.{
  GrantedOutcome, ExhaustedOutcome, TerminatedOutcome, BlockedOutcome, decide-outcome,
}
use documents_backend.Execution.Service.Retry.{SameDecision, reserve_operation_budget-again}
use documents_backend.Execution.Tests.{
  root_id, turn, attempt, grant_id, chat, inference_request, first_ids, second_ids, with_grant,
  with_reservation, asked, machine,
}

abbrev granted_reservation : Reservation
granted_reservation =
    create_reservation (read_request inference normal inference_request) true second_ids.decision_id
      second_ids.now none

abbrev no_usage : BudgetUsage
no_usage = record {
  granted = 0;
  reserved = 0;
  consumed = 0;
  available = 0;
  soft_limit = none;
  soft_limit_reached = none;
  soft_limit_reached_at = none;
  soft_limit_triggering_operation_id = none;
  soft_limit_warning_pending = none;
}

abbrev reply_of : Result (ReserveReply × Store) → ReserveReply
reply_of (ok (reply, s)) = reply
reply_of _ = record {
  granted = false;
  reservation = granted_reservation;
  budget_state = record { normal = no_usage; tool = no_usage };
  soft_limit_signal = none;
  guard_state = no_detections;
  loop_guard_signal = none;
  event_id = "";
}

abbrev first_reply : ReserveReply
first_reply = reply_of (reserve_operation_budget second_ids root_id inference_request with_grant)

first_reply-granted : (first_reply.granted ≡ true) × (first_reply.reservation ≡ granted_reservation)
unfolding machine
first_reply-granted = (refl, refl)

-- The reservation that was granted is given again without a change of the store.
reserve_operation_budget-again_example :
    (again : ReserveReply) × (reserve_operation_budget first_ids root_id inference_request
        with_reservation
      ≡ ok (again, with_reservation))
    × SameDecision again first_reply
unfolding machine
reserve_operation_budget-again_example =
    reserve_operation_budget-again second_ids root_id inference_request with_grant first_reply
      with_reservation refl first_ids

abbrev request : ReservationRequest
request = read_request inference normal inference_request

abbrev new_grant : GrantState
new_grant = grant_state (
    create_grant chat
      (record {
        execution_id = root_id;
        turn_id = turn;
        loop_id = root_id;
        agent_name = "assistant";
        execution_attempt_id = attempt;
        requested_policy = asked;
      })
      asked grant_id "t1")

abbrev decided : Decision
decided = decide with_grant.rows request new_grant no_detections "t2"

-- An inference under a new grant is granted.
decide-outcome_example :
    GrantedOutcome decided new_grant request
    ⊎ (ExhaustedOutcome decided new_grant request
        ⊎ (TerminatedOutcome decided with_grant.rows request
            ⊎ BlockedOutcome decided with_grant.rows request))
decide-outcome_example = decide-outcome with_grant.rows request new_grant no_detections "t2"
