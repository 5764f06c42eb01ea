-- ===== src/Execution/Entity.antt =====
-- The row of an execution (src/execution/execution.entity.ts): the columns that decide what may
-- happen to it. JSON columns are texts; the blobs, the owner and the times of the row's creation
-- and last change are left out.
use documents_backend.Common.{
  ℕ, String, Bool, true, false, Option, Eq, ◌≡◌, ◌↔◌, arith, List, ◌||◌, ◌==◌, eq_string,
}
use documents_backend.Common.Dict.{Dict}
use documents_backend.Execution.Types.{Ledger}
use documents_backend.Execution.Events.{PolicySnapshot}

pub data Status : Type 0 where
  queued running waiting completed failed cancelled : Status

abbrev pub status_eq : Status → Status → Bool
status_eq queued queued = true
status_eq running running = true
status_eq waiting waiting = true
status_eq completed completed = true
status_eq failed failed = true
status_eq cancelled cancelled = true
status_eq _ _ = false

pub status_eq_iff : (a b : Status) → (status_eq a b ≡ true) ↔ (a ≡ b)
status_eq_iff a b = ground arith

instance abbrev pub eq_status : Eq Status
eq_status = record { same = status_eq; same_iff = status_eq_iff }

-- `TERMINAL_STATES.has(status)`.
abbrev pub is_terminal : Status → Bool
is_terminal completed = true
is_terminal failed = true
is_terminal cancelled = true
is_terminal _ = false

pub record Execution : Type 0 where
  pub execution_id : String
  pub root_execution_id : String
  pub turn_id : Option String
  pub task_type : String
  pub status : Status
  pub phase : Option String
  pub completion_kind : Option String
  pub completion_reason : Option String
  pub result : Option String
  pub error : Option (String × String)
  pub progress_policy : Option (Dict PolicySnapshot)
  pub progress_ledger : Option Ledger
  pub claimed_by : Option String
  pub attempt_id : Option String
  pub retry_count : ℕ
  pub max_attempts : ℕ
  pub started_at : Option String
  pub completed_at : Option String
  pub last_sequence : ℕ
  pub last_event_id : Option String
  pub completeness_status : String
  pub missing_evidence : List String

-- `CHAT_TASK_TYPES.has(taskType)`.
unfoldable pub is_chat : String → Bool
is_chat task_type = task_type == "assistant-chat" || task_type == "agent-chat"
