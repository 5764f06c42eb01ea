-- ===== src/Execution/Types.antt =====
-- The data of an execution's budget: src/execution/execution-progress.ts and execution.types.ts.
-- Identifiers and times are texts. A field that TypeScript marks optional is an `Option`; a field
-- whose type is one literal (`version: '1'`) is left out.
use documents_backend.Common.{ℕ, String, Bool, true, false, Option, Eq, ◌≡◌, ◌↔◌, arith}
use documents_backend.Common.Dict.{Dict}

pub data OperationKind : Type 0 where
  inference tool_call : OperationKind

pub data Bucket : Type 0 where
  normal repair closing tool : Bucket

pub data ReservationStatus : Type 0 where
  reserved denied consumed : ReservationStatus

abbrev pub kind_eq : OperationKind → OperationKind → Bool
kind_eq inference inference = true
kind_eq tool_call tool_call = true
kind_eq _ _ = false

abbrev pub bucket_eq : Bucket → Bucket → Bool
bucket_eq normal normal = true
bucket_eq repair repair = true
bucket_eq closing closing = true
bucket_eq tool tool = true
bucket_eq _ _ = false

abbrev pub status_eq : ReservationStatus → ReservationStatus → Bool
status_eq reserved reserved = true
status_eq denied denied = true
status_eq consumed consumed = true
status_eq _ _ = false

pub kind_eq_iff : (a b : OperationKind) → (kind_eq a b ≡ true) ↔ (a ≡ b)
kind_eq_iff a b = ground arith

pub bucket_eq_iff : (a b : Bucket) → (bucket_eq a b ≡ true) ↔ (a ≡ b)
bucket_eq_iff a b = ground arith

instance abbrev pub eq_kind : Eq OperationKind
eq_kind = record { same = kind_eq; same_iff = kind_eq_iff }

instance abbrev pub eq_bucket : Eq Bucket
eq_bucket = record { same = bucket_eq; same_iff = bucket_eq_iff }

pub record ProgressCounter : Type 0 where
  pub started : ℕ
  pub finished : ℕ
  pub unfinished : ℕ
  pub failed : ℕ

pub record TokenUsage : Type 0 where
  pub known : Bool
  pub total : ℕ
  pub unknown_operations : ℕ

pub record BudgetUsage : Type 0 where
  pub granted : ℕ
  pub reserved : ℕ
  pub consumed : ℕ
  pub available : ℕ
  pub soft_limit : Option ℕ
  pub soft_limit_reached : Option Bool
  pub soft_limit_reached_at : Option String
  pub soft_limit_triggering_operation_id : Option String
  pub soft_limit_warning_pending : Option Bool

-- The policy that a grant keeps, in which older grants lack some fields.
pub record GrantPolicy : Type 0 where
  pub normal : ℕ
  pub normal_inference_soft_limit : Option ℕ
  pub repair : ℕ
  pub closing : ℕ
  pub max_tokens_per_inference : ℕ
  pub tool_calls : ℕ
  pub tool_call_soft_limit : Option ℕ
  pub exact_tool_repeat_warning : Option Bool
  pub exact_tool_repeat_block_after_warning : Option Bool
  pub exact_tool_repeat_terminate_after_block : Option Bool

pub record Grant : Type 0 where
  pub grant_id : String
  pub execution_id : String
  pub turn_id : Option String
  pub loop_id : String
  pub execution_attempt_id : String
  pub requested_policy : GrantPolicy
  pub effective_policy : GrantPolicy
  pub granted_at : String

pub record Reservation : Type 0 where
  pub reservation_id : String
  pub grant_id : String
  pub operation_id : String
  pub execution_attempt_id : String
  pub operation_kind : Option OperationKind
  pub bucket : Bucket
  pub tool_call_id : Option String
  pub operation_fingerprint : Option String
  pub operation_fingerprint_version : Option String
  pub tool_batch_size : Option ℕ
  pub tool_batch_index : Option ℕ
  pub phase : String
  pub round : ℕ
  pub name : String
  pub status : ReservationStatus
  pub reason : Option String
  pub decided_at : String

-- `usage: Record<OperationBudgetBucket, OperationBudgetUsage>`.
pub record Usages : Type 0 where
  pub normal : BudgetUsage
  pub repair : BudgetUsage
  pub closing : BudgetUsage
  pub tool : BudgetUsage

pub record GrantState : Type 0 where
  pub grant : Grant
  pub usage : Usages

pub record Budget : Type 0 where
  pub grants : Dict GrantState
  pub reservations : Dict Reservation

pub record SoftLimitSignal : Type 0 where
  pub grant_id : String
  pub operation_kind : OperationKind
  pub bucket : Bucket
  pub soft_limit : ℕ
  pub hard_limit : ℕ
  pub committed : ℕ
  pub available : ℕ
  pub triggering_operation_id : String
  pub execution_attempt_id : String
  pub decided_at : String

pub data GuardAction : Type 0 where
  warn block terminate : GuardAction

-- The three signals of the exact-repeat guard; a field that an action lacks is `none`.
pub record GuardSignal : Type 0 where
  pub action : GuardAction
  pub grant_id : String
  pub loop_id : String
  pub previous_operation_id : String
  pub blocked_operation_id : Option String
  pub triggering_operation_id : String
  pub warning_applied_to_operation_id : Option String
  pub block_result_applied_to_operation_id : Option String
  pub operation_fingerprint : Option String
  pub operation_fingerprint_version : Option String
  pub result_fingerprint : Option String
  pub execution_attempt_id : String
  pub decided_at : String

pub record GuardState : Type 0 where
  pub detections : ℕ
  pub warning_issued : Bool
  pub warning_pending : Bool
  pub blocks : ℕ
  pub previous_operation_id : Option String
  pub triggering_operation_id : Option String
  pub operation_fingerprint : Option String
  pub operation_fingerprint_version : Option String
  pub warning_applied_to_operation_id : Option String
  pub block_result_pending : Bool
  pub block_result_applied_to_operation_id : Option String
  pub last_blocked_operation_id : Option String
  pub last_blocked_previous_operation_id : Option String
  pub result_fingerprint : Option String
  pub terminations : ℕ
  pub last_terminated_operation_id : Option String

pub record Operations : Type 0 where
  pub inference : ProgressCounter
  pub tool_call : ProgressCounter

pub record LoopEntry : Type 0 where
  pub agent_name : String
  pub loop_kind : String
  pub max_rounds : Option ℕ
  pub operations : Operations
  pub inference_phases : Dict ProgressCounter

pub data Completeness : Type 0 where
  complete partial : Completeness

pub record Ledger : Type 0 where
  pub last_sequence : ℕ
  pub operations : Operations
  pub inference_phases : Dict ProgressCounter
  pub loops : Dict LoopEntry
  pub prompt_tokens : TokenUsage
  pub generated_tokens : TokenUsage
  pub completeness : Completeness
  pub operation_budget : Option Budget
  pub loop_guards : Option (Dict GuardState)
