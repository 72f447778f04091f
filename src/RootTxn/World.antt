-- ===== src/RootTxn/World.antt =====
-- What a transaction works on: one work directory, the managed file, the generation and the delivery.
use rill_xray_agent.Prelude.{ℕ, String, Bool, Option, none}

-- `apply_type` is `request.get('applyType')`.
pub record Request : Type 0 where
  pub recommendation_id : String
  pub configuration_generation : ℕ
  pub request_sha256 : String
  pub apply_type : Option String

-- the names in `RECOVERABLE_STATES` and `TERMINAL_STATES`
pub data TxnState : Type 0 where
  prepared applying applied verified commit_intent rollback_intent : TxnState
  committed rolled_back rollback_unverified : TxnState

-- `backup-metadata.json`
pub record Metadata : Type 0 where
  pub managed_existed : Bool
  pub backup_sha256 : Option String
  pub old_generation : ℕ
  pub new_generation : ℕ

pub record ResultBody : Type 0 where
  pub decision_id : String
  pub outcome : String
  pub observed_at_epoch_seconds : ℕ
  pub configuration_generation : ℕ
  pub next_configuration_generation : ℕ
  pub auto_outcome_id : Option String
  pub apply_type : Option String

pub record TxnResult : Type 0 where
  pub body : ResultBody
  pub result_sha256 : String

pub record Receipt : Type 0 where
  pub decision_id : String
  pub result_sha256 : String
  pub transaction_sha256 : String
  pub created_at_epoch_seconds : ℕ
  pub auto_outcome_id : Option String
  pub apply_type : Option String

-- `route-delivery.json`
pub record Delivery : Type 0 where
  pub request : Request
  pub result : TxnResult
  pub receipt : Receipt

-- a bundle without its hash
pub record BundleBase : Type 0 where
  pub terminal_state : TxnState
  pub next_configuration_generation : ℕ
  pub result : TxnResult
  pub receipt : Receipt
  pub delivery : Delivery

-- `commit-bundle.json`
pub record Bundle : Type 0 where
  pub base : BundleBase
  pub commit_sha256 : String

-- `state.json`
pub record StateFile : Type 0 where
  pub state : TxnState
  pub commit_sha256 : Option String

-- The files of one work directory; `none` is a file that is not there.
pub record WorkDir : Type 0 where
  pub backup : Option String
  pub metadata : Option Metadata
  pub request : Option Request
  pub candidate : Option String
  pub state : Option StateFile
  pub bundle : Option Bundle
  pub result : Option TxnResult
  pub receipt : Option Receipt

abbrev pub empty_dir : WorkDir
empty_dir = record {
  backup = none;
  metadata = none;
  request = none;
  candidate = none;
  state = none;
  bundle = none;
  result = none;
  receipt = none;
}

-- `host` is all that the callbacks act on beside the managed file: the service and the ledger.
-- `life` is the number of durable writes that are left before the process is killed.
pub record World (H : Type 0) : Type 0 where
  pub managed : Option String
  pub generation : Option ℕ
  pub work : WorkDir
  pub delivery : Option Delivery
  pub host : H
  pub life : ℕ

-- what `digest` is taken of
pub data Doc : Type 0 where
  of_body : ResultBody → Doc
  of_transaction : Request → TxnResult → Doc
  of_base : BundleBase → Doc
  of_outcome : String → ℕ → String → Doc

-- the points of `fault`
pub data Point : Type 0 where
  at_prepared at_pre_verify at_applying at_managed_mutation at_applied at_verified : Point
  at_commit_intent at_rollback_intent at_managed_restore at_generation_restore : Point
  at_rollback_bundle at_result at_receipt at_delivery at_terminal at_commit_bundle : Point

-- What the module takes from outside: SHA-256, the pattern of an id, the clock, the environment
-- variables that inject faults, and what is on disk when a copy is cut short.
pub record Env : Type 0 where
  pub digest : Doc → String
  pub sha256 : String → String
  pub valid_id : String → Bool
  pub now : ℕ
  pub faults : Point → Bool
  pub torn : String → String

-- how a call ends: with a value, with an exception, or with the death of the process
pub data Ending (A : Type 0) : Type 0 where
  returned : A → Ending A
  raised : Ending A
  died : Ending A

-- The callbacks of `apply`. Each may raise; only `apply_fn` writes the managed file.
pub record Callbacks (H : Type 0) : Type 0 where
  pub apply_fn : H → Option String → Ending (Unit {0}) × H × Option String
  pub verify_fn : H → Option String → Ending Bool × H
  pub restart_fn : Option (H → Option String → Ending Bool × H)
  pub commit_hook : Option (H → Ending (Unit {0}) × H)
  pub rollback_hook : Option (H → Ending (Unit {0}) × H)
  pub pre_verify_fn : Option (H → Option String → Ending Bool × H)
  pub candidate_bytes : Option String
