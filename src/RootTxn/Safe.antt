-- ===== src/RootTxn/Safe.antt =====
-- What holds of the world at every moment of a transaction, also when the process dies there.
use rill_xray_agent.Prelude.{ℕ, String, ◌≡◌, Option, none, some}
use rill_xray_agent.RootTxn.World.{
  Request, Metadata, Bundle, StateFile, World, Env, rolled_back, committed,
}
use rill_xray_agent.RootTxn.Steps.{generation_of, build_bundle}
use rill_xray_agent.RootTxn.Apply.{is_some}

-- the bundle of the rollback, and that of the commit
abbrev pub undo_bundle : Env → ℕ → Request → Bundle
undo_bundle env old request =
    build_bundle env request.recommendation_id request old rolled_back "rolledBack"

abbrev pub commit_bundle : Env → ℕ → Request → Bundle
commit_bundle env old request =
    build_bundle env request.recommendation_id request old committed "success"

module _ {H : Type 0} (orig : Option String) (old : ℕ) (w : World H) where
  -- nothing of the host was changed, and there is nothing to recover
  pub record IsUntouched : Type 0 where
    pub no_bundle : w.work.bundle ≡ none
    pub no_state : w.work.state ≡ none
    pub managed : w.managed ≡ orig
    pub generation : generation_of w.generation ≡ old

  -- the metadata of the backup tell what there was
  pub record Records (request : Request) : Type 0 where
    pub metadata : Metadata
    pub metadata_is : w.work.metadata ≡ some metadata
    pub existed : metadata.managed_existed ≡ is_some orig
    pub old_is : metadata.old_generation ≡ old
    pub request_is : w.work.request ≡ some request
    pub backup_is : w.work.backup ≡ orig

  -- a rollback has all that it needs
  pub record IsUndoable (request : Request) : Type 0 where
    pub no_bundle : w.work.bundle ≡ none
    pub state : StateFile
    pub state_is : w.work.state ≡ some state
    pub generation : generation_of w.generation ≡ old
    pub records : Records request

  -- undoable, and the managed file is as it was
  pub record IsRestored (request : Request) : Type 0 where
    pub undoable : IsUndoable request
    pub managed : w.managed ≡ orig

  -- the rollback is decided: its bundle is durable
  pub record IsUndone (env : Env) (request : Request) : Type 0 where
    pub bundle_is : w.work.bundle ≡ some (undo_bundle env old request)
    pub managed : w.managed ≡ orig

  -- the commit is decided, of a managed file that was accepted
  pub record IsCommitting (accepted : Option String → Type 0) (env : Env) (request : Request)
      : Type 0 where
    pub bundle_is : w.work.bundle ≡ some (commit_bundle env old request)
    pub managed : accepted w.managed

  -- there is something to recover
  pub data IsActive (accepted : Option String → Type 0) (env : Env) (request : Request)
      : Type 0 where
    undoable : IsUndoable request → IsActive accepted env request
    undone : IsUndone env request → IsActive accepted env request
    committing : IsCommitting accepted env request → IsActive accepted env request

  pub data IsSafe (accepted : Option String → Type 0) (env : Env) (request : Request) : Type 0 where
    untouched : IsUntouched → IsSafe accepted env request
    active : IsActive accepted env request → IsSafe accepted env request

-- the durable artifacts of a bundle, and its terminal state
pub record IsFinished {H : Type 0} (b : Bundle) (w : World H) : Type 0 where
  pub bundle_is : w.work.bundle ≡ some b
  pub generation : w.generation ≡ some b.base.next_configuration_generation
  pub result : w.work.result ≡ some b.base.result
  pub receipt : w.work.receipt ≡ some b.base.receipt
  pub delivery : w.delivery ≡ some b.base.delivery
  pub state :
      w.work.state
      ≡ some (record { state = b.base.terminal_state; commit_sha256 = some b.commit_sha256 })
