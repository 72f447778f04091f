-- ===== src/PolicyFile.antt =====
-- The file behind a policy, as `_load` of auto_policy.py and `_load_policy` of root_policy.py see it,
-- and the reasons for which either calls it corrupt.
use Prim.Native.Nat.{bit_and}
use rill_xray_agent.Prelude.{ℕ, Option, none, some, ◌==◌}
use rill_xray_agent.Prelude.Result.{Result, ok, err, guard, or_raise, ◌>>=◌, ◌>>◌}
use rill_xray_agent.Json.{Json, Fields, obj_of}

-- What stands at the path. `content` is `none` where the bytes are not JSON.
pub data PolicyFile : Type 0 where
  symlink absent special unstatable : PolicyFile
  regular : ℕ → Option Json → PolicyFile

pub data Corruption : Type 0 where
  not_a_regular_file unreadable writable_by_others unparseable not_an_object : Corruption
  missing_keys wrong_type bad_fuse_opened bad_mutation_times bad_processed_outcomes : Corruption
  bad_confirmed_at bad_schema_version bad_epoch bad_mode bad_route_stage : Corruption

-- `_load` marks the policy corrupt, or raises a KeyError of its own.
pub data LoadError : Type 0 where
  corrupt : Corruption → LoadError
  key_error : LoadError

-- The checks that both loaders make before they look at a key; `none` is a fresh install.
unfoldable pub read_policy : PolicyFile → Result LoadError (Option Fields)
read_policy symlink = err (corrupt not_a_regular_file)
read_policy absent = ok none
read_policy special = err (corrupt not_a_regular_file)
read_policy unstatable = err (corrupt unreadable)
read_policy (regular mode content) = do
  guard (bit_and mode 0o022 == 0) (corrupt writable_by_others)
  data_ ← or_raise content (corrupt unparseable)
  fields ← or_raise (obj_of data_) (corrupt not_an_object)
  ok (some fields)
