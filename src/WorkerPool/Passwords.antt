-- ===== src/WorkerPool/Passwords.antt =====
-- What the log of src/cWorkerPool.cpp tells of a password.
use pquery.Prelude.{Bool, ◌≡◌, refl, Bytes, is_empty}
use pquery.WorkerConfig.Params.{WorkerParams}
use pquery.Logger.Operations.{LogState}
use pquery.WorkerPool.ChildLog.{log_worker_details}

abbrev pub with_password : Bytes → WorkerParams → WorkerParams
with_password password p = record p { password = password }

-- Two passwords that are both empty or both not give the same calls of logWorkerDetails the same
-- end and the same files: the log tells nothing of a password but whether it is empty.
pub log_worker_details_secret :
    (can_open : Bytes → Bool) (password other : Bytes) (p : WorkerParams) (s : LogState)
    → is_empty password ≡ is_empty other
    → log_worker_details can_open (with_password password p) s
      ≡ log_worker_details can_open (with_password other p) s
unfolding log_worker_details
log_worker_details_secret can_open password other p s h = rw h refl
