-- ===== src/PQuery/Master.antt =====
-- `PQuery::run` of src/cPQuery.cpp, from the options on.
use pquery.Prelude.{
  ℕ, zero, suc, Bool, true, false, not, List, [], ◌∷◌, Option, none, some, if◌then◌else◌, Bytes, ℤ,
  pos, negsuc,
}
use pquery.IniReader.Reader.{IniReader, ini_reader}
use pquery.WorkerConfig.Params.{BuildFlags, WorkerParams}
use pquery.WorkerConfig.Build.{Building, build_all_worker_params}
use pquery.WorkerPool.Processes.{Pool, Event}
use pquery.WorkerPool.Spawning.{Fork, Running, returned, running, run_all}

abbrev pub exit_success : ℕ
exit_success = 0

abbrev pub exit_failure : ℕ
exit_failure = 1

-- `parseerr` is neither negative nor positive.
abbrev pub no_parse_error : ℤ → Bool
no_parse_error (pos zero) = true
no_parse_error (pos (suc n)) = false
no_parse_error (negsuc n) = false

unfoldable pub init_config : Option Bytes → Option IniReader
init_config file =
    let reader = ini_reader file in if no_parse_error reader.error then some reader else none

abbrev pub new_building : Building
new_building = record { out = []; config_ok = true; log = some []; errors = [] }

abbrev pub new_pool : Pool
new_pool = record { active_workers = []; retvalue = true; log = []; kills = [] }

-- The parameters with what `fork` returns for each: `fork k` for number `k`.
abbrev pub with_forks : (ℕ → Fork) → ℕ → List WorkerParams → List (Fork × WorkerParams)
with_forks fork k [] = []
with_forks fork k (params ∷ others) = (fork k, params) ∷ with_forks fork (suc k) others

abbrev pub exit_code : Running → Option ℕ
exit_code (returned true p) = some exit_success
exit_code (returned false p) = some exit_failure
exit_code (running p) = none

-- `run` behind `prepareToRun`.
unfoldable pub run_workers : BuildFlags → IniReader → (ℕ → Fork) → List Event → Option ℕ
run_workers flags reader fork events =
    let built = build_all_worker_params flags reader new_building in
    if not built.config_ok
    then some exit_failure
    else exit_code (run_all flags (with_forks fork 0 built.out) events new_pool)

unfoldable pub prepared : BuildFlags → Bool → (ℕ → Fork) → List Event → Option IniReader → Option ℕ
unfolding run_workers
prepared flags log_opened fork events none = some exit_failure
prepared flags log_opened fork events (some reader) =
    if not log_opened then some exit_failure else run_workers flags reader fork events

-- The exit code, or `none` while workers run. `log_opened` is the result of `initLogger`.
unfoldable pub run : BuildFlags → Bool → Option Bytes → (ℕ → Fork) → List Event → Option ℕ
unfolding init_config prepared
run flags log_opened file fork events = prepared flags log_opened fork events (init_config file)
