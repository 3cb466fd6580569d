-- ===== src/WorkerConfig/Build.antt =====
-- `WorkerConfig::buildAllWorkerParams` of src/cWorkerConfig.cpp.
use pquery.Prelude.{
  Bool, true, false, not, List, [], ◌∷◌, ◌++◌, Option, none, some, if◌then◌else◌, Bytes, codes,
  equal,
}
use pquery.IniReader.Reader.{IniReader}
use pquery.IniReader.Values.{get_boolean}
use pquery.WorkerConfig.Params.{BuildFlags, WorkerParams, to_lower_case}
use pquery.WorkerConfig.Checks.{Checked, valid, invalid}
use pquery.WorkerConfig.Setup.{setup_worker_params}

-- The local variables, with the records of the log, if there is one, and the lines of the standard
-- error.
pub record Building : Type 0 where
  pub out : List WorkerParams
  pub config_ok : Bool
  pub log : Option (List Bytes)
  pub errors : List Bytes

-- `if (logger) logger->addRecordToLog(message)`.
abbrev pub logged : Bytes → Option (List Bytes) → Option (List Bytes)
logged message none = none
logged message (some log) = some (log ++ message ∷ [])

abbrev pub full_message : Bytes → Bytes → Bytes
full_message section message =
    codes "=> Config error in section [" ++ section ++ codes "]: " ++ message

-- `reportConfigError`, and the message at the end.
unfoldable pub report : Bytes → Building → Building
report message b = record b { log = logged message b.log; errors = b.errors ++ message ∷ [] }

unfoldable pub add_checked : Bytes → Checked WorkerParams → Building → Building
unfolding report
add_checked section (invalid message) b =
    report (full_message section message) (record b { config_ok = false })
add_checked section (valid params) b = record b { out = b.out ++ params ∷ [] }

-- The body of the loop.
unfoldable pub check_section : BuildFlags → IniReader → Bytes → Building → Building
unfolding add_checked to_lower_case
check_section flags r section b =
    let checking = record b {
      log = logged (codes "-> Checking " ++ section ++ codes " params...") b.log;
    } in
    if equal (to_lower_case section) (codes "master")
    then b
    else if not (get_boolean r section (codes "run") false)
    then checking
    else add_checked section (setup_worker_params flags r section) checking

unfoldable pub check_sections : BuildFlags → IniReader → List Bytes → Building → Building
check_sections flags r [] b = b
check_sections flags r (section ∷ sections) b =
    check_sections flags r sections (check_section flags r section b)

abbrev pub failed_message : Bytes
failed_message = codes "=> Config validation failed, no workers started"

unfoldable pub finish : Building → Building
unfolding report
finish b = if b.config_ok then b else report failed_message b

-- The object's state after the call, with the result as `config_ok`.
unfoldable pub build_all_worker_params : BuildFlags → IniReader → Building → Building
unfolding check_sections check_section finish
build_all_worker_params flags r b =
    finish (check_sections flags r r.sections (record b { config_ok = true }))
