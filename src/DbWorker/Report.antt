-- ===== src/DbWorker/Report.antt =====
-- What a worker reports: `writeFinalReport` of src/cDbWorker.cpp, and `testConnection` of
-- src/cMysqlWorker.cpp and src/cPgsqlWorker.cpp.
use pquery.Prelude.{
  ℕ, ◌-◌, Bool, true, false, not, ◌&&◌, List, [], ◌∷◌, ◌++◌, ltb, ◌==◌, if◌then◌else◌, Bytes, codes,
  is_empty, pos, ◌+◌, ◌^◌, ◌%◌,
}
use pquery.WorkerConfig.Params.{WorkerParams}
use pquery.WorkerConfig.Checks.{to_string}
use pquery.Logger.Calls.{Call, record_added}
use pquery.DbWorker.Counters.{Totals}

unfoldable number : ℕ → Bytes
unfolding to_string
number n = to_string (pos n)

-- The difference of two `uint64_t`.
abbrev pub succeeded : Totals → ℕ
succeeded t = (t.performed_queries_total + 2 ^ 64 - t.failed_queries_total) % 2 ^ 64

-- `share n m` is the text of n * 100.0 / m with two decimals.
unfoldable pub final_report : (ℕ → ℕ → Bytes) → Totals → Bytes
unfolding number
final_report share t =
    codes "-> WORKER SUMMARY: "
    ++ (number t.failed_queries_total
        ++ (codes "/"
            ++ (number t.performed_queries_total
                ++ (codes " queries failed, ("
                    ++ ((if t.performed_queries_total == 0
                          then codes "N/A"
                          else share (succeeded t) t.performed_queries_total)
                        ++ (codes "% were successful)"
                            ++ (if ltb 0 t.failed_connections_total
                                then codes "; "
                                  ++ (number t.failed_connections_total
                                      ++ codes " thread(s) failed to connect")
                                else [])))))))

unfoldable pub write_final_report : (ℕ → ℕ → Bytes) → Totals → Call
unfolding final_report
write_final_report share t = record_added (final_report share t)

-- The server that `MysqlWorker::testConnection` names in its message.
unfoldable pub mysql_target : WorkerParams → Bytes
unfolding number
mysql_target p =
    if not (is_empty p.address) && not (p.port == 0)
    then p.address ++ (codes ":" ++ number p.port)
    else if is_empty p.address && not (is_empty p.socket)
    then codes "socket " ++ p.socket
    else p.address

-- The result, and what is printed to the standard error. The instance is always made.
unfoldable pub test_mysql_connection : Bool → Bytes → WorkerParams → Bool × Bytes
unfolding mysql_target
test_mysql_connection connected error p = if connected then (true, []) else (
  false,
  codes "\n=> Unable to connect to host "
      ++ (mysql_target p ++ (codes "\n=> " ++ (error ++ codes "\n"))),
)

-- The texts of the server that `PgsqlWorker::testConnection` asks for.
pub record ServerTexts : Type 0 where
  pub error_string : Bytes
  pub host_info : Bytes
  pub server_version : Bytes

-- The result, and the calls of the logger.
unfoldable pub test_pgsql_connection : Bool → ServerTexts → Bool × List Call
test_pgsql_connection connected texts =
    if connected
    then (
      true,
      record_added (codes "-> Successfully connected to " ++ texts.host_info)
          ∷ record_added (codes "-> Server version: " ++ texts.server_version)
          ∷ [],
    )
    else (
      false,
      record_added (codes "=> Unable to connect! PgSQL error " ++ texts.error_string) ∷ [],
    )
