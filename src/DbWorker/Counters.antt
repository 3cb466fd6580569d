-- ===== src/DbWorker/Counters.antt =====
-- The counters of src/cDatabase.cpp, and the totals of the threads in src/cDbWorker.cpp.
use pquery.Prelude.{ℕ, ◌+◌, ◌%◌, ◌^◌, Bool, true, false}

-- `uint64_t`, `uint64_t` and `uint16_t`.
pub record Counters : Type 0 where
  pub failed_queries : ℕ
  pub performed_queries : ℕ
  pub consecutive_failures : ℕ

abbrev pub new_counters : Counters
new_counters = record { failed_queries = 0; performed_queries = 0; consecutive_failures = 0 }

-- `performQuery`, once the server has answered.
unfoldable pub count_query : Bool → Counters → Counters
count_query true c = record c {
  consecutive_failures = 0;
  performed_queries = (c.performed_queries + 1) % 2 ^ 64;
}
count_query false c = record {
  failed_queries = (c.failed_queries + 1) % 2 ^ 64;
  performed_queries = (c.performed_queries + 1) % 2 ^ 64;
  consecutive_failures = (c.consecutive_failures + 1) % 2 ^ 16;
}

-- The atomic members of `DbWorker`.
pub record Totals : Type 0 where
  pub performed_queries_total : ℕ
  pub failed_queries_total : ℕ
  pub failed_connections_total : ℕ
  pub thread_failed : Bool

unfoldable pub calculate_queries : Counters → Totals → Totals
calculate_queries c t = record t {
  performed_queries_total = (t.performed_queries_total + c.performed_queries) % 2 ^ 64;
  failed_queries_total = (t.failed_queries_total + c.failed_queries) % 2 ^ 64;
}
