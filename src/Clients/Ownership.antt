-- ===== src/Clients/Ownership.antt =====
-- `PgResult` of src/cPgsqlDatabase.hpp clears each result of libpq exactly once.
use pquery.Prelude.{ℕ, zero, suc, true, false, List, [], ◌∷◌, ◌≡◌, refl, arith, none, some}
use pquery.Clients.Store.{Store, remove}
use pquery.Clients.PgResult.{
  ExecStatus, PgResult, reset, from_pointer, move_assign, perform_real_query, Use, query, cleanup,
  use_result, use_results, lifetime,
}

-- All numbers below n, the largest first.
abbrev pub below : ℕ → List ℕ
below zero = []
below (suc n) = n ∷ below n

-- The object owns the newest result, or none, and all others are cleared.
pub data Owns : PgResult × Store → Type 0 where
  nothing :
      {n : ℕ} {status : ExecStatus}
      → Owns (
        record { res = none; status = status },
        record { next = n; live = []; cleared = below n },
      )
  newest :
      {n : ℕ} {status : ExecStatus}
      → Owns (
        record { res = some n; status = status },
        record { next = suc n; live = n ∷ []; cleared = below n },
      )

remove_second : (n : ℕ) → remove n (suc n ∷ n ∷ []) ≡ suc n ∷ []
remove_second n = ground arith

remove_only : (n : ℕ) → remove n (n ∷ []) ≡ []
remove_only n = ground arith

reset-Owns : {state : PgResult × Store} → Owns state → Owns (reset state.0 state.1)
unfolding reset
reset-Owns nothing = nothing
reset-Owns (newest {n}) = rw (remove_only n) nothing

pub use_result-Owns : (u : Use) {state : PgResult × Store} → Owns state → Owns (use_result u state)
unfolding use_result perform_real_query move_assign from_pointer reset
use_result-Owns cleanup h = reset-Owns h
use_result-Owns (query false status) nothing = nothing
use_result-Owns (query false status) (newest {n}) = rw (remove_only n) nothing
use_result-Owns (query true status) nothing = newest
use_result-Owns (query true status) (newest {n}) = rw (remove_second n) newest

use_results-Owns :
    (uses : List Use) {state : PgResult × Store} → Owns state → Owns (use_results uses state)
unfolding use_results
use_results-Owns [] h = h
use_results-Owns (u ∷ uses) h = use_results-Owns uses (use_result-Owns u h)

pub after_reset :
    {state : PgResult × Store}
    → Owns state
    → let s = (reset state.0 state.1).1 in (s.live ≡ []) × (s.cleared ≡ below s.next)
unfolding reset
after_reset nothing = (refl, refl)
after_reset (newest {n}) = (remove_only n, refl)

-- Whatever queries are sent and cleaned up, each result that libpq allocates is cleared exactly once
-- when the database is destroyed, in the order of the queries.
pub lifetime-below :
    (uses : List Use)
    → ((lifetime uses).live ≡ []) × ((lifetime uses).cleared ≡ below (lifetime uses).next)
unfolding lifetime
lifetime-below uses = after_reset (use_results-Owns uses nothing)
