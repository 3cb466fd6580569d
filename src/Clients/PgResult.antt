-- ===== src/Clients/PgResult.antt =====
-- The class `PgResult` of src/cPgsqlDatabase.hpp, over a store of results that libpq has allocated.
use pquery.Clients.Store.{Store, empty_store, allocate, release}
use pquery.Prelude.{ℕ, Bool, true, false, List, [], ◌∷◌, Option, none, some}

-- A `PGresult *` is a number, and `none` the null pointer.
abbrev pub Pointer : Type 0
Pointer = Option ℕ

pub data ExecStatus : Type 0 where
  empty_query tuples_ok command_ok other_status : ExecStatus

-- The object.
pub record PgResult : Type 0 where
  pub res : Pointer
  pub status : ExecStatus

-- `PQclear`.
abbrev pub pq_clear : ℕ → Store → Store
pq_clear n s = release n s

-- `PQexec`, which gives a new result, or a null pointer where `allocated` is false.
abbrev pub pq_exec : Bool → Store → Pointer × Store
pq_exec false s = (none, s)
pq_exec true s = (some s.next, allocate s)

abbrev pub no_result : PgResult
no_result = record { res = none; status = empty_query }

-- `PgResult(PGresult *)`, where `status` is what `PQresultStatus` gives.
unfoldable pub from_pointer : ExecStatus → Pointer → PgResult
from_pointer status none = record { res = none; status = empty_query }
from_pointer status (some n) = record { res = some n; status = status }

abbrev cleared_with : Pointer → Store → Store
cleared_with none s = s
cleared_with (some n) s = pq_clear n s

-- `reset`, which is also the destructor.
unfoldable pub reset : PgResult → Store → PgResult × Store
reset r s = (no_result, cleared_with r.res s)

-- `operator=(PgResult &&)` of another object: the two objects and the store.
unfoldable pub move_assign : PgResult → PgResult → Store → PgResult × PgResult × Store
unfolding reset
move_assign this other s = let (_, s) = reset this s in (other, no_result, s)

abbrev pub is_ok : ExecStatus → Bool
is_ok tuples_ok = true
is_ok command_ok = true
is_ok _ = false

-- `performRealQuery`: the temporary object is destroyed behind the assignment.
unfoldable pub perform_real_query : Bool → ExecStatus → PgResult → Store → Bool × PgResult × Store
unfolding from_pointer move_assign reset
perform_real_query allocated status result s =
    let (pointer, s) = pq_exec allocated s in
    let (result, temporary, s) = move_assign result (from_pointer status pointer) s in
    let (_, s) = reset temporary s in (is_ok result.status, result, s)

-- What the worker does with a connection: it sends a query, or calls `cleanupResult`.
pub data Use : Type 0 where
  query : Bool → ExecStatus → Use
  cleanup : Use

unfoldable pub use_result : Use → PgResult × Store → PgResult × Store
unfolding perform_real_query reset
use_result (query allocated status) (r, s) =
    let (_, r, s) = perform_real_query allocated status r s in (r, s)
use_result cleanup (r, s) = reset r s

-- The life of the member `result_`, from its default to the destructor of the database.
unfoldable pub use_results : List Use → PgResult × Store → PgResult × Store
unfolding use_result
use_results [] state = state
use_results (u ∷ us) state = use_results us (use_result u state)

unfoldable pub lifetime : List Use → Store
unfolding use_results reset
lifetime uses = let (r, s) = use_results uses (no_result, empty_store) in (reset r s).1
