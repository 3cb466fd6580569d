-- ===== src/Clients/PgsqlCleared.antt =====
-- A thread of src/cDbWorker.cpp with the client of src/cPgsqlDatabase.cpp clears its results.
use pquery.Prelude.{[], ◌≡◌}
use pquery.Clients.PgResult.{reset}
use pquery.Clients.Ownership.{Owns, below}
use pquery.Clients.PgsqlClient.{PqLibrary, pgsql_client}

module _ (L : PqLibrary) where
  -- The result of the object is the newest, or there is none, and all others are cleared.
  IsOwner : (pgsql_client L).Conn → Type 0
  unfolding pgsql_client
  IsOwner d = Owns (d.result, d.store)

  -- Behind the destructor nothing is allocated, and each result was cleared once, in its order.
  pub IsCleared : (pgsql_client L).Conn → Type 0
  unfolding pgsql_client reset
  IsCleared d =
      let store = (reset d.result d.store).1 in
      (store.live ≡ []) × (store.cleared ≡ below store.next)
