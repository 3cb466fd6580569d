-- ===== src/Clients/MysqlClosed.antt =====
-- `MysqlDatabase` of src/cMysqlDatabase.cpp closes each of its connections exactly once.
use pquery.Prelude.{ℕ, suc, Bool, true, false, List, [], ◌∷◌, ◌≡◌, refl, arith, none, some}
use pquery.Clients.Store.{remove}
use pquery.Clients.Ownership.{below}
use pquery.Clients.MysqlConnection.{Link, Attempt, Target, new_link, connect, connects, disconnect}
use pquery.WorkerConfig.Params.{WorkerParams}

-- The object has the newest handle, or none, and all others are closed.
pub data OwnsHandle : Link → Type 0 where
  nothing :
      {n : ℕ}
      → OwnsHandle
          (record { conn = none; handles = record { next = n; live = []; cleared = below n } })
  newest :
      {n : ℕ}
      → OwnsHandle (record {
        conn = some n;
        handles = record { next = suc n; live = n ∷ []; cleared = below n };
      })

remove_only : (n : ℕ) → remove n (n ∷ []) ≡ []
remove_only n = ground arith

connect-OwnsHandle :
    (initialised : Bool) (accepts : Target → Bool) (p : WorkerParams) {l : Link}
    → OwnsHandle l
    → OwnsHandle (connect initialised accepts p l).1
unfolding connect
connect-OwnsHandle false accepts p nothing = nothing
connect-OwnsHandle false accepts p (newest {n}) = rw (remove_only n) nothing
connect-OwnsHandle true accepts p nothing = newest
connect-OwnsHandle true accepts p (newest {n}) = rw (remove_only n) newest

connects-OwnsHandle :
    (attempts : List Attempt) {l : Link} → OwnsHandle l → OwnsHandle (connects attempts l)
unfolding connects
connects-OwnsHandle [] h = h
connects-OwnsHandle (a ∷ attempts) h =
    connects-OwnsHandle attempts (connect-OwnsHandle a.initialised a.accepts a.params h)

disconnect-below :
    {l : Link}
    → OwnsHandle l
    → let s = (disconnect l).handles in (s.live ≡ []) × (s.cleared ≡ below s.next)
unfolding disconnect
disconnect-below nothing = (refl, refl)
disconnect-below (newest {n}) = (remove_only n, refl)

-- Whatever attempts to connect a MysqlDatabase makes and however they end, each handle of
-- libmysqlclient is closed exactly once when it is destroyed, in their order.
pub connects-disconnect :
    (attempts : List Attempt)
    → let s = (disconnect (connects attempts new_link)).handles in
      (s.live ≡ []) × (s.cleared ≡ below s.next)
connects-disconnect attempts = disconnect-below (connects-OwnsHandle attempts nothing)
