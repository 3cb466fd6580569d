-- ===== src/Clients/Store.antt =====
-- What a client library has allocated for the classes of src/cPgsqlDatabase.cpp and
-- src/cMysqlDatabase.cpp: its results, or its connections.
use pquery.Prelude.{ℕ, suc, List, [], ◌∷◌, ◌==◌, if◌then◌else◌}

-- The objects that are allocated, and those that were given back, newest first. The next is `next`.
pub record Store : Type 0 where
  pub next : ℕ
  pub live : List ℕ
  pub cleared : List ℕ

abbrev pub remove : ℕ → List ℕ → List ℕ
remove n [] = []
remove n (m ∷ ms) = if m == n then ms else m ∷ remove n ms

abbrev pub allocate : Store → Store
allocate s = record s { next = suc s.next; live = s.next ∷ s.live }

abbrev pub release : ℕ → Store → Store
release n s = record s { live = remove n s.live; cleared = n ∷ s.cleared }

abbrev pub empty_store : Store
empty_store = record { next = 0; live = []; cleared = [] }
