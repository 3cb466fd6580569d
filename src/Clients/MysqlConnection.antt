-- ===== src/Clients/MysqlConnection.antt =====
-- The connection of `MysqlDatabase` in src/cMysqlDatabase.cpp, over a store of the handles that
-- libmysqlclient has allocated.
use pquery.Prelude.{
  ℕ, Bool, true, false, List, [], ◌∷◌, ◌++◌, Option, none, some, ltb, ◌==◌, if◌then◌else◌, Bytes,
  codes, pos,
}
use pquery.WorkerConfig.Params.{WorkerParams}
use pquery.WorkerConfig.Checks.{to_string}
use pquery.Clients.Store.{Store, empty_store, allocate, release}

-- The member `conn`, where `none` is the null pointer, with the handles.
pub record Link : Type 0 where
  pub conn : Option ℕ
  pub handles : Store

-- The constructor.
abbrev pub new_link : Link
new_link = record { conn = none; handles = empty_store }

-- What `mysql_real_connect` is called with, and the option set before.
pub record Target : Type 0 where
  pub connect_timeout : Option ℕ
  pub address : Bytes
  pub username : Bytes
  pub password : Bytes
  pub database : Bytes
  pub port : ℕ
  pub socket : Bytes

unfoldable pub target_of : WorkerParams → Target
target_of p = record {
  connect_timeout = if ltb 0 p.connect_timeout_secs then some p.connect_timeout_secs else none;
  address = p.address;
  username = p.username;
  password = p.password;
  database = p.database;
  port = p.port;
  socket = p.socket;
}

abbrev pub closed_handle : Option ℕ → Store → Store
closed_handle none handles = handles
closed_handle (some handle) handles = release handle handles

-- `connect`: `initialised` tells whether `mysql_init` gives a handle, and `accepts` for which target
-- `mysql_real_connect` succeeds.
unfoldable pub connect : Bool → (Target → Bool) → WorkerParams → Link → Bool × Link
unfolding target_of
connect false accepts p l =
    (false, record { conn = none; handles = closed_handle l.conn l.handles })
connect true accepts p l =
    let handles = closed_handle l.conn l.handles in
    (accepts (target_of p), record { conn = some handles.next; handles = allocate handles })

-- The destructor.
unfoldable pub disconnect : Link → Link
disconnect l = record { conn = none; handles = closed_handle l.conn l.handles }

-- An attempt to connect.
pub record Attempt : Type 0 where
  pub initialised : Bool
  pub accepts : Target → Bool
  pub params : WorkerParams

unfoldable pub connects : List Attempt → Link → Link
unfolding connect
connects [] l = l
connects (a ∷ attempts) l = connects attempts (connect a.initialised a.accepts a.params l).1

-- `performRealQuery`: `status` is what `mysql_real_query` returns, and 0 is success.
unfoldable pub perform_real_query : ℕ → Bool
perform_real_query status = status == 0

-- `getErrorString`, from the number and the text of the error.
unfoldable pub get_error_string : Link → ℕ → Bytes → Bytes
unfolding to_string
get_error_string l errno error = elim l.conn [
  | none ↦ codes "MySQL connection is not initialized"
  | some handle ↦ to_string (pos errno) ++ (codes ": " ++ error)
]

-- What the query of the version gives: it fails, has no result, has no row or a NULL in it, or a text.
pub data Comment : Type 0 where
  query_failed no_result no_comment : Comment
  comment : Bytes → Comment

abbrev with_comment : Bytes → Comment → Store → Bytes × Store
with_comment info query_failed results = (info, results)
with_comment info no_result results = (info, results)
with_comment info no_comment results = (info, release results.next (allocate results))
with_comment info (comment text) results =
    (info ++ (codes " " ++ text), release results.next (allocate results))

-- `getServerVersion`, from the text that `mysql_get_server_info` returns, over the results.
unfoldable pub get_server_version : Link → Bytes → Comment → Store → Bytes × Store
get_server_version l info c results = elim l.conn [
  | none ↦ ([], results)
  | some handle ↦ with_comment info c results
]
