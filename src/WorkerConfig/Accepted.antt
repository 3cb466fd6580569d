-- ===== src/WorkerConfig/Accepted.antt =====
-- The sections that `WorkerConfig::setupWorkerParams` of src/cWorkerConfig.cpp accepts, against
-- their description.
use pquery.Prelude.{◌^◌, ◌≡◌, ◌≢◌, ◌↔◌, refl, sym, ap, subst, ◌∙◌, arith, Bytes, codes}
use pquery.IniReader.Reader.{IniReader}
use pquery.IniReader.Values.{
  DbType, mysql, pgsql, no_db, InfileType, sql, genlog, binlog, unknown, get_db_type,
  get_infile_type,
}
use pquery.WorkerConfig.Params.{BuildFlags, WorkerParams}
use pquery.WorkerConfig.Checks.{valid}
use pquery.WorkerConfig.Ranges.{
  bind_valid, then_valid, valid_same, get_checked_sound, get_checked_complete, get_port_sound,
  get_port_complete,
}
use pquery.WorkerConfig.Described.{Supported, LimitsOf, numbers_of, Accepted}
use pquery.WorkerConfig.Setup.{
  Limits, check_dbtype, get_limits, check_infiletype, params_of, setup_worker_params,
}

get_limits-LimitsOf :
    (r : IniReader) (section : Bytes) (db : DbType) {l : Limits}
    → db ≢ no_db
    → get_limits r section db ≡ valid l
    → LimitsOf r section db l
unfolding get_limits
get_limits-LimitsOf r section db h e =
    let (port, p, e) = bind_valid _ _ e in
    let (threads, t, e) = bind_valid _ _ e in
    let (queries, q, e) = bind_valid _ _ e in
    let (maxsize, m, e) = bind_valid _ _ e in
    let (timeout, o, e) = bind_valid _ _ e in
    let (connect, c, e) = bind_valid _ _ e in
    subst (LimitsOf r section db) (valid_same e) (record {
      port = get_port_sound r section db h p;
      threads = get_checked_sound r section _ _ _ _ _ (omega arith) t;
      queries = get_checked_sound r section _ _ _ _ _ (omega arith) q;
      maxsize = get_checked_sound r section _ _ _ _ _ (omega arith) m;
      timeout = get_checked_sound r section _ _ _ _ _ (omega arith) o;
      connect = get_checked_sound r section _ _ _ _ _ (omega arith) c;
    })

LimitsOf-get_limits :
    (r : IniReader) (section : Bytes) (db : DbType) {l : Limits}
    → db ≢ no_db
    → LimitsOf r section db l
    → get_limits r section db ≡ valid l
unfolding get_limits
LimitsOf-get_limits r section db h l =
    rw
      (
        get_port_complete r section db h l.port,
        get_checked_complete r section _ _ _ _ (2 ^ 16) (omega arith) l.threads,
        get_checked_complete r section _ _ _ _ (2 ^ 64) (omega arith) l.queries,
        get_checked_complete r section _ _ _ _ (2 ^ 64) (omega arith) l.maxsize,
        get_checked_complete r section _ _ _ _ (2 ^ 32) (omega arith) l.timeout,
        get_checked_complete r section _ _ _ _ (2 ^ 32) (omega arith) l.connect,
      )
      refl

Supported-ne-no_db : (flags : BuildFlags) (db : DbType) → Supported flags db → db ≢ no_db
Supported-ne-no_db flags mysql h = λ e. absurd cc
Supported-ne-no_db flags pgsql h = λ e. absurd cc
Supported-ne-no_db flags no_db h = absurd h

check_dbtype_iff :
    (flags : BuildFlags) (db : DbType) → (check_dbtype flags db ≡ valid tt) ↔ Supported flags db
unfolding check_dbtype
check_dbtype_iff flags mysql = ground arith
check_dbtype_iff flags pgsql = ground arith
check_dbtype_iff flags no_db = (λ e. absurd cc, λ h. absurd h)

check_infiletype_sql : (db : DbType) (t : InfileType) → check_infiletype db t ≡ valid tt → t ≡ sql
unfolding check_infiletype
check_infiletype_sql db sql h = refl
check_infiletype_sql db genlog h = absurd cc
check_infiletype_sql db binlog h = absurd cc
check_infiletype_sql db unknown h = absurd cc

params_of-Accepted :
    (flags : BuildFlags) (r : IniReader) (section : Bytes) (limits : Limits)
    → let db = get_db_type r section (codes "dbtype") mysql in
      Supported flags db
      → LimitsOf r section db limits
      → get_infile_type r section (codes "infiletype") sql ≡ sql
      → Accepted flags r section (params_of r section db sql limits)
unfolding params_of
params_of-Accepted flags r section limits h l t = record {
  name = refl;
  server = refl;
  supported = h;
  numbers = l;
  file_type = t;
  only_sql = refl;
  texts = record {
    address = refl;
    username = refl;
    password = refl;
    socket = refl;
    database = refl;
    infile = refl;
    logdir = refl;
  };
  switches = record {
    verbose = refl;
    shuffle = refl;
    all_queries = refl;
    succeeded = refl;
    failed = refl;
    statistics = refl;
    duration = refl;
    output = refl;
    query_numbers = refl;
  };
}

-- They are determined.
Accepted-params_of :
    (flags : BuildFlags) (r : IniReader) (section : Bytes) (p : WorkerParams)
    → Accepted flags r section p
    → params_of r section p.dbtype sql (numbers_of p) ≡ p
unfolding params_of
Accepted-params_of flags r section p a = λ i. record p {
  my_name = sym a.name i;
  address = sym a.texts.address i;
  username = sym a.texts.username i;
  password = sym a.texts.password i;
  socket = sym a.texts.socket i;
  database = sym a.texts.database i;
  infile = sym a.texts.infile i;
  infiletype = sym a.only_sql i;
  logdir = sym a.texts.logdir i;
  verbose = sym a.switches.verbose i;
  shuffle = sym a.switches.shuffle i;
  log_all_queries = sym a.switches.all_queries i;
  log_succeeded_queries = sym a.switches.succeeded i;
  log_failed_queries = sym a.switches.failed i;
  log_query_statistics = sym a.switches.statistics i;
  log_query_duration = sym a.switches.duration i;
  log_client_output = sym a.switches.output i;
  log_query_numbers = sym a.switches.query_numbers i;
}

setup_worker_params-Accepted :
    (flags : BuildFlags) (r : IniReader) (section : Bytes) (p : WorkerParams)
    → setup_worker_params flags r section ≡ valid p
    → Accepted flags r section p
unfolding setup_worker_params
setup_worker_params-Accepted flags r section p e =
    let db = get_db_type r section (codes "dbtype") mysql in
    let infile = get_infile_type r section (codes "infiletype") sql in
    let (d, e) = then_valid _ _ e in
    let supported = (check_dbtype_iff flags db).0 d in
    let (limits, l, e) = bind_valid _ _ e in
    let (t, e) = then_valid _ _ e in
    let only_sql = check_infiletype_sql db infile t in
    let l = get_limits-LimitsOf r section db (Supported-ne-no_db flags db supported) l in
    subst (Accepted flags r section)
      (ap (λ x. params_of r section db x limits) (sym only_sql) ∙ valid_same e)
      (params_of-Accepted flags r section limits supported l only_sql)

Accepted-setup_worker_params :
    (flags : BuildFlags) (r : IniReader) (section : Bytes) (p : WorkerParams)
    → Accepted flags r section p
    → setup_worker_params flags r section ≡ valid p
unfolding setup_worker_params check_infiletype
Accepted-setup_worker_params flags r section p a =
    rw
      (
        sym a.server,
        (check_dbtype_iff flags p.dbtype).1 a.supported,
        LimitsOf-get_limits r section p.dbtype (Supported-ne-no_db flags p.dbtype a.supported)
            a.numbers,
        a.file_type,
      )
      (ap valid (Accepted-params_of flags r section p a))

-- setupWorkerParams accepts a section exactly if its server is one that the build supports, every
-- number is an integer in its range and the input file is SQL. Each parameter is then what the
-- configuration has for its own key, or the default of that key, and no number is changed by its
-- cast. The key of log_succeeded_queries is log-succeded-queries, as the code spells it, and not
-- log-succeeded-queries, as README, pquery.cfg and the help do.
pub setup_worker_params_iff :
    (flags : BuildFlags) (r : IniReader) (section : Bytes) (p : WorkerParams)
    → (setup_worker_params flags r section ≡ valid p) ↔ Accepted flags r section p
setup_worker_params_iff flags r section p =
    (setup_worker_params-Accepted flags r section p, Accepted-setup_worker_params flags r section p)
