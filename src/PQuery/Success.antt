-- ===== src/PQuery/Success.antt =====
-- What it takes that `PQuery::run` of src/cPQuery.cpp gives EXIT_SUCCESS.
use pquery.Prelude.{
  ℕ, zero, suc, Bool, true, false, List, [], ◌≡◌, inl, inr, refl, arith, sym, ap, subst, ◌∙◌,
  Option, none, some, Bytes, ℤ, pos, negsuc, get_lines, Bool-cases,
}
use mathlib.Core.Bool.{false≢true}
use pquery.IniReader.Reader.{IniReader, ini_reader}
use pquery.IniReader.Files.{FirstBad, ini_reader-FirstBad}
use pquery.WorkerConfig.Params.{BuildFlags, WorkerParams}
use pquery.WorkerConfig.Sections.{Gives, build_all_worker_params-Ends}
use pquery.WorkerPool.Processes.{Pool, Event}
use pquery.WorkerPool.Spawning.{Fork, Running, returned, running, run_all}
use pquery.PQuery.Master.{
  exit_success, exit_failure, no_parse_error, init_config, new_building, new_pool, with_forks,
  exit_code, run_workers, run,
}

-- The configuration is there and has no malformed line, no section is refused, and the pool has run
-- the workers of all sections that have one.
pub record Succeeds (flags : BuildFlags) (file : Option Bytes) (fork : ℕ → Fork)
    (events : List Event) : Type 0 where
  pub content : Bytes
  pub opened : file ≡ some content
  pub well_formed : FirstBad 0 (get_lines content) (pos 0)
  pub workers : List WorkerParams
  pub gives : Gives flags (ini_reader file) (ini_reader file).sections workers []
  pub pool : Pool
  pub ran : run_all flags (with_forks fork 0 workers) events new_pool ≡ returned true pool

-- The two parts of success.
pub record Ran (flags : BuildFlags) (reader : IniReader) (fork : ℕ → Fork) (events : List Event)
    : Type 0 where
  pub workers : List WorkerParams
  pub gives : Gives flags reader reader.sections workers []
  pub pool : Pool
  pub ran : run_all flags (with_forks fork 0 workers) events new_pool ≡ returned true pool

some_same : {a b : ℕ} → some a ≡ some b → a ≡ b
some_same h = cc

failure-ne-success : (o : Option ℕ) → o ≡ some exit_failure → ¬ (o ≡ some exit_success)
failure-ne-success o h k = let e = some_same (sym h ∙ k) in absurd (omega arith)

none-ne-success : (o : Option ℕ) → o ≡ none → ¬ (o ≡ some exit_success)
none-ne-success o h k = cc

exit_code_success :
    (r : Running) → exit_code r ≡ some exit_success → (p : Pool) × (r ≡ returned true p)
exit_code_success (returned true p) h = (p, refl)
exit_code_success (returned false p) h = absurd (failure-ne-success _ refl h)
exit_code_success (running p) h = absurd (none-ne-success _ refl h)

run_workers-Ran :
    (flags : BuildFlags) (reader : IniReader) (fork : ℕ → Fork) (events : List Event)
    → run_workers flags reader fork events ≡ some exit_success
    → Ran flags reader fork events
unfolding run_workers
run_workers-Ran flags reader fork events h =
    let (out, messages, g, e) = build_all_worker_params-Ends flags reader new_building in
    elim (e.result) [
      | inl (m, c, _) ↦
          let (p, r) = exit_code_success _ (sym (rw (c) refl) ∙ h) in
          record {
            workers = out;
            gives = subst (Gives flags reader reader.sections out) m g;
            pool = p;
            ran = ap (λ o. run_all flags (with_forks fork 0 o) events new_pool) (sym e.outs) ∙ r;
          }
      | inr (m, c, _) ↦ absurd (failure-ne-success _ (rw (c) refl) h)
    ]

no_parse_error_pos : (e : ℤ) → no_parse_error e ≡ true → e ≡ pos 0
no_parse_error_pos (pos zero) h = refl
no_parse_error_pos (pos (suc n)) h = absurd (false≢true h)
no_parse_error_pos (negsuc n) h = absurd (false≢true h)

-- A configuration that is accepted was opened, and has no malformed line.
accepted_file :
    (file : Option Bytes)
    → no_parse_error (ini_reader file).error ≡ true
    → (content : Bytes) × (file ≡ some content) × FirstBad 0 (get_lines content) (pos 0)
unfolding ini_reader
accepted_file none h = absurd (false≢true h)
accepted_file (some content) h = (
  content,
  refl,
  subst (FirstBad 0 (get_lines content)) (no_parse_error_pos _ h) (ini_reader-FirstBad content),
)

-- `run` gives EXIT_SUCCESS only where the configuration is there and has no malformed line, no section
-- with a worker is refused, and `runAll`, over the parameters of all these sections in their order,
-- has returned true.
pub run-Succeeds :
    (flags : BuildFlags) (log_opened : Bool) (file : Option Bytes) (fork : ℕ → Fork)
    (events : List Event)
    → run flags log_opened file fork events ≡ some exit_success
    → Succeeds flags file fork events
unfolding run init_config
run-Succeeds flags log_opened file fork events h =
    elim (Bool-cases (no_parse_error (ini_reader file).error)) [
      | inr e ↦ absurd (failure-ne-success _ (rw (e) refl) h)
      | inl e ↦ elim (Bool-cases log_opened) [
        | inr l ↦ absurd (failure-ne-success _ (rw (e, l) refl) h)
        | inl l ↦
            let (content, opened, formed) = accepted_file file e in
            let r =
              run_workers-Ran flags (ini_reader file) fork events (sym (rw (e, l) refl) ∙ h) in
            record {
              content = content;
              opened = opened;
              well_formed = formed;
              workers = r.workers;
              gives = r.gives;
              pool = r.pool;
              ran = r.ran;
            }
      ]
    ]
