-- ===== src/Clients/MysqlFreed.antt =====
-- `processQueryOutput` of src/cMysqlDatabase.cpp stores every result of the query, also those behind
-- one that fails, and frees it again.
use pquery.Prelude.{
  ℕ, suc, List, [], ◌∷◌, ◌++◌, ◌≡◌, refl, sym, ◌∙◌, arith, Bytes, append-nil, append_assoc, subst,
}
use pquery.Clients.Store.{Store, remove}
use pquery.Clients.MysqlOutput.{
  Row, ResultSet, no_columns, unstored, table, Output, rows_text, store_result, drain, read_table,
  process_results, process_query_output,
}

-- The tables among the results.
unfoldable pub tables : List ResultSet → List (List Row)
tables [] = []
tables (table rows ∷ results) = rows ∷ tables results
tables (_ ∷ results) = tables results

-- Those in front of the first result that cannot be stored.
unfoldable pub readable : List ResultSet → List (List Row)
readable [] = []
readable (no_columns ∷ results) = readable results
readable (unstored ∷ results) = []
readable (table rows ∷ results) = rows ∷ readable results

abbrev pub all_text : List (List Row) → Bytes
all_text [] = []
all_text (rows ∷ others) = rows_text rows ++ all_text others

-- A new result has come and gone.
abbrev pub cycle : Store → Store
cycle s = record { next = suc s.next; live = s.live; cleared = s.next ∷ s.cleared }

-- From one store to the next, a new result was allocated and freed for each member of the list.
pub data Freed {A : Type 0} : List A → Store → Store → Type 0 where
  nothing : {s : Store} → Freed [] s s
  freed :
      {a : A} {others : List A} {s t : Store} → Freed others (cycle s) t → Freed (a ∷ others) s t

remove_newest : (n : ℕ) (live : List ℕ) → remove n (n ∷ live) ≡ live
remove_newest n live = ground arith

cycle_lem : (rows : List Row) (o : Output) → (read_table rows o).store ≡ cycle o.store
unfolding read_table store_result
cycle_lem rows o = rw (remove_newest o.store.next o.store.live)

drain-Freed : (results : List ResultSet) (s : Store) → Freed (tables results) s (drain results s)
unfolding drain tables store_result
drain-Freed [] s = nothing
drain-Freed (no_columns ∷ results) s = drain-Freed results s
drain-Freed (unstored ∷ results) s = drain-Freed results s
drain-Freed (table rows ∷ results) s =
    rw (remove_newest s.next s.live) (freed (drain-Freed results _))

-- What is allocated afterwards is what was before.
Freed-live : {A : Type 0} {list : List A} {s t : Store} → Freed list s t → t.live ≡ s.live
Freed-live nothing = refl
Freed-live (freed f) = Freed-live f

-- What is written, and what becomes of the store.
pub record Processed (results : List ResultSet) (o after : Output) : Type 0 where
  pub text : after.query_result ≡ o.query_result ++ all_text (readable results)
  pub all_freed : Freed (tables results) o.store after.store

process_results-Processed :
    (results : List ResultSet) (o : Output) → Processed results o (process_results results o)
unfolding process_results read_table store_result tables readable
process_results-Processed [] o = record {
  text = sym (append-nil o.query_result);
  all_freed = nothing;
}
process_results-Processed (no_columns ∷ results) o =
    let p = process_results-Processed results o in record { text = p.text; all_freed = p.all_freed }
process_results-Processed (unstored ∷ results) o = record {
  text = sym (append-nil o.query_result);
  all_freed = drain-Freed results o.store;
}
process_results-Processed (table rows ∷ results) o =
    let p = process_results-Processed results (read_table rows o) in
    record {
      text = p.text ∙ append_assoc o.query_result (rows_text rows) (all_text (readable results));
      all_freed = freed (
          subst (λ s. Freed (tables results) s (process_results results (read_table rows o)).store)
            (cycle_lem rows o) p.all_freed);
    }

-- processQueryOutput of the MySQL client writes the rows of the results in front of the first one
-- that cannot be stored, and nothing else; each result with a table, also behind that one, is
-- stored and freed exactly once in its order, and what is allocated afterwards is what was before.
pub process_query_output_lem :
    (results : List ResultSet) (o : Output)
    → let after = process_query_output results o in
      (after.query_result ≡ all_text (readable results))
      × Freed (tables results) o.store after.store
      × (after.store.live ≡ o.store.live)
unfolding process_query_output
process_query_output_lem results o =
    let p = process_results-Processed results (record o { query_result = [] }) in
    (p.text, p.all_freed, Freed-live p.all_freed)
