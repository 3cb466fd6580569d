-- ===== src/Clients/MysqlOutput.antt =====
-- The output of a query: `MysqlDatabase::processQueryOutput` of src/cMysqlDatabase.cpp, over a store
-- of the results that libmysqlclient has allocated.
use pquery.Prelude.{
  ℕ, ◌+◌, List, [], ◌∷◌, ◌++◌, Option, none, some, ◌==◌, ltb, if◌then◌else◌, Bytes, codes,
}
use pquery.Clients.Store.{Store, allocate, release}

-- A row has a value for each column, and `none` where it is NULL.
abbrev pub Row : Type 0
Row = List (Option Bytes)

-- A result on the connection: a statement that has no columns, columns that `mysql_store_result`
-- fails to store, or a table.
pub data ResultSet : Type 0 where
  no_columns unstored : ResultSet
  table : List Row → ResultSet

-- The object's `queryResult`, and the store.
pub record Output : Type 0 where
  pub query_result : Bytes
  pub store : Store

unfoldable pub cell_text : Option Bytes → Bytes
cell_text none = codes "NULL"
cell_text (some []) = codes "EMPTY"
cell_text (some (c ∷ value)) = c ∷ value

-- The loop over the columns, from column i.
unfoldable pub cells_text : ℕ → Row → Bytes
unfolding cell_text
cells_text i [] = []
cells_text i (cell ∷ row) =
    (if ltb 0 i then codes "\t" else []) ++ (cell_text cell ++ cells_text (i + 1) row)

-- The loop over the rows.
unfoldable pub rows_text : List Row → Bytes
unfolding cells_text
rows_text [] = []
rows_text (row ∷ rows) = cells_text 0 row ++ (codes "\n" ++ rows_text rows)

-- `mysql_store_result`: a null pointer, or a new result.
unfoldable pub store_result : ResultSet → Store → Option ℕ × Store
store_result no_columns s = (none, s)
store_result unstored s = (none, s)
store_result (table rows) s = (some s.next, allocate s)

abbrev pub free_if : Option ℕ × Store → Store
free_if (none, s) = s
free_if (some result, s) = release result s

-- The inner loop over the results that are pending.
unfoldable pub drain : List ResultSet → Store → Store
unfolding store_result
drain [] s = s
drain (pending ∷ following) s = drain following (free_if (store_result pending s))

-- A table is stored, written out and freed.
unfoldable pub read_table : List Row → Output → Output
unfolding store_result rows_text
read_table rows o = record {
  query_result = o.query_result ++ rows_text rows;
  store = free_if (store_result (table rows) o.store);
}

-- The outer loop. The list has the first result of the query, and those that `mysql_next_result`
-- gives, up to where it does not return 0.
unfoldable pub process_results : List ResultSet → Output → Output
unfolding drain read_table
process_results [] o = o
process_results (no_columns ∷ following) o = process_results following o
process_results (unstored ∷ following) o = record o { store = drain following o.store }
process_results (table rows ∷ following) o = process_results following (read_table rows o)

unfoldable pub process_query_output : List ResultSet → Output → Output
unfolding process_results
process_query_output results o = process_results results (record o { query_result = [] })

abbrev pub no_rows_affected : ℕ
no_rows_affected = 18446744073709551615

-- `getAffectedRows`, from what `mysql_affected_rows` returns.
unfoldable pub get_affected_rows : ℕ → ℕ
get_affected_rows affected = if affected == no_rows_affected then 0 else affected
