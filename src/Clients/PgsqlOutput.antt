-- ===== src/Clients/PgsqlOutput.antt =====
-- The texts of `PgsqlDatabase` in src/cPgsqlDatabase.cpp.
use pquery.Prelude.{
  ℕ, List, [], ◌∷◌, ◌++◌, Option, none, some, ltb, ◌==◌, if◌then◌else◌, Bytes, codes, is_empty,
  starts_with, drop, ℤ, pos,
}
use pquery.IniReader.Values.{extract_int}
use pquery.WorkerConfig.Params.{WorkerParams}
use pquery.WorkerConfig.Checks.{to_string, cast_to}

-- The values of a row; that of a NULL is empty.
abbrev pub Values : Type 0
Values = List Bytes

abbrev value_text : Bytes → Bytes
value_text value = if is_empty value then codes "#EMPTY# " else value ++ codes " "

-- The loop over the columns.
unfoldable pub values_text : Values → Bytes
values_text [] = []
values_text (value ∷ values) = value_text value ++ values_text values

-- The loop over the rows.
unfoldable pub tuples_text : List Values → Bytes
unfolding values_text
tuples_text [] = []
tuples_text (values ∷ tuples) = values_text values ++ (codes "\n" ++ tuples_text tuples)

-- `processQueryOutput`, from the result that the object has and the `queryResult` before.
unfoldable pub process_query_output : Option (List Values) → Bytes → Bytes
unfolding tuples_text
process_query_output none query_result = query_result
process_query_output (some tuples) query_result = tuples_text tuples

unfoldable pub number : ℕ → Bytes
unfolding to_string
number n = to_string (pos n)

-- The string that `connect` gives to `PQconnectdb`.
unfoldable pub conninfo : WorkerParams → Bytes
unfolding number
conninfo p =
    codes "host="
    ++ (p.address
        ++ (codes " user="
            ++ (p.username
                ++ (codes " password="
                    ++ (p.password
                        ++ (codes " dbname="
                            ++ (p.database
                                ++ (codes " port="
                                    ++ (number p.port
                                        ++ (if ltb 0 p.connect_timeout_secs
                                            then codes " connect_timeout="
                                              ++ number p.connect_timeout_secs
                                            else []))))))))))

-- `find_first_of` of a newline with `substr(0, found)`; `none` where there is none.
unfoldable pub first_line : Bytes → Option Bytes
first_line [] = none
first_line (c ∷ text) =
    let rest = first_line text in
    if c == b'\n' then some [] else elim rest [ none ↦ none | some line ↦ some (c ∷ line) ]

unfoldable pub without_prefix : Bytes → Bytes
without_prefix text = if starts_with (codes "ERROR") text then drop 5 text else text

abbrev pub cut : Option Bytes → Bytes → Option Bytes → Bytes
cut status text none = text
cut none text (some line) = line
cut (some status) text (some line) = status ++ line

-- `getErrorString`, from what `PQerrorMessage` returns, and the name of the status where there is a
-- result.
unfoldable pub get_error_string : Option Bytes → Bytes → Bytes
unfolding first_line without_prefix starts_with
get_error_string status message =
    let text = without_prefix message in cut status text (first_line text)

-- `getHostInfo`.
unfoldable pub get_host_info : Bytes → Bytes → Bytes
get_host_info host port = host ++ (codes " port " ++ port)

-- `getServerVersion`: the value that the query gives, or `none` where it has no tuples.
unfoldable pub get_server_version : Option Bytes → ℕ → Bytes
unfolding number
get_server_version (some value) server_version = value
get_server_version none server_version = codes "PostgreSQL Server " ++ number server_version

abbrev as_unsigned : Option (ℤ × Bytes) → Option ℕ
as_unsigned none = none
as_unsigned (some (n, rest)) = some (cast_to (18446744073709551616) n)

-- `getAffectedRows`, from what `PQcmdTuples` returns where there is a result. `std::stoll` takes the
-- number that the extraction of an `int64_t` takes, and throws where that fails: then it is `none`.
unfoldable pub get_affected_rows : Option Bytes → Option ℕ
unfolding extract_int cast_to
get_affected_rows none = some 0
get_affected_rows (some affected_rows) =
    if is_empty affected_rows then some 0 else as_unsigned (extract_int affected_rows)
