-- ===== src/Database.antt =====
-- class R::RMysql (winSockServer/src/RMysql.cpp and winSockServer/include/RMysql.h). The MySQL client
-- library is a parameter: its answers are functions of the history of calls.
pub mod Columns
mod Tests
use open_chat.Base.{
  ℕ, zero, suc, ◌+◌, Bool, true, false, not, List, [], ◌∷◌, ◌++◌, Option, none, some, get_elem?,
  take, replicate, length, and_then, ◌==◌, if◌then◌else◌,
}
use open_chat.Text.{Text, codes}
use open_chat.Platform.{
  Log, mysql_init, mysql_connect, mysql_close, mysql_query, mysql_store_result, mysql_affected_rows,
  mysql_num_fields, mysql_fetch_row, mysql_free_result,
}

-- A MYSQL_RES: the number of its fields, and the rows that mysql_fetch_row hands out; `none` is NULL.
pub record ResultSet : Type 0 where
  pub num_fields : ℕ
  pub fetched : List (List (Option Text))

pub record Mysql : Type 0 where
  pub query_ret : Log → Text → ℕ
  pub store_result : Log → Option ResultSet

-- RESULT: a vector of columns.
abbrev pub Result : Type 0
Result = List (List Text)

-- RMysql, without the connection, which the library keeps.
pub record RMysql : Type 0 where
  pub ip : Text
  pub name : Text
  pub password : Text
  pub database : Text

-- RMysql::init; a failure to connect is ignored.
unfoldable pub init : RMysql → Log → Log
init m h = mysql_connect m.ip m.name m.password m.database 3306 ∷ mysql_init ∷ h

-- The constructor.
unfoldable pub rmysql : (ip name password database : Text) → Log → RMysql × Log
unfolding init
rmysql ip name password database h =
    let m : RMysql = record { ip = ip; name = name; password = password; database = database } in
    (m, init m h)

-- The destructor.
unfoldable pub close : Log → Log
close h = mysql_close ∷ h

-- What RQuery stores for a field.
abbrev pub field_text : Option Text → Text
field_text none = codes "NULL"
field_text (some t) = t

-- `vector::resize`
unfoldable pub resize : ℕ → Result → Result
resize n result = take n (result ++ replicate n [])

-- `result.at(i).push_back(v)`; `none` is the exception of `at`.
unfoldable pub push_at : Result → ℕ → Text → Option Result
push_at [] i v = none
push_at (c ∷ cs) zero v = some ((c ++ v ∷ []) ∷ cs)
push_at (c ∷ cs) (suc i) v = and_then (push_at cs i v) (λ t. some (c ∷ t))

-- The inner loop of RQuery from field `i`, with `n` fields left; `none` is also a read past the row.
unfoldable pub store_fields : List (Option Text) → ℕ → ℕ → Result → Option Result
store_fields row zero i result = some result
store_fields row (suc n) i result =
    and_then (get_elem? row i)
      (λ f. and_then (push_at result i (field_text f)) (store_fields row n (i + 1)))

-- The outer loop of RQuery.
unfoldable pub fetch_rows : ℕ → List (List (Option Text)) → Result → Log → Option (Result × Log)
fetch_rows columns [] result h = some (result, mysql_fetch_row ∷ h)
fetch_rows columns (row ∷ rows) result h =
    and_then (store_fields row columns 0 result)
      (λ t. fetch_rows columns rows t (mysql_fetch_row ∷ h))

-- RQuery after mysql_store_result has returned a result set.
unfoldable pub read_result : ResultSet → Result → Log → Option (Bool × Result × Log)
read_result res result h =
    and_then
      (fetch_rows res.num_fields res.fetched (resize res.num_fields result)
        (mysql_num_fields ∷ mysql_affected_rows ∷ h))
      (λ (t : Result × Log). some (true, t.0, mysql_free_result ∷ t.1))

-- RQuery after a successful query with `select`.
unfoldable pub stored : Option ResultSet → Result → Log → Option (Bool × Result × Log)
stored none result h = some (false, result, h)
stored (some res) result h = read_result res result h

-- RMysql::RQuery: its result, the vector that it fills, and the history; `none` is an exception.
unfoldable pub rquery : Mysql → Text → Result → Bool → Log → Option (Bool × Result × Log)
rquery db query result select h =
    let h' = mysql_query query ∷ h in
    if not (db.query_ret h query == 0)
    then some (false, result, h')
    else if not select
    then some (true, result, h')
    else stored (db.store_result h') result (mysql_store_result ∷ h')
