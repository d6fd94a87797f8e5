-- ===== src/Database/Tests.antt =====
-- RQuery (winSockServer/src/RMysql.cpp) on concrete inputs.
use open_chat.Base.{◌≡◌, refl, true, [], ◌∷◌, some, none, tabulate}
use open_chat.Text.{codes}
use open_chat.Platform.{Log}
use open_chat.Database.{ResultSet, Mysql, rquery}
use open_chat.Database.Columns.{column, rquery_columns}

abbrev two_users : ResultSet
two_users = record {
  num_fields = 2;
  fetched =
      (some (codes "ada") ∷ some (codes "50001") ∷ []) ∷ (some (codes "bob") ∷ none ∷ []) ∷ [];
}

abbrev answering : Mysql
answering = record { query_ret = λ h q. 0; store_result = λ h. some two_users }

rquery_columns_example :
    (g : Log) × (rquery answering (codes "select account,port from info") [] true []
      ≡ some (true, tabulate 2 (λ i. column i two_users.fetched), g))
rquery_columns_example =
    rquery_columns answering (codes "select account,port from info") [] two_users refl refl
      (refl, (refl, tt))
