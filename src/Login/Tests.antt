-- ===== src/Login/Tests.antt =====
-- The login dialog (winSockClient/PCClient/LoginDlg.cpp) on concrete inputs.
use open_chat.Base.{◌≡◌, ◌≢◌, ◌↔◌, inr, refl, [], ◌∷◌, ◌++◌, some, none, arith}
use open_chat.Text.{codes}
use open_chat.Platform.Sample.{friendly}
use open_chat.Database.{ResultSet, Mysql}
use open_chat.Login.{on_clicked_login, throws, register_query}
use open_chat.Login.Access.{LetsIn, first_account, account, login_first_row, login_throws}
use open_chat.Login.Quoting.{register_query_iff}

-- Two accounts with the password that is typed; the second is the one typed.
abbrev users : ResultSet
users = record {
  num_fields = 1;
  fetched = (some (codes "ada") ∷ []) ∷ (some (codes "hello") ∷ []) ∷ [];
}

abbrev answering : Mysql
answering = record { query_ret = λ h q. 0; store_result = λ h. some users }

abbrev refusing : Mysql
refusing = record { query_ret = λ h q. 1; store_result = λ h. none }

login_first_row_example :
    (on_clicked_login friendly answering [] ≢ throws)
    × (LetsIn (on_clicked_login friendly answering [])
        ↔ (first_account friendly users.fetched ≡ some (account friendly [])))
login_first_row_example =
    login_first_row friendly answering [] users refl refl (omega arith) (refl, (refl, tt))

login_throws_example : on_clicked_login friendly refusing [] ≡ throws
login_throws_example = login_throws friendly refusing [] (inr refl)

register_query_iff_example :
    ((register_query 50001 4 (codes "ada") (codes "secret")
        ≡ register_query 50001 4 (codes "bob") (codes "hidden"))
      ↔ ((codes "ada" ≡ codes "bob") × (codes "secret" ≡ codes "hidden")))
    × (register_query 50001 4 (codes "ada" ++ (codes "','" ++ codes "bob")) (codes "secret")
        ≡ register_query 50001 4 (codes "ada") (codes "bob" ++ (codes "','" ++ codes "secret")))
register_query_iff_example =
    register_query_iff 50001 4 (codes "ada") (codes "secret") (codes "bob") (codes "hidden")
      (ground arith) (ground arith) (ground arith) (ground arith)
