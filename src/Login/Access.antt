-- ===== src/Login/Access.antt =====
-- Who is let in (winSockClient/PCClient/LoginDlg.cpp).
use open_chat.Base.{
  ℕ, suc, ◌<◌, ◌≡◌, ◌≢◌, ◌⊎◌, ◌↔◌, ◌-◌, ap, Bool, true, false, List, [], ◌∷◌, Option, none, some,
  get_elem?, length, tabulate, All, arith, Bool-cases, inl, inr,
}
use open_chat.Text.{Text, text_eq}
use open_chat.Text.Decimal.{text_eq_iff}
use open_chat.Platform.{Winsock, Log, edit_account, edit_password, get_window_text, mysql_query}
use open_chat.Database.{Mysql, ResultSet, Result}
use open_chat.Database.Columns.{column, text_at, rquery_columns, rquery_unchanged}
use open_chat.Login.{
  Outcome, accepted, rejected, throws, on_clicked_login, login_query, compare_account,
}

-- Whether the handler lets the user in.
abbrev pub LetsIn : Outcome → Type 0
LetsIn (accepted g) = Unit
LetsIn (rejected g) = ⊥
LetsIn throws = ⊥

-- The account of the first row, as the dialog compares it.
abbrev pub first_account : Winsock → List (List (Option Text)) → Option Text
first_account os [] = none
first_account os (row ∷ rows) = some (os.widen (text_at (get_elem? row 0)))

module _ (os : Winsock) (h : Log) where
  -- The account that the user has typed.
  abbrev pub account : Text
  account = os.window_text h edit_account

  -- The state in which the query is made, and the query.
  abbrev pub typed : Log
  typed = get_window_text edit_password ∷ get_window_text edit_account ∷ h

  abbrev pub query : Text
  query = login_query (os.narrow (os.window_text (get_window_text edit_account ∷ h) edit_password))

module _ (os : Winsock) (db : Mysql) (h : Log) where
  -- A query that fails, or whose result cannot be stored, makes the login handler throw: RQuery's answer is
  -- not looked at, and the vector is empty.
  pub login_throws :
      (db.query_ret (typed os h) (query os h) ≢ 0)
        ⊎ (db.store_result (mysql_query (query os h) ∷ typed os h) ≡ none)
      → on_clicked_login os db h ≡ throws
  unfolding on_clicked_login compare_account
  login_throws failed =
      let (g, e) = rquery_unchanged db (query os h) (typed os h) [] true (why failed) in
      rw (e, compare_account)
    where
      why :
          (db.query_ret (typed os h) (query os h) ≢ 0)
            ⊎ (db.store_result (mysql_query (query os h) ∷ typed os h) ≡ none)
          → (db.query_ret (typed os h) (query os h) ≢ 0)
            ⊎ ((true ≡ false) ⊎ (db.store_result (mysql_query (query os h) ∷ typed os h) ≡ none))
      why (inl f) = inl f
      why (inr f) = inr (inr f)

  compare_account-first :
      (rows : List (List (Option Text))) (done : Bool) (columns : Result) (g : Log)
      → let r = compare_account os db (account os h) (some (done, column 0 rows ∷ columns, g)) in
        (r ≢ throws) × (LetsIn r ↔ (first_account os rows ≡ some (account os h)))
  unfolding compare_account
  compare_account-first [] done columns g = (λ e. cc, (λ l. absurd l, λ e. cc))
  compare_account-first (row ∷ rows) done columns g =
      elim (Bool-cases (text_eq (os.widen (text_at (get_elem? row 0))) (account os h))) [
        | inl same ↦
            rw same (λ e. cc, (λ _. ap some ((text_eq_iff _ (account os h)).0 same), λ _. tt))
        | inr other ↦ rw other (
          λ e. cc,
          (
            λ l. absurd l,
            λ e.
                let hit =
                  (text_eq_iff (os.widen (text_at (get_elem? row 0))) (account os h)).1 (cc) in
                cc hit,
          ),
        )
      ]

  -- If the query succeeds with at least one column, the login handler does not throw, and it lets the
  -- user in exactly if there is a first row whose account is the one typed, whatever
  -- the later rows are. Every row has as many fields as the result set says.
  pub login_first_row :
      (res : ResultSet)
      → db.query_ret (typed os h) (query os h) ≡ 0
      → db.store_result (mysql_query (query os h) ∷ typed os h) ≡ some res
      → 0 < res.num_fields
      → All (λ row. length row ≡ res.num_fields) res.fetched
      → (on_clicked_login os db h ≢ throws)
        × (LetsIn (on_clicked_login os db h) ↔ (first_account os res.fetched ≡ some (account os h)))
  unfolding on_clicked_login
  login_first_row res fine got some_column full =
      let (g, e) = rquery_columns db (query os h) (typed os h) res fine got full in
      rw (e, cons_tabulate) (compare_account-first res.fetched true _ g)
    where
      cons_tabulate :
          tabulate res.num_fields (λ i. column i res.fetched)
          ≡ column 0 res.fetched ∷ tabulate (res.num_fields - 1) (λ i. column (suc i) res.fetched)
      cons_tabulate =
          let n : res.num_fields ≡ suc (res.num_fields - 1) = omega arith in
          ap (λ (k : ℕ). tabulate k (λ i. column i res.fetched)) n
