-- ===== src/Database/Columns.antt =====
-- RQuery turns rows into columns (winSockServer/src/RMysql.cpp).
use open_chat.Base.{
  ℕ, zero, suc, ◌+◌, ◌<◌, ◌≡◌, refl, sym, ap, ◌∙◌, Bool, true, false, List, [], ◌∷◌, ◌++◌, map,
  Option, none, some, get_elem?, get_elem?-middle, take, replicate, length, length-append,
  length-replicate, tabulate, eq_tabulate, append-nil, append_assoc, All, arith, ◌==◌, ◌&&◌, not,
  ◌≢◌, ◌⊎◌, inl, inr, Bool-cases, ◌≤◌,
}
use open_chat.Text.{Text}
use open_chat.Platform.{
  Log, mysql_query, mysql_store_result, mysql_fetch_row, mysql_num_fields, mysql_affected_rows,
  mysql_free_result,
}
use open_chat.Database.{
  ResultSet, Mysql, Result, field_text, resize, push_at, store_fields, fetch_rows, read_result,
  stored, rquery,
}

-- The text of field `i` of a row.
abbrev pub text_at : Option (Option Text) → Text
text_at none = []
text_at (some f) = field_text f

abbrev pub column : ℕ → List (List (Option Text)) → List Text
column i = map (λ row. text_at (get_elem? row i))

-- Each field of a row put behind its column.
abbrev add_fields : Result → List (Option Text) → Result
add_fields [] fs = []
add_fields (c ∷ cs) [] = c ∷ cs
add_fields (c ∷ cs) (f ∷ fs) = (c ++ field_text f ∷ []) ∷ add_fields cs fs

push_at-middle :
    (pre : Result) (c : List Text) (cs : Result) (v : Text)
    → push_at (pre ++ c ∷ cs) (length pre) v ≡ some (pre ++ (c ++ v ∷ []) ∷ cs)
unfolding push_at
push_at-middle [] c cs v = refl
push_at-middle (p ∷ pre) c cs v = rw (push_at-middle pre c cs v)

store_fields-add_fields :
    (n i : ℕ) (pre cs : Result) (rpre fs : List (Option Text))
    → length pre ≡ i
    → length rpre ≡ i
    → length cs ≡ n
    → length fs ≡ n
    → store_fields (rpre ++ fs) n i (pre ++ cs) ≡ some (pre ++ add_fields cs fs)
unfolding store_fields
store_fields-add_fields zero i pre [] rpre fs p r c f = refl
store_fields-add_fields zero i pre (c ∷ cs) rpre fs p r e f = absurd (omega arith)
store_fields-add_fields (suc n) i pre [] rpre fs p r e f = absurd (omega arith)
store_fields-add_fields (suc n) i pre (c ∷ cs) rpre [] p r e f = absurd (omega arith)
store_fields-add_fields (suc n) i pre (c ∷ cs) rpre (f ∷ fs) p r e q =
    let here : get_elem? (rpre ++ f ∷ fs) i ≡ some f = rw (← r) (get_elem?-middle rpre f fs) in
    let pushed : push_at (pre ++ c ∷ cs) i (field_text f)
        ≡ some (pre ++ (c ++ field_text f ∷ []) ∷ cs) =
      rw (← p) (push_at-middle pre c cs (field_text f)) in
    let x : List Text = c ++ field_text f ∷ [] in
    let rest =
      store_fields-add_fields n (i + 1) (pre ++ x ∷ []) cs (rpre ++ f ∷ []) fs
        (omega (arith, length-append pre (x ∷ []))) (omega (arith, length-append rpre (f ∷ [])))
        (omega arith) (omega arith) in
    rw (here, pushed)
      (rw
        (
          append_assoc rpre (f ∷ []) fs,
          append_assoc pre (x ∷ []) cs,
          append_assoc pre (x ∷ []) (add_fields cs fs),
        )
        at rest)

get_elem?-add_fields :
    (cs : Result) (fs : List (Option Text)) (i : ℕ) (c : List Text)
    → length fs ≡ length cs
    → get_elem? cs i ≡ some c
    → get_elem? (add_fields cs fs) i ≡ some (c ++ text_at (get_elem? fs i) ∷ [])
get_elem?-add_fields [] fs i c l e = absurd (cc)
get_elem?-add_fields (x ∷ cs) [] i c l e = absurd (omega arith)
get_elem?-add_fields (x ∷ cs) (f ∷ fs) zero c l e = let same : x ≡ c = cc in rw same
get_elem?-add_fields (x ∷ cs) (f ∷ fs) (suc i) c l e =
    get_elem?-add_fields cs fs i c (omega arith) e

length-add_fields : (cs : Result) (fs : List (Option Text)) → length (add_fields cs fs) ≡ length cs
length-add_fields [] fs = refl
length-add_fields (c ∷ cs) [] = refl
length-add_fields (c ∷ cs) (f ∷ fs) = ap suc (length-add_fields cs fs)

-- A table that holds, behind each column of `t`, the fields of the rows.
abbrev Extends : ℕ → Result → List (List (Option Text)) → Option (Result × Log) → Type 0
Extends n t rows o =
    (u : Result) × (h : Log) × (o ≡ some (u, h))
    × (length u ≡ n)
    × ((i : ℕ) (c : List Text) → get_elem? t i ≡ some c → get_elem? u i ≡ some (c ++ column i rows))

fetch_rows-Extends :
    (n : ℕ) (rows : List (List (Option Text))) (t : Result) (h : Log)
    → All (λ row. length row ≡ n) rows
    → length t ≡ n
    → Extends n t rows (fetch_rows n rows t h)
unfolding fetch_rows
fetch_rows-Extends n [] t h full len = (t, _, refl, len, λ i c e. e ∙ ap some (sym (append-nil c)))
fetch_rows-Extends n (row ∷ rows) t h full len =
    let first : store_fields row n 0 t ≡ some (add_fields t row) =
      store_fields-add_fields n 0 [] t [] row refl refl len full.0 in
    let (u, g, e, l, cols) =
      fetch_rows-Extends n rows (add_fields t row) (mysql_fetch_row ∷ h) full.1
        (length-add_fields t row ∙ len) in
    (
      u,
      g,
      rw first e,
      l,
      λ i c q.
          cols i (c ++ text_at (get_elem? row i) ∷ [])
            (get_elem?-add_fields t row i c (full.0 ∙ sym len) q)
          ∙ ap some (append_assoc c (text_at (get_elem? row i) ∷ []) (column i rows)),
    )

take-length-append :
    (n : ℕ) (xs ys : Result) → n ≤ length xs + length ys → length (take n (xs ++ ys)) ≡ n
take-length-append zero xs ys h = refl
take-length-append (suc n) [] [] h = absurd (omega arith)
take-length-append (suc n) [] (y ∷ ys) h = ap suc (take-length-append n [] ys (omega arith))
take-length-append (suc n) (x ∷ xs) ys h = ap suc (take-length-append n xs ys (omega arith))

length-resize : (n : ℕ) (result : Result) → length (resize n result) ≡ n
unfolding resize
length-resize n result =
    take-length-append n result (replicate n [])
      (omega (arith, length-replicate {0} {A = List Text} n []))

get_elem?-resize_nil :
    (n m i : ℕ) → i < n → n ≤ m → get_elem? (take n (replicate {A = List Text} m [])) i ≡ some []
get_elem?-resize_nil zero m i h k = absurd (omega arith)
get_elem?-resize_nil (suc n) zero i h k = absurd (omega arith)
get_elem?-resize_nil (suc n) (suc m) zero h k = refl
get_elem?-resize_nil (suc n) (suc m) (suc i) h k =
    get_elem?-resize_nil n m i (omega arith) (omega arith)

-- What a selecting RQuery returns for a result set: whether it throws, and the table.
module _ (db : Mysql) (query : Text) (h : Log) where
  -- A selecting query that succeeds fills an empty vector with the result set's columns: one for each
  -- field, and in each the texts of that field over all rows in their order, with "NULL" for a null. It
  -- says yes and does not throw, if every row has as many fields as the result set says.
  pub rquery_columns :
      (res : ResultSet)
      → db.query_ret h query ≡ 0
      → db.store_result (mysql_query query ∷ h) ≡ some res
      → All (λ row. length row ≡ res.num_fields) res.fetched
      → (g : Log) × (rquery db query [] true h
          ≡ some (true, tabulate res.num_fields (λ i. column i res.fetched), g))
  unfolding rquery stored read_result
  rquery_columns res fine got full =
      let n : ℕ = res.num_fields in
      let (u, g, e, l, cols) =
        fetch_rows-Extends n res.fetched (resize n [])
          (mysql_num_fields ∷ mysql_affected_rows ∷ mysql_store_result ∷ mysql_query query ∷ h) full
          (length-resize n []) in
      let table : u ≡ tabulate n (λ i. column i res.fetched) =
        eq_tabulate n u (λ i. column i res.fetched) l (λ i lt. cols i [] (first i lt)) in
      (mysql_free_result ∷ g, rw (fine, got, e, table))
    where
      first : (i : ℕ) → i < res.num_fields → get_elem? (resize res.num_fields []) i ≡ some []
      first i lt =
          unfold resize in get_elem?-resize_nil res.num_fields res.num_fields i lt (omega arith)

  -- A query that fails says no and leaves the vector as it was, and so does one whose result cannot be
  -- stored. A query that does not select says yes and leaves the vector as it was.
  pub rquery_unchanged :
      (result : Result) (select : Bool)
      → (db.query_ret h query ≢ 0)
        ⊎ ((select ≡ false) ⊎ (db.store_result (mysql_query query ∷ h) ≡ none))
      → (g : Log) × (rquery db query result select h
          ≡ some ((db.query_ret h query == 0) && not select, result, g))
  unfolding rquery stored
  rquery_unchanged result select (inl failed) =
      let e : (db.query_ret h query == 0) ≡ false = ground arith in (mysql_query query ∷ h, rw e)
  rquery_unchanged result select (inr why) = elim (Bool-cases (db.query_ret h query == 0)) [
    | inr failed ↦ (mysql_query query ∷ h, rw failed)
    | inl fine ↦ sent select why fine
  ]
    where
      sent :
          (s : Bool)
          → (s ≡ false) ⊎ (db.store_result (mysql_query query ∷ h) ≡ none)
          → (db.query_ret h query == 0) ≡ true
          → (g : Log) × (rquery db query result s h
              ≡ some ((db.query_ret h query == 0) && not s, result, g))
      sent false w fine = (mysql_query query ∷ h, rw fine)
      sent true (inl e) fine = absurd (cc)
      sent true (inr e) fine = (mysql_store_result ∷ mysql_query query ∷ h, rw (fine, e))
