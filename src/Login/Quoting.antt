-- ===== src/Login/Quoting.antt =====
-- What the text of the register query says of the account and the password
-- (winSockClient/PCClient/LoginDlg.cpp, GetQueryString in winSockClient/PCClient/ClientDlg.h).
use open_chat.Base.{
  ℕ, ◌≡◌, ◌≢◌, ◌↔◌, refl, sym, ap, ap₂, ◌∙◌, List, [], ◌∷◌, ◌++◌, append_assoc, All,
}
use open_chat.Text.{Text, codes, to_string}
use open_chat.Client.Dialog.{get_query_string}
use open_chat.Login.{register_query}

abbrev pub NoQuote : Text → Type 0
NoQuote = All (λ c. c ≢ 39)

tails {ℓ} : {A : Type ℓ} {x y : A} {xs ys : List A} → x ∷ xs ≡ y ∷ ys → (x ≡ y) × (xs ≡ ys)
tails e = (cc, cc)

cancel : (xs : Text) {ys zs : Text} → xs ++ ys ≡ xs ++ zs → ys ≡ zs
cancel [] e = e
cancel (x ∷ xs) e = cancel xs (tails e).1

-- Texts without a quote that one follows are told apart by where the quote stands.
up_to_quote :
    (s t : Text) {u v : Text}
    → NoQuote s
    → NoQuote t
    → s ++ 39 ∷ u ≡ t ++ 39 ∷ v
    → (s ≡ t) × (u ≡ v)
up_to_quote [] [] hs ht e = (refl, (tails e).1)
up_to_quote [] (d ∷ t) hs ht e = absurd (ht.0 (sym (tails e).0))
up_to_quote (c ∷ s) [] hs ht e = absurd (hs.0 (tails e).0)
up_to_quote (c ∷ s) (d ∷ t) hs ht e =
    let (first, rest) = tails e in
    let (same, left) = up_to_quote s t hs.1 ht.1 rest in (ap₂ ◌∷◌ first same, left)

-- The query up to the account, and from the quote behind it.
head_of : (port socket : ℕ) → Text → Text
head_of port socket rest =
    codes "insert into info(ip,port,socket,account,password) values"
    ++ (codes "("
        ++ (get_query_string (codes "127.0.0.1")
            ++ (codes ","
                ++ (get_query_string (to_string port)
                    ++ (codes ","
                        ++ (get_query_string (to_string socket)
                            ++ (codes "," ++ (codes "'" ++ rest))))))))

register_query_split :
    (port socket : ℕ) (account password : Text)
    → register_query port socket account password
      ≡ head_of port socket (account ++ 39 ∷ (codes ",'" ++ (password ++ 39 ∷ codes ")")))
unfolding register_query head_of get_query_string
register_query_split port socket account password = ap (head_of port socket) (
    append_assoc account (codes "'") (codes "," ++ (get_query_string password ++ codes ")"))
    ∙ ap (λ (t : Text). account ++ 39 ∷ (codes ",'" ++ t))
        (append_assoc password (codes "'") (codes ")")))

head_of_cancel :
    (port socket : ℕ) {s t : Text} → head_of port socket s ≡ head_of port socket t → s ≡ t
unfolding head_of
head_of_cancel port socket e = cancel (codes "'") (
    cancel (codes ",") (
      cancel (get_query_string (to_string socket)) (
        cancel (codes ",") (
          cancel (get_query_string (to_string port)) (
            cancel (codes ",") (
              cancel (get_query_string (codes "127.0.0.1")) (
                cancel (codes "(") (
                  cancel (codes "insert into info(ip,port,socket,account,password) values")
                    e))))))))

-- Two registrations with the same port and socket, whose accounts and passwords have no quote, send the same
-- text to the server exactly if the account and the password are the same. With a quote this fails, since
-- nothing is escaped: what stands behind `','` in the account is sent as if it began the password, so that
-- two registrations that differ send one text.
pub register_query_iff :
    (port socket : ℕ) (a p b q : Text)
    → NoQuote a
    → NoQuote p
    → NoQuote b
    → NoQuote q
    → ((register_query port socket a p ≡ register_query port socket b q) ↔ ((a ≡ b) × (p ≡ q)))
      × (register_query port socket (a ++ (codes "','" ++ b)) p
          ≡ register_query port socket a (b ++ (codes "','" ++ p)))
register_query_iff port socket a p b q ha hp hb hq = (
  (same, λ (e, f). ap₂ (register_query port socket) e f),
  register_query_split port socket (a ++ (codes "','" ++ b)) p
      ∙ ap (head_of port socket) moved
      ∙ sym (register_query_split port socket a (b ++ (codes "','" ++ p))),
)
  where
    same : register_query port socket a p ≡ register_query port socket b q → (a ≡ b) × (p ≡ q)
    same e =
        let (first, rest) = up_to_quote a b ha hb (
          head_of_cancel port socket (
            sym (register_query_split port socket a p)
            ∙ e
            ∙ register_query_split port socket b q)) in
        (first, (up_to_quote p q hp hq (cancel (codes ",'") rest)).0)

    moved :
        (a ++ (codes "','" ++ b)) ++ 39 ∷ (codes ",'" ++ (p ++ 39 ∷ codes ")"))
        ≡ a ++ 39 ∷ (codes ",'" ++ ((b ++ (codes "','" ++ p)) ++ 39 ∷ codes ")"))
    moved =
        append_assoc a (codes "','" ++ b) (39 ∷ (codes ",'" ++ (p ++ 39 ∷ codes ")")))
        ∙ ap (λ (t : Text). a ++ (codes "','" ++ t))
            (sym (append_assoc b (codes "','" ++ p) (39 ∷ codes ")")))
