-- ===== src/Server/Input/Blocks.antt =====
-- The fixed blocks that SendClientMsg and OnBtn_File send (winSockServer/PCServer/ServerDlg.cpp).
use open_chat.Base.{
  ℕ, zero, suc, ◌+◌, ◌-◌, ◌≡◌, ◌⊎◌, ◌<◌, ◌≤◌, refl, sym, ap, ◌∙◌, List, [], ◌∷◌, ◌++◌, map, length,
  length-append, length-drop, take, drop, modify, Option, some, none, reverse, reverse-cons,
  append_assoc, Bool-cases, inl, inr, arith, leb, ℤ, pos, is_minus_one, if◌then◌else◌,
}
use open_chat.Text.{Text}
use open_chat.ClientItem.{ClientItem}
use open_chat.Platform.{Winsock, Log, send}
use open_chat.Platform.ListCtrl.{ListCtrl}
use open_chat.Server.State.{App, with_log}
use open_chat.Server.ClientView.{add_info}
use open_chat.Server.Input.{
  send_error, line_block, fixed_block, send_all, recipients, report, send_client_msg, send_block,
}

module _ {ℓ} {A : Type ℓ} where
  modify-take :
      (k : ℕ) (xs : List A) (f : A → A) (v : A)
      → ((x : A) → f x ≡ v)
      → k < length xs
      → modify (take (suc k) xs) k f ≡ take k xs ++ v ∷ []
  modify-take zero [] f v h lt = absurd (omega arith)
  modify-take zero (x ∷ xs) f v h lt = rw (h x) refl
  modify-take (suc k) [] f v h lt = absurd (omega arith)
  modify-take (suc k) (x ∷ xs) f v h lt = ap (◌∷◌ x) (modify-take k xs f v h (omega arith))

  take-append :
      (n : ℕ) (xs ys : List A) → length xs ≤ n → take n (xs ++ ys) ≡ xs ++ take (n - length xs) ys
  take-append n [] ys h = let e : n - 0 ≡ n = omega arith in rw e refl
  take-append zero (x ∷ xs) ys h = absurd (omega arith)
  take-append (suc n) (x ∷ xs) ys h =
      let e : suc n - suc (length xs) ≡ n - length xs = omega arith in
      rw e (ap (◌∷◌ x) (take-append n xs ys (omega arith)))

  length-take : (n : ℕ) (xs : List A) → n ≤ length xs → length (take n xs) ≡ n
  length-take zero xs h = refl
  length-take (suc n) [] h = absurd (omega arith)
  length-take (suc n) (x ∷ xs) h = ap suc (length-take n xs (omega arith))

-- A line that WideCharToMultiByte turns into at most 511 bytes, its terminator counted, is sent as a
-- block of 512 bytes: those bytes, then what the array on the stack held before, and a line feed as
-- the last byte.
pub line_block_lem :
    (converted stack : List ℕ)
    → length stack ≡ 512
    → length converted ≤ 511
    → (line_block converted stack
        ≡ converted ++ (take (511 - length converted) (drop (length converted) stack) ++ 10 ∷ []))
      × (length (line_block converted stack) ≡ 512)
unfolding line_block
line_block_lem converted stack full fits =
    let old = drop (length converted) stack in
    let l : length old ≡ 512 - length converted =
      omega (arith, length-drop (length converted) stack) in
    let block =
      modify-take 511 (converted ++ old) (λ _. 10) 10 (λ x. refl)
        (omega (arith, length-append converted old))
      ∙ ap (λ (t : List ℕ). t ++ 10 ∷ []) (take-append 511 converted old fits)
      ∙ append_assoc converted (take (511 - length converted) old) (10 ∷ []) in
    (
      block,
      ap length block
          ∙ omega (
            arith,
            length-append converted (take (511 - length converted) old ++ 10 ∷ []),
            length-append (take (511 - length converted) old) (10 ∷ []),
            length-take (511 - length converted) old (omega arith),
          ),
    )

-- The history after a block has been sent once to each of the clients, in order.
abbrev pub sent : List ℕ → List ClientItem → Log → Log
sent block cs h = reverse (map (λ c. send c.c_socket block) cs) ++ h

sent-cons :
    (block : List ℕ) (c : ClientItem) (cs : List ClientItem) (h : Log)
    → sent block cs (send c.c_socket block ∷ h) ≡ sent block (c ∷ cs) h
sent-cons block c cs h =
    rw (reverse-cons (send c.c_socket block) (map (λ d. send d.c_socket block) cs)) (
      sym (
        append_assoc (reverse (map (λ d. send d.c_socket block) cs)) (send c.c_socket block ∷ [])
          h))

-- The loop over the clients looks at the answer to its last `send`.
send_all-last :
    (os : Winsock) (block : List ℕ) (cs : List ClientItem) (c : ClientItem) (ret : ℤ) (h : Log)
    → send_all os block (cs ++ c ∷ []) ret h
      ≡ (os.send_ret (sent block cs h) c.c_socket block, sent block (cs ++ c ∷ []) h)
unfolding send_all
send_all-last os block [] c ret h = refl
send_all-last os block (d ∷ cs) c ret h =
    send_all-last os block cs c (os.send_ret h d.c_socket block) (send d.c_socket block ∷ h)
    ∙ rw (sent-cons block d cs h, sent-cons block d (cs ++ c ∷ []) h) refl

last-cases {ℓ} :
    {A : Type ℓ} (xs : List A) → (xs ≡ []) ⊎ ((ys : List A) × (y : A) × (xs ≡ ys ++ y ∷ []))
last-cases [] = inl refl
last-cases (x ∷ xs) = elim (last-cases xs) [
  | inl e ↦ inr ([], x, ap (◌∷◌ x) e)
  | inr (ys, y, e) ↦ inr (x ∷ ys, y, ap (◌∷◌ x) e)
]

fixed_block-cases :
    (msg : Text)
    → ((length msg < 255) × (fixed_block msg ≡ none))
      ⊎ ((255 ≤ length msg) × (fixed_block msg ≡ some (take 256 (msg ++ 0 ∷ []))))
unfolding fixed_block
fixed_block-cases msg = elim (Bool-cases (leb 256 (length msg + 1))) [
  | inl long ↦ inr (ground arith, rw long refl)
  | inr short ↦ inl (ground arith, rw short refl)
]

module _ (os : Winsock) {lc : ListCtrl} where
  send_block-short :
      (cs : List ClientItem) (c : ClientItem) (a : App lc)
      → send_block os none (cs ++ c ∷ []) a ≡ none
  unfolding send_block
  send_block-short [] c a = refl
  send_block-short (d ∷ cs) c a = refl

  send_block-last :
      (block : List ℕ) (cs : List ClientItem) (c : ClientItem) (a : App lc)
      → send_block os (some block) (cs ++ c ∷ []) a
        ≡ some (
            with_log a (
              report os (
                os.send_ret (sent block cs a.log) c.c_socket block,
                sent block (cs ++ c ∷ []) a.log,
              )))
  unfolding send_block send_all
  send_block-last block [] c a = refl
  send_block-last block (d ∷ cs) c a =
      ap (λ (r : ℤ × Log). some (with_log a (report os r)))
        (send_all-last os block (d ∷ cs) c (pos 0) a.log)

  -- SendClientMsg with nobody to send to changes nothing. Otherwise it reads past its string if this has
  -- fewer than 255 characters; and with 255 characters or more it sends the first 256 bytes of the string
  -- and its terminator once to each recipient, in order, and reports an error exactly if the last of these
  -- sends answers -1, whatever the others answer.
  pub send_client_msg_lem :
      (msg : Text) (client : Option ClientItem) (a : App lc)
      → let block = take 256 (msg ++ 0 ∷ []) in
        ((recipients client a ≡ []) × (send_client_msg os msg client a ≡ some a))
        ⊎ ((cs : List ClientItem) × (c : ClientItem) × (recipients client a ≡ cs ++ c ∷ [])
            × (((length msg < 255) × (send_client_msg os msg client a ≡ none))
                ⊎ ((255 ≤ length msg)
                    × (send_client_msg os msg client a
                        ≡ some (
                            with_log a (
                              let h = sent block (cs ++ c ∷ []) a.log in
                              if is_minus_one (os.send_ret (sent block cs a.log) c.c_socket block)
                              then add_info os send_error h
                              else h))))))
  unfolding send_client_msg send_block
  send_client_msg_lem msg client a = elim (last-cases (recipients client a)) [
    | inl nobody ↦ inl (nobody, rw nobody refl)
    | inr (cs, c, e) ↦ inr (
      cs,
      c,
      e,
      elim (fixed_block-cases msg) [
        | inl (short, none_sent) ↦ inl (short, rw (e, none_sent) (send_block-short cs c a))
        | inr (long, block) ↦ inr (long, rw (e, block) (send_block-last _ cs c a))
      ],
    )
  ]
