-- ===== src/Server/System/Turns.antt =====
-- Each turn of a thread, and each handler but OnBtn_Close, keeps the list of clients in step with
-- TcpServer's vector (winSockServer/).
use open_chat.Base.{
  ℕ, zero, suc, ◌-◌, ◌<◌, ◌^◌, ◌≡◌, refl, ap, ◌∙◌, Bool, false, List, [], ◌∷◌, map, modify, ◌==◌,
  Option-cases, inl, inr, arith, if_ind, is_positive,
}
use open_chat.Text.{Text, c_string, text_eq}
use open_chat.ClientItem.{ClientItem}
use open_chat.Platform.{Winsock, SockAddr, read}
use open_chat.Platform.ListCtrl.{ListCtrl, Row, put_check}
use open_chat.Server.State.{App, max_buff, with_list}
use open_chat.Server.Tcp.{init, select_socket, set_port}
use open_chat.Server.Threads.{
  Turn, goes_on, ends, fault, accept_turn, accept_body, admit, client_turn, show_received,
  start_server, received_in,
}
use open_chat.Server.Threads.Effects.{listed, admit-listed, clients-init}
use open_chat.Server.Buttons.{on_btn_open, on_timer, timer_count, timer_client}
use open_chat.Server.Input.{
  Message, key_escape, key_return, key_other, no_key, pre_translate_message, press_return,
  on_btn_file, FileInput, chosen_path,
}
use open_chat.Server.System.InSync.{
  entry, Documented, InSync, InSync-suc, InSync-frame, disconnect-InSync, listed-InSync,
}

-- A claim about the state that a turn leaves, if it leaves one.
abbrev pub OnTurn {ℓ κ} : {A : Type ℓ} → (A → Type κ) → Turn A → Type κ
OnTurn P (goes_on a) = P a
OnTurn P (ends a) = P a
OnTurn P fault = Unit

pub map-entry-check :
    (rs : List Row) (i : ℕ) (b : Bool) → map entry (modify rs i (put_check b)) ≡ map entry rs
map-entry-check [] i b = refl
map-entry-check (r ∷ rs) zero b = refl
map-entry-check (r ∷ rs) (suc i) b = ap (◌∷◌ (entry r)) (map-entry-check rs i b)

module _ (os : Winsock) {lc : ListCtrl} (d : Documented os) where
  admit-InSync :
      {n : ℕ} (addr : SockAddr) (sock : ℕ) (a : App lc)
      → n < 2 ^ 32 - 1
      → InSync os n a
      → OnTurn (InSync os (suc n)) (admit os addr sock a)
  admit-InSync addr sock a lt s =
      rw (admit-listed os addr sock a (omega (arith, s.few))) (
        InSync-frame os {a = listed os addr sock a} refl refl (listed-InSync os d addr sock a lt s))

  accept_body-InSync :
      {n : ℕ} (a : App lc)
      → n < 2 ^ 32 - 1
      → InSync os n a
      → OnTurn (InSync os (suc n)) (accept_body os a)
  unfolding accept_body
  accept_body-InSync {n} a lt s =
      let (ready, h) = select_socket os a.server.lis_sock 100 read a.log in
      let r = os.accept_ret h a.server.lis_sock in
      if_ind (OnTurn (InSync os (suc n))) ready
        (λ _.
          if_ind (OnTurn (InSync os (suc n))) (r.sock == os.invalid_socket)
            (λ _. InSync-suc os (InSync-frame os refl refl s))
            (λ _. admit-InSync r.addr r.sock _ lt (InSync-frame os refl refl s)))
        (λ _. InSync-suc os (InSync-frame os refl refl s))

  pub accept_turn-InSync :
      {n : ℕ} (a : App lc)
      → n < 2 ^ 32 - 1
      → InSync os n a
      → OnTurn (InSync os (suc n)) (accept_turn os a)
  unfolding accept_turn
  accept_turn-InSync {n} a lt s =
      if_ind (OnTurn (InSync os (suc n))) a.server.run (λ _. accept_body-InSync a lt s)
        (λ _. InSync-suc os s)

  show_received-InSync :
      {n : ℕ} (buffer : List ℕ) (a : App lc)
      → InSync os n a
      → OnTurn (InSync os n) (show_received os buffer a)
  unfolding show_received
  show_received-InSync buffer a s = elim (Option-cases (c_string buffer)) [
    | inl e ↦ rw (e, show_received) tt
    | inr (t, e) ↦ rw (e, show_received) (InSync-frame os refl refl s)
  ]

  pub client_turn-InSync :
      {n : ℕ} (c : ClientItem) (a : App lc)
      → InSync os n a
      → OnTurn (InSync os n) (client_turn os c a)
  unfolding client_turn
  client_turn-InSync {n} c a s =
      let (ready, h) = select_socket os c.c_socket 100 read a.log in
      let r = os.recv_ret h c.c_socket max_buff in
      if_ind (OnTurn (InSync os n)) ready
        (λ _.
          if_ind (OnTurn (InSync os n)) (is_positive r.count)
            (λ _. show_received-InSync (received_in max_buff r) _ (InSync-frame os refl refl s))
            (λ _. disconnect-InSync os c _ (InSync-frame os refl refl s)))
        (λ _. InSync-frame os refl refl s)

  start_server-InSync : {n : ℕ} (a : App lc) → InSync os n a → InSync os n (start_server os a)
  unfolding start_server
  start_server-InSync {n} a s =
      let (done, t, h) = init os a.server a.log in
      if_ind (InSync os n) done (λ _. InSync-frame os refl (clients-init os a.server a.log) s)
        (λ _. InSync-frame os refl (clients-init os a.server a.log) s)

  pub on_btn_open-InSync : {n : ℕ} (a : App lc) → InSync os n a → InSync os n (on_btn_open os a)
  unfolding on_btn_open set_port
  on_btn_open-InSync a s =
      InSync-frame os refl refl (start_server-InSync _ (InSync-frame os refl refl s))

  pub on_timer-InSync :
      {n : ℕ} (id : ℕ) (now : Text) (a : App lc) → InSync os n a → InSync os n (on_timer id now a)
  unfolding on_timer
  on_timer-InSync {n} id now a s =
      if_ind (InSync os n) (id == timer_count) (λ _. InSync-frame os refl refl s)
        (λ _.
          if_ind (InSync os n) (id == timer_client)
            (λ _.
              if_ind (InSync os n) (text_eq a.info []) (λ _. InSync-frame os refl refl s)
                (λ _. InSync-frame os refl refl s))
            (λ _. InSync-frame os refl refl s))

  pub message-InSync :
      {n : ℕ} (m : Message) (a : App lc)
      → InSync os n a
      → InSync os n (pre_translate_message os (λ _. false) m a).1
  unfolding pre_translate_message press_return
  message-InSync key_escape a s = s
  message-InSync key_return a s = InSync-frame os refl refl s
  message-InSync key_other a s = InSync-frame os refl refl s
  message-InSync no_key a s = InSync-frame os refl refl s

  pub on_btn_file-InSync :
      {n : ℕ} (f : FileInput) (a : App lc) → InSync os n a → InSync os n (on_btn_file f a)
  unfolding on_btn_file
  on_btn_file-InSync {n} f a s =
      if_ind (InSync os n) (f.opens (chosen_path f.chosen)) (λ _. InSync-frame os refl refl s)
        (λ _. InSync-frame os refl refl s)

  pub check-InSync :
      {n : ℕ} (i : ℕ) (b : Bool) (a : App lc)
      → InSync os n a
      → InSync os n (with_list a (lc.set_check a.client_list i b))
  check-InSync i b a s = record {
    shows = rw lc.set_check_lem (map-entry-check (lc.rows a.client_list) i b ∙ s.shows);
    ports = s.ports;
    few = s.few;
  }
