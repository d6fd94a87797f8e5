-- ===== src/Server/System/Agreement.antt =====
-- Over any schedule without a close, the list of clients shown is TcpServer's vector (winSockServer/).
use open_chat.Base.{
  ℕ, zero, suc, ◌+◌, ◌-◌, ◌<◌, ◌^◌, ◌≡◌, ◌≢◌, refl, List, [], ◌∷◌, map, length, get_elem?, All,
  Option, none, some, arith, if_ind, OnSome, OnSome-then, OnSome-some,
}
use open_chat.ClientItem.{ClientItem}
use open_chat.Platform.{Winsock}
use open_chat.Platform.ListCtrl.{ListCtrl}
use open_chat.Server.State.{App, start, server_dlg, tcp_server}
use open_chat.Server.Threads.{Turn, goes_on, ends, fault, accept_turn, client_turn}
use open_chat.Server.Buttons.{is_enabled, id_button_1, id_button_3}
use open_chat.Server.System.{
  Event, accepts, serves, opens, closes, presses, picks_file, ticks, checks, step, run, accept_step,
  serve_step, after_accept, after_serve, opened_dialog,
}
use open_chat.Server.System.InSync.{entry, shown, Documented, InSync, InSync-suc, InSync-frame}
use open_chat.Server.System.Turns.{
  OnTurn, accept_turn-InSync, client_turn-InSync, on_btn_open-InSync, on_timer-InSync,
  message-InSync, on_btn_file-InSync, check-InSync,
}

module _ (os : Winsock) {lc : ListCtrl} (d : Documented os) where
  accept_step-InSync :
      {n : ℕ} (k : ℕ) (a : App lc)
      → n < 2 ^ 32 - 1
      → InSync os n a
      → OnSome (InSync os (suc n)) (accept_step os k a)
  unfolding accept_step after_accept
  accept_step-InSync zero a lt s = InSync-suc os s
  accept_step-InSync {n} (suc k) a lt s = after (accept_turn os a) (accept_turn-InSync os d a lt s)
    where
      after :
          (t : Turn (App lc))
          → OnTurn (InSync os (suc n)) t
          → OnSome (InSync os (suc n)) (after_accept os t)
      after (goes_on b) h = h
      after (ends b) h = InSync-frame os refl refl h
      after fault h = tt

  serve_step-InSync :
      {n : ℕ} (i : ℕ) (o : Option ClientItem) (a : App lc)
      → InSync os n a
      → OnSome (InSync os n) (serve_step os i o a)
  unfolding serve_step after_serve
  serve_step-InSync i none a s = s
  serve_step-InSync {n} i (some c) a s = after (client_turn os c a) (client_turn-InSync os d c a s)
    where
      after :
          (t : Turn (App lc)) → OnTurn (InSync os n) t → OnSome (InSync os n) (after_serve os i t)
      after (goes_on b) h = h
      after (ends b) h = InSync-frame os refl refl h
      after fault h = tt

  OnSome-suc : (n : ℕ) (o : Option (App lc)) → OnSome (InSync os n) o → OnSome (InSync os (suc n)) o
  OnSome-suc n none h = tt
  OnSome-suc n (some a) h = InSync-suc os h

  step-InSync :
      {n : ℕ} (e : Event) (a : App lc)
      → e ≢ closes
      → n < 2 ^ 32 - 1
      → InSync os n a
      → OnSome (InSync os (suc n)) (step os e a)
  unfolding step
  step-InSync accepts a kept lt s = accept_step-InSync a.accept_threads a lt s
  step-InSync {n} (serves i) a kept lt s =
      OnSome-suc n _ (serve_step-InSync i (get_elem? a.client_threads i) a s)
  step-InSync {n} opens a kept lt s = InSync-suc os (
      if_ind (InSync os n) (is_enabled id_button_1 a.log) (λ _. on_btn_open-InSync os d a s)
        (λ _. s))
  step-InSync closes a kept lt s = absurd (kept refl)
  step-InSync (presses m) a kept lt s = InSync-suc os (message-InSync os d m a s)
  step-InSync {n} (picks_file f) a kept lt s = InSync-suc os (
      if_ind (InSync os n) (is_enabled id_button_3 a.log) (λ _. on_btn_file-InSync os d f a s)
        (λ _. s))
  step-InSync (ticks id now) a kept lt s = InSync-suc os (on_timer-InSync os d id now a s)
  step-InSync (checks i b) a kept lt s = InSync-suc os (check-InSync os d i b a s)

  -- What the list shows of the vector, with no count of the clients.
  abbrev Agrees : App lc → Type 0
  Agrees a = map entry (lc.rows a.client_list) ≡ map (shown os) a.server.clients

  run-Agrees :
      {n : ℕ} (es : List Event) (a : App lc)
      → All (λ e. e ≢ closes) es
      → length es + n < 2 ^ 32
      → InSync os n a
      → OnSome Agrees (run os es a)
  unfolding run
  run-Agrees [] a kept lt s = s.shows
  run-Agrees {n} (e ∷ es) a kept lt s =
      OnSome-then (InSync os (suc n)) Agrees (step os e a) (run os es)
        (step-InSync e a kept.0 (omega arith) s) (λ b t. run-Agrees es b kept.1 (omega arith) t)

  -- From the dialog with an empty list, whatever order the threads and handlers take their turns in
  -- and whatever the network answers (ports of 16 bits, and one text for an address from inet_ntop and
  -- from inet_ntoa): while OnBtn_Close is not run, and fewer than 2^32 - 1 turns are taken (the range
  -- of ClientNum), the rows show exactly the clients in TcpServer's vector, in its order, each with its
  -- port, address and socket.
  pub run-shows_clients :
      (ctrl : lc.Ctrl) (es : List Event) {a : App lc}
      → lc.rows ctrl ≡ []
      → All (λ e. e ≢ closes) es
      → length es < 2 ^ 32 - 1
      → run os es (opened_dialog os lc ctrl) ≡ some a
      → map entry (lc.rows a.client_list) ≡ map (shown os) a.server.clients
  unfolding opened_dialog start server_dlg tcp_server
  run-shows_clients ctrl es empty kept lt e =
      OnSome-some Agrees (run os es (opened_dialog os lc ctrl))
        (run-Agrees {n = 0} es (opened_dialog os lc ctrl) kept (omega arith)
          (record { shows = rw empty; ports = tt; few = omega arith }))
        e
