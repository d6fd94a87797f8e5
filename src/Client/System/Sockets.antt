-- ===== src/Client/System/Sockets.antt =====
-- The sockets that the client creates and closes, over any schedule (winSockClient/PCClient/ClientDlg.cpp
-- with winSockServer/src/TcpClient.cpp).
use open_chat.Base.{
  ℕ, zero, suc, ◌+◌, ◌≡◌, Bool, true, false, not, List, [], ◌∷◌, ◌==◌, Option-cases, inl, inr,
  arith, if_ind, if◌then◌else◌, OnSome, OnSome-then, OnSome-some, is_positive, is_minus_one, some,
  ◌∙◌, ap,
}
use open_chat.Text.{c_string}
use open_chat.Platform.{Winsock, Call, socket, read}
use open_chat.Startup.{count_calls}
use open_chat.Server.Input.{Message, key_escape, key_return, key_other, no_key}
use open_chat.Server.Threads.{Turn, received_in}
use open_chat.Client.Tcp.{
  ClientApp, with_log, client_dlg, receive_turn, echo, lose, select_socket, buf_size,
  connect_server, connect_socket, server_addr, set_port, set_ip, add_info,
}
use open_chat.Client.Dialog.{
  destroy, on_clicked_connect, connect_to_server, learn_port, pre_translate_message, is_zero,
}
use open_chat.Client.Startup.Ending.{is_close, shown_dialog}
use open_chat.Client.Startup.{init_instance}
use open_chat.Startup.{begin_instance, prepare_dialog}
use open_chat.Client.System.{
  Event, connects, receives, presses, receive_step, after_receive, step, run,
}

abbrev pub is_socket : Call → Bool
is_socket socket = true
is_socket c = false

-- How often the connect button is clicked.
abbrev pub clicks : List Event → ℕ
clicks [] = 0
clicks (connects ∷ es) = suc (clicks es)
clicks (receives ∷ es) = clicks es
clicks (presses m ∷ es) = clicks es

-- So many sockets have been created, and none has been closed.
pub record Opened (n : ℕ) (a : ClientApp) : Type 0 where
  pub made : count_calls is_socket a.log ≡ n
  pub closed : count_calls is_close a.log ≡ 0

Opened-frame :
    {n : ℕ} {a b : ClientApp}
    → count_calls is_socket b.log ≡ count_calls is_socket a.log
    → count_calls is_close b.log ≡ count_calls is_close a.log
    → Opened n a
    → Opened n b
Opened-frame s c k = record { made = s ∙ k.made; closed = c ∙ k.closed }

Opened-more :
    {n : ℕ} {a b : ClientApp}
    → count_calls is_socket b.log ≡ suc (count_calls is_socket a.log)
    → count_calls is_close b.log ≡ count_calls is_close a.log
    → Opened n a
    → Opened (suc n) b
Opened-more s c k = record { made = s ∙ ap suc k.made; closed = c ∙ k.closed }

module _ (os : Winsock) {n : ℕ} where
  -- After Connect, whatever it says, one socket more has been created.
  connect_server-Opened : (a : ClientApp) → Opened n a → Opened (suc n) (connect_server os a).1
  unfolding connect_server connect_socket count_calls
  connect_server-Opened a k =
      if_ind (λ (r : Bool × ClientApp). Opened (suc n) r.1)
        (os.socket_ret a.log == os.invalid_socket) (λ _. Opened-more (omega arith) (omega arith) k)
        (λ _.
          if_ind (λ (r : Bool × ClientApp). Opened (suc n) r.1)
            (is_minus_one (
              os.connect_ret (socket ∷ a.log) (os.socket_ret a.log)
                (server_addr os (record (a.client) { m_socket = os.socket_ret a.log }))))
            (λ _. Opened-more (omega arith) (omega arith) k)
            (λ _. Opened-more (omega arith) (omega arith) k))

  learn_port-Opened : (b : ClientApp) → Opened n b → Opened n (learn_port os b).1
  unfolding learn_port count_calls
  learn_port-Opened b k =
      if_ind (λ (r : Bool × ClientApp). Opened n r.1)
        (not (is_zero (os.getsockname_ret b.log b.client.m_socket).ret))
        (λ _. Opened-frame (omega arith) (omega arith) k)
        (λ _. Opened-frame (omega arith) (omega arith) k)

  echo-Opened :
      (msg : List ℕ) (a : ClientApp)
      → Opened n a
      → OnSome (Opened n) (after_receive os (echo os msg a))
  unfolding echo after_receive add_info count_calls
  echo-Opened msg a k = elim (Option-cases (c_string msg)) [
    | inl e ↦ rw (e, echo) tt
    | inr (s, e) ↦ rw (e, echo) (Opened-frame (omega arith) (omega arith) k)
  ]

  select-Opened :
      (sock : ℕ) (a : ClientApp)
      → Opened n a
      → Opened n (with_log a (select_socket os sock 100 read a.log).1)
  unfolding select_socket count_calls
  select-Opened sock a k = Opened-frame (ground arith) (ground arith) k

  receive_turn-Opened :
      (a : ClientApp) → Opened n a → OnSome (Opened n) (after_receive os (receive_turn os a))
  unfolding receive_turn after_receive lose count_calls add_info
  receive_turn-Opened a h =
      let (ready, g) = select_socket os a.client.m_socket 100 read a.log in
      let k = select-Opened a.client.m_socket a h in
      let r = os.recv_ret g a.client.m_socket buf_size in
      if_ind (λ (t : Turn ClientApp). OnSome (Opened n) (after_receive os t)) ready
        (λ _.
          if_ind (λ (t : Turn ClientApp). OnSome (Opened n) (after_receive os t))
            (is_positive r.count)
            (λ _.
              echo-Opened (received_in buf_size r) _ (Opened-frame (omega arith) (omega arith) k))
            (λ _. Opened-frame (omega arith) (omega arith) k))
        (λ _. k)

  step-receives : (a : ClientApp) → Opened n a → OnSome (Opened n) (step os receives a)
  unfolding step
  step-receives a h = turn a.receive_threads
    where
      turn : (k : ℕ) → OnSome (Opened n) (receive_step os k a)
      turn zero = h
      turn (suc k) = receive_turn-Opened a h

  step-presses :
      (m : Message) (a : ClientApp) → Opened n a → OnSome (Opened n) (step os (presses m) a)
  unfolding step pre_translate_message count_calls
  step-presses key_escape a k = k
  step-presses key_return a k = Opened-frame (omega arith) (omega arith) k
  step-presses key_other a k = Opened-frame (omega arith) (omega arith) k
  step-presses no_key a k = Opened-frame (omega arith) (omega arith) k

module _ (os : Winsock) where
  connect-Opened : {n : ℕ} (a : ClientApp) → Opened n a → Opened (suc n) (on_clicked_connect os a)
  unfolding on_clicked_connect connect_to_server set_port set_ip
  connect-Opened {n} a k =
      after (connect_server os _)
        (connect_server-Opened os _ (Opened-frame {a = a} (omega arith) (omega arith) k))
    where
      after :
          (c : Bool × ClientApp)
          → Opened (suc n) c.1
          → Opened (suc n) (if c.0 then learn_port os c.1 else (false, c.1)).1
      after (true, b) k = learn_port-Opened os b k
      after (false, b) k = k

  run-Opened_from :
      (es : List Event) {n : ℕ} (a : ClientApp)
      → Opened n a
      → OnSome (Opened (clicks es + n)) (run os es a)
  unfolding run step
  run-Opened_from [] a k = record { made = omega (arith, k.made); closed = k.closed }
  run-Opened_from (connects ∷ es) {n} a k =
      let e : clicks es + suc n ≡ suc (clicks es) + n = omega arith in
      rw (← e) (run-Opened_from es (on_clicked_connect os a) (connect-Opened a k))
  run-Opened_from (receives ∷ es) {n} a k =
      OnSome-then (Opened n) (Opened (clicks es + n)) (step os receives a) (run os es)
        (step-receives os a k) (λ b. run-Opened_from es b)
  run-Opened_from (presses m ∷ es) {n} a k =
      OnSome-then (Opened n) (Opened (clicks es + n)) (step os (presses m) a) (run os es)
        (step-presses os m a k) (λ b. run-Opened_from es b)

  -- Over the whole life of the client's process, if the dialog runs through any schedule of clicks, keys
  -- and turns of the receiving threads before it ends, whatever the network answers: each click on the
  -- connect button asks for one more socket, no socket is closed while the dialog runs, and one is closed
  -- when it ends, however many there are.
  pub process_sockets :
      (es : List Event) {a : ClientApp}
      → run os es (shown_dialog os) ≡ some a
      → let h = (init_instance os true (λ _. a) []).1 in
        (count_calls is_socket a.log ≡ clicks es)
        × (count_calls is_close a.log ≡ 0)
        × (count_calls is_socket h ≡ clicks es)
        × (count_calls is_close h ≡ 1)
  unfolding client_dlg count_calls init_instance destroy begin_instance prepare_dialog
  process_sockets es e =
      let k =
        OnSome-some (Opened (clicks es + 0)) (run os es (shown_dialog os))
          (run-Opened_from es (shown_dialog os)
            (record { made = omega arith; closed = omega arith }))
          e in
      (omega (arith, k.made), k.closed, omega (arith, k.made), omega (arith, k.closed))
