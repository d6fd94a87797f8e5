-- ===== src/Client/System/Running.antt =====
-- What holds of the client over all schedules: the status, the threads and the sockets
-- (winSockClient/PCClient/ClientDlg.cpp, winSockServer/src/TcpClient.cpp).
use open_chat.Base.{
  ℕ, zero, suc, ◌<◌, ◌≤◌, ◌≡◌, ◌⊎◌, refl, ◌∙◌, Bool, true, false, List, [], ◌∷◌, some, arith,
  if_ind, inl, inr, Option-cases, OnSome, OnSome-then, OnSome-some, is_positive, not, ◌==◌,
  is_minus_one, if◌then◌else◌,
}
use open_chat.Text.{c_string}
use open_chat.Platform.{Winsock, off, read, socket}
use open_chat.Server.Input.{key_escape, key_return, key_other, no_key}
use open_chat.Server.Threads.{Turn, received_in}
use open_chat.Client.Tcp.{
  ClientApp, client_dlg, connect_server, connect_socket, select_socket, echo, lose, receive_turn,
  buf_size, set_port, set_ip, server_addr,
}
use open_chat.Client.Dialog.{
  connect_to_server, learn_port, on_clicked_connect, pre_translate_message, is_zero,
}
use open_chat.Client.System.{
  Event, connects, receives, presses, receive_step, after_receive, step, run,
}

-- The status says ON only while a receiving thread runs.
pub record IsHonest (a : ClientApp) : Type 0 where
  pub honest : (a.server_status ≡ off) ⊎ (0 < a.receive_threads)

IsHonest-frame :
    {a b : ClientApp}
    → b.server_status ≡ a.server_status
    → a.receive_threads ≤ b.receive_threads
    → IsHonest a
    → IsHonest b
IsHonest-frame s t h = elim h.honest [
  | inl down ↦ record { honest = inl (s ∙ down) }
  | inr runs ↦ record { honest = inr (omega arith) }
]

module _ (os : Winsock) where
  -- After Connect a thread runs if it succeeded, and else nothing has changed.
  abbrev Connected : Bool × ClientApp → Type 0
  Connected (true, b) = 0 < b.receive_threads
  Connected (false, b) = IsHonest b

  connect_server-Connected : (a : ClientApp) → IsHonest a → Connected (connect_server os a)
  unfolding connect_server connect_socket
  connect_server-Connected a h =
      if_ind Connected (os.socket_ret a.log == os.invalid_socket)
        (λ _. IsHonest-frame refl (omega arith) h)
        (λ _.
          if_ind Connected
            (is_minus_one (
              os.connect_ret (socket ∷ a.log) (os.socket_ret a.log)
                (server_addr os (record (a.client) { m_socket = os.socket_ret a.log }))))
            (λ _. IsHonest-frame refl (omega arith) h) (λ _. omega arith))

  learn_port-IsHonest : (b : ClientApp) → 0 < b.receive_threads → IsHonest (learn_port os b).1
  unfolding learn_port
  learn_port-IsHonest b runs =
      if_ind (λ (r : Bool × ClientApp). IsHonest r.1)
        (not (is_zero (os.getsockname_ret b.log b.client.m_socket).ret))
        (λ _. record { honest = inr runs }) (λ _. record { honest = inr runs })

  connect-IsHonest : (a : ClientApp) → IsHonest a → IsHonest (on_clicked_connect os a)
  unfolding on_clicked_connect connect_to_server set_port set_ip
  connect-IsHonest a h =
      after (connect_server os _) (connect_server-Connected _ (IsHonest-frame refl (omega arith) h))
    where
      after :
          (c : Bool × ClientApp)
          → Connected c
          → IsHonest (if c.0 then learn_port os c.1 else (false, c.1)).1
      after (true, b) runs = learn_port-IsHonest b runs
      after (false, b) k = k

  echo-IsHonest :
      (msg : List ℕ) (a : ClientApp)
      → IsHonest a
      → OnSome IsHonest (after_receive os (echo os msg a))
  unfolding echo after_receive
  echo-IsHonest msg a h = elim (Option-cases (c_string msg)) [
    | inl e ↦ rw (e, echo) tt
    | inr (s, e) ↦ rw (e, echo) (IsHonest-frame refl (omega arith) h)
  ]

  receive_turn-IsHonest :
      (a : ClientApp) → IsHonest a → OnSome IsHonest (after_receive os (receive_turn os a))
  unfolding receive_turn after_receive lose
  receive_turn-IsHonest a h =
      let (ready, g) = select_socket os a.client.m_socket 100 read a.log in
      let r = os.recv_ret g a.client.m_socket buf_size in
      if_ind (λ (t : Turn ClientApp). OnSome IsHonest (after_receive os t)) ready
        (λ _.
          if_ind (λ (t : Turn ClientApp). OnSome IsHonest (after_receive os t))
            (is_positive r.count)
            (λ _. echo-IsHonest (received_in buf_size r) _ (IsHonest-frame refl (omega arith) h))
            (λ _. record { honest = inl refl }))
        (λ _. IsHonest-frame refl (omega arith) h)

  step-IsHonest : (e : Event) (a : ClientApp) → IsHonest a → OnSome IsHonest (step os e a)
  unfolding step pre_translate_message
  step-IsHonest connects a h = connect-IsHonest a h
  step-IsHonest receives a h = turn a.receive_threads
    where
      turn : (n : ℕ) → OnSome IsHonest (receive_step os n a)
      turn zero = h
      turn (suc n) = receive_turn-IsHonest a h
  step-IsHonest (presses key_escape) a h = h
  step-IsHonest (presses key_return) a h = IsHonest-frame refl (omega arith) h
  step-IsHonest (presses key_other) a h = IsHonest-frame refl (omega arith) h
  step-IsHonest (presses no_key) a h = IsHonest-frame refl (omega arith) h

  run-IsHonest_from : (es : List Event) (a : ClientApp) → IsHonest a → OnSome IsHonest (run os es a)
  unfolding run
  run-IsHonest_from [] a h = h
  run-IsHonest_from (e ∷ es) a h =
      OnSome-then IsHonest IsHonest (step os e a) (run os es) (step-IsHonest e a h)
        (λ b k. run-IsHonest_from es b k)

  -- Over any schedule of clicks, keys and turns of the receiving threads, from the fresh dialog and
  -- whatever the network answers: the status is OFF, or a receiving thread runs.
  run-IsHonest : (es : List Event) {a : ClientApp} → run os es (client_dlg os) ≡ some a → IsHonest a
  unfolding client_dlg
  run-IsHonest es e =
      OnSome-some IsHonest (run os es (client_dlg os))
        (run-IsHonest_from es (client_dlg os) (record { honest = inl refl })) e
