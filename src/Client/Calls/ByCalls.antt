-- ===== src/Client/Calls/ByCalls.antt =====
-- The client turn by turn and the client call by call (winSockClient/PCClient/ClientDlg.cpp,
-- winSockServer/src/TcpClient.cpp).
use open_chat.Base.{
  ℕ, zero, suc, ◌≡◌, refl, ap, ◌∙◌, Bool-cases, inl, inr, List, [], ◌∷◌, ◌++◌, Option, none, some,
  Option-cases, ◌==◌, and_then, arith, replicate, replicate-append, is_positive, is_minus_one, not,
}
use open_chat.Text.{codes, c_string}
use open_chat.Platform.{Winsock, read, socket, connect}
use open_chat.Server.Input.{key_escape, key_return, key_other, no_key}
use open_chat.Server.Threads.{Turn, goes_on, ends, fault}
use open_chat.Client.Tcp.{
  ClientApp, receive_turn, echo, lose, select_socket, buf_size, connect_server, connect_socket,
  server_addr, set_port, set_ip,
}
use open_chat.Client.Dialog.{
  pre_translate_message, on_clicked_connect, connect_to_server, learn_port, is_zero,
}
use open_chat.Client.Receiving.{Received, receive_turn-Received}
use open_chat.Client.System
use open_chat.Client.Calls.{
  Stage, watching, idle, Process, Event, click, dialog_call, thread_call, presses, receive_call,
  start_connect, handle_key, connect_call, step, run, at_rest,
}

-- The first thread after a whole turn, while the dialog waits for messages.
abbrev turned : List Stage → Turn ClientApp → Option Process
turned ts (goes_on b) = some (record { app = b; place = idle; threads = watching ∷ ts })
turned ts (ends b) = some (record { app = b; place = idle; threads = ts })
turned ts fault = none

module _ (os : Winsock) where
  echo_calls :
      (msg : List ℕ) (a : ClientApp) (ts : List Stage)
      → run os
          (thread_call 0 ∷ thread_call 0 ∷ thread_call 0 ∷ [])
          (record { app = a; place = idle; threads = Stage.asking msg ∷ ts })
        ≡ turned ts (echo os msg a)
  unfolding run step receive_call echo
  echo_calls msg a ts = elim (Option-cases (c_string msg)) [
    | inl e ↦ rw (e, echo, receive_call) refl
    | inr (t, e) ↦ rw (e, echo, receive_call) refl
  ]

  turn_calls :
      (a : ClientApp) (ts : List Stage)
      → (fs : List Event) × (run os fs (record { app = a; place = idle; threads = watching ∷ ts })
          ≡ turned ts (receive_turn os a))
  unfolding run step receive_call receive_turn lose
  turn_calls a ts =
      let (ready, h) = select_socket os a.client.m_socket 100 read a.log in
      let r = os.recv_ret h a.client.m_socket buf_size in
      let go = thread_call 0 in
      elim (Bool-cases ready) [
        | inr still ↦ (go ∷ [], rw still refl)
        | inl there ↦ elim (Bool-cases (is_positive r.count)) [
          | inl got ↦ (go ∷ go ∷ go ∷ go ∷ go ∷ [], rw (there, got) (echo_calls _ _ ts))
          | inr lost ↦ (go ∷ go ∷ go ∷ go ∷ go ∷ [], rw (there, lost) refl)
        ]
      ]

  abbrev AsRest : ClientApp → Option ClientApp → Type 0
  AsRest a o = (fs : List Event) × (run os fs (at_rest a) ≡ and_then o (λ b. some (at_rest b)))

  connect_calls : (a : ClientApp) → AsRest a (some (on_clicked_connect os a))
  unfolding run step start_connect connect_call on_clicked_connect connect_to_server connect_server
      connect_socket learn_port set_ip set_port
  connect_calls a =
      let go = dialog_call in
      let c = set_ip (codes "127.0.0.1") (set_port 8888 a.client) in
      let sock = os.socket_ret a.log in
      let c' = record c { m_socket = sock } in
      let h = connect sock (server_addr os c') ∷ socket ∷ a.log in
      elim (Bool-cases (sock == os.invalid_socket)) [
        | inl invalid ↦ (click ∷ go ∷ [], rw (on_clicked_connect, invalid) refl)
        | inr valid ↦
            elim (Bool-cases
              (is_minus_one (os.connect_ret (socket ∷ a.log) sock (server_addr os c')))) [
                | inl refused ↦ (click ∷ go ∷ go ∷ [], rw (on_clicked_connect, valid, refused) refl)
                | inr linked ↦ elim (Bool-cases (not (is_zero (os.getsockname_ret h sock).ret))) [
                  | inl nameless ↦ (
                    click ∷ go ∷ go ∷ go ∷ go ∷ [],
                    rw (on_clicked_connect, valid, linked, nameless)
                        (rw (replicate-append a.receive_threads watching) refl),
                  )
                  | inr named ↦ (
                    click ∷ go ∷ go ∷ go ∷ go ∷ go ∷ [],
                    rw (on_clicked_connect, valid, linked, named)
                        (rw (replicate-append a.receive_threads watching) refl),
                  )
                ]
              ]
      ]

  -- Between two turns a thread more or less stands at the head of its loop.
  turned-at_rest :
      (n : ℕ) (a : ClientApp) (t : Turn ClientApp)
      → a.receive_threads ≡ suc n
      → Received os a t
      → turned (replicate n watching) t
        ≡ and_then (System.after_receive os t) (λ b. some (at_rest b))
  unfolding System.after_receive
  turned-at_rest n a (goes_on b) e kept =
      let same : b.receive_threads ≡ suc n = kept.1 ∙ e in rw same refl
  turned-at_rest n a (ends b) e lost =
      let fewer : b.receive_threads ≡ n = omega (arith, lost.2, e) in rw fewer refl
  turned-at_rest n a fault e kept = refl

  receive_calls :
      (n : ℕ) (a : ClientApp) → a.receive_threads ≡ n → AsRest a (System.receive_step os n a)
  unfolding System.receive_step run
  receive_calls zero a e = ([], refl)
  receive_calls (suc n) a e =
      let (fs, ran) = turn_calls a (replicate n watching) in
      (
        fs,
        ap (λ (k : ℕ). run os fs (record { app = a; place = idle; threads = replicate k watching }))
              e
            ∙ ran
            ∙ turned-at_rest n a (receive_turn os a) e (receive_turn-Received os a),
      )

  step_calls : (e : System.Event) (a : ClientApp) → AsRest a (System.step os e a)
  unfolding System.step run step handle_key pre_translate_message
  step_calls System.connects a = connect_calls a
  step_calls System.receives a = receive_calls a.receive_threads a refl
  step_calls (System.presses key_escape) a = (presses key_escape ∷ [], refl)
  step_calls (System.presses key_return) a = (presses key_return ∷ [], refl)
  step_calls (System.presses key_other) a = (presses key_other ∷ [], refl)
  step_calls (System.presses no_key) a = (presses no_key ∷ [], refl)

  run-append :
      (fs gs : List Event) (s : Process) → run os (fs ++ gs) s ≡ and_then (run os fs s) (run os gs)
  unfolding run
  run-append [] gs s = refl
  run-append (f ∷ fs) gs s = elim (Option-cases (step os f s)) [
    | inl e ↦ rw e refl
    | inr (t, e) ↦ rw e (run-append fs gs t)
  ]

  -- Every schedule of the client in whole turns of the threads and whole handlers is a schedule of single
  -- calls: from any state where no thread is inside a turn, some sequence of calls leads exactly where the
  -- turns lead, to the read past an array if they do, and otherwise to the same state with each thread at
  -- the head of its loop.
  client_run_by_calls :
      (es : List System.Event) (a : ClientApp)
      → (fs : List Event) × (run os fs (at_rest a)
          ≡ and_then (System.run os es a) (λ b. some (at_rest b)))
  unfolding System.run run
  client_run_by_calls [] a = ([], refl)
  client_run_by_calls (e ∷ es) a =
      let (fs, first) = step_calls e a in
      elim (Option-cases (System.step os e a)) [
        | inl failed ↦ (fs, rw failed (first ∙ rw failed refl))
        | inr (b, does) ↦
            let (gs, later) = client_run_by_calls es b in
            let there : run os fs (at_rest a) ≡ some (at_rest b) = first ∙ rw does refl in
            (fs ++ gs, rw (run-append fs gs (at_rest a), there, does) later)
      ]
