-- ===== src/Client/Calls/Abandoned.antt =====
-- What a click on the connect button does to the connection that is there
-- (winSockClient/PCClient/ClientDlg.cpp, winSockServer/src/TcpClient.cpp).
use open_chat.Base.{
  ℕ, ◌≡◌, ◌≢◌, refl, sym, ap, ◌∙◌, Bool, true, false, not, inl, inr, List, [], ◌∷◌, ◌++◌, Option,
  none, some, Option-cases, get_elem?, if_ind, OnSome, OnSome-then, OnSome-some, arith,
  is_minus_one,
}
use open_chat.Text.{c_string}
use open_chat.Platform.{
  Winsock, Log, read, recv, send, shutdown_both, connect, getsockname, getpeername, socket,
}
use open_chat.Startup.{count_calls}
use open_chat.Server.Input.{Message, key_escape, key_return, key_other, no_key}
use open_chat.Client.Tcp.{with_log, set_ip, set_port, ClientApp, buf_size, server_addr, add_info}
use open_chat.Client.Dialog.{pre_translate_message, is_zero}
use open_chat.Client.Calls.{
  Stage, watching, receiving, asking, showing, answering, telling, marking, closing, Place, idle,
  creating, connecting, naming, failing, announcing, switching, Process, Event, click, dialog_call,
  thread_call, presses, takes_messages, receive_call, start_connect, handle_key, thread_step,
  connect_call, step, run,
}
use open_chat.Client.Calls.Unused.{uses, select_socket-log, Abandoned, Abandoned-frame}

module _ (os : Winsock) {x : ℕ} {l : Log} where
  receive_call-Abandoned :
      (free : Bool) (stage : Stage) (a : ClientApp)
      → Abandoned x l a
      → OnSome (λ (r : Option Stage × ClientApp). Abandoned x l r.1) (receive_call os free stage a)
  unfolding receive_call count_calls add_info
  receive_call-Abandoned free watching a k =
      let other = k.other in
      Abandoned-frame (_ ∷ []) (select_socket-log os a.client.m_socket 100 read a.log)
        (ground (arith, other)) refl k
  receive_call-Abandoned free receiving a k =
      let other = k.other in
      Abandoned-frame (recv a.client.m_socket buf_size ∷ []) refl (ground (arith, other)) refl k
  receive_call-Abandoned free (asking msg) a k =
      let other = k.other in
      Abandoned-frame (getpeername a.client.m_socket ∷ []) refl (ground (arith, other)) refl k
  receive_call-Abandoned false (showing msg) a k = k
  receive_call-Abandoned true (showing msg) a k = elim (Option-cases (c_string msg)) [
    | inl e ↦ rw (e, receive_call) tt
    | inr (t, e) ↦ rw (e, receive_call) (Abandoned-frame (_ ∷ _ ∷ []) refl (omega arith) refl k)
  ]
  receive_call-Abandoned free (answering msg) a k =
      let other = k.other in
      Abandoned-frame (send a.client.m_socket msg ∷ []) refl (ground (arith, other)) refl k
  receive_call-Abandoned false telling a k = k
  receive_call-Abandoned true telling a k = Abandoned-frame (_ ∷ _ ∷ []) refl (omega arith) refl k
  receive_call-Abandoned free marking a k = Abandoned-frame [] refl (omega arith) refl k
  receive_call-Abandoned free closing a k =
      let other = k.other in
      Abandoned-frame (shutdown_both a.client.m_socket ∷ []) refl (ground (arith, other)) refl k

  thread_step-Abandoned :
      (i : ℕ) (o : Option Stage) (s : Process)
      → Abandoned x l s.app
      → OnSome (λ (t : Process). Abandoned x l t.app) (thread_step os i o s)
  unfolding thread_step
  thread_step-Abandoned i none s k = k
  thread_step-Abandoned i (some stage) s k =
      OnSome-then (λ (r : Option Stage × ClientApp). Abandoned x l r.1)
        (λ (t : Process). Abandoned x l t.app)
        (receive_call os (takes_messages s.place) stage s.app) _
        (receive_call-Abandoned (takes_messages s.place) stage s.app k) (λ r m. m)

  start_connect-Abandoned :
      (p : Place) (s : Process) → Abandoned x l s.app → Abandoned x l (start_connect os p s).app
  unfolding start_connect set_ip set_port
  start_connect-Abandoned idle s k = Abandoned-frame [] refl (unfold count_calls in refl) refl k
  start_connect-Abandoned creating s k = k
  start_connect-Abandoned connecting s k = k
  start_connect-Abandoned naming s k = k
  start_connect-Abandoned failing s k = k
  start_connect-Abandoned announcing s k = k
  start_connect-Abandoned switching s k = k

  handle_key-Abandoned :
      (p : Place) (m : Message) (s : Process)
      → Abandoned x l s.app
      → Abandoned x l (handle_key os p m s).app
  unfolding handle_key pre_translate_message count_calls
  handle_key-Abandoned idle key_escape s k = k
  handle_key-Abandoned idle key_return s k =
      let other = k.other in Abandoned-frame (_ ∷ _ ∷ _ ∷ []) refl (ground (arith, other)) refl k
  handle_key-Abandoned idle key_other s k = Abandoned-frame (_ ∷ []) refl (omega arith) refl k
  handle_key-Abandoned idle no_key s k = Abandoned-frame (_ ∷ []) refl (omega arith) refl k
  handle_key-Abandoned creating m s k = k
  handle_key-Abandoned connecting m s k = k
  handle_key-Abandoned naming m s k = k
  handle_key-Abandoned failing m s k = k
  handle_key-Abandoned announcing m s k = k
  handle_key-Abandoned switching m s k = k

  module _ (fresh : (h : Log) → os.socket_ret (h ++ l) ≢ x) where
    -- `socket` puts another socket in the place of the one that is there.
    creating-Abandoned :
        (s : Process) (since : Log)
        → s.app.log ≡ since ++ l
        → count_calls (uses x) since ≡ 0
        → Abandoned x l (connect_call os creating s).app
    unfolding connect_call count_calls
    creating-Abandoned s since whole unused = record {
      since = socket ∷ since;
      whole = ap (◌∷◌ socket) whole;
      unused = omega arith;
      other = λ e. fresh since (ap os.socket_ret (sym whole) ∙ e);
    }

    connect_call-Abandoned :
        (p : Place) (s : Process) → Abandoned x l s.app → Abandoned x l (connect_call os p s).app
    unfolding connect_call count_calls
    connect_call-Abandoned idle s k = k
    connect_call-Abandoned creating s k = creating-Abandoned s k.since k.whole k.unused
    connect_call-Abandoned connecting s k =
        let a = s.app in
        let other = k.other in
        let addr = server_addr os a.client in
        let linked =
          Abandoned-frame (connect a.client.m_socket addr ∷ []) refl (ground (arith, other)) refl
            k in
        if_ind (λ (t : Process). Abandoned x l t.app)
          (is_minus_one (os.connect_ret a.log a.client.m_socket addr)) (λ _. linked)
          (λ _. Abandoned-frame [] refl (omega arith) refl linked)
    connect_call-Abandoned naming s k =
        let a = s.app in
        let other = k.other in
        let named : Abandoned x l (with_log a (getsockname a.client.m_socket ∷ a.log)) =
          Abandoned-frame (getsockname a.client.m_socket ∷ []) refl (ground (arith, other)) refl
            k in
        if_ind (λ (t : Process). Abandoned x l t.app)
          (not (is_zero (os.getsockname_ret a.log a.client.m_socket).ret)) (λ _. named)
          (λ _. Abandoned-frame [] refl (omega arith) refl named)
    connect_call-Abandoned failing s k = Abandoned-frame (_ ∷ []) refl (omega arith) refl k
    connect_call-Abandoned announcing s k = Abandoned-frame (_ ∷ _ ∷ []) refl (omega arith) refl k
    connect_call-Abandoned switching s k = Abandoned-frame [] refl (omega arith) refl k

    step-Abandoned :
        (e : Event) (s : Process)
        → Abandoned x l s.app
        → OnSome (λ (t : Process). Abandoned x l t.app) (step os e s)
    unfolding step
    step-Abandoned click s k = start_connect-Abandoned s.place s k
    step-Abandoned dialog_call s k = connect_call-Abandoned s.place s k
    step-Abandoned (thread_call i) s k = thread_step-Abandoned i (get_elem? s.threads i) s k
    step-Abandoned (presses m) s k = handle_key-Abandoned s.place m s k

    run-Abandoned :
        (es : List Event) (s : Process)
        → Abandoned x l s.app
        → OnSome (λ (t : Process). Abandoned x l t.app) (run os es s)
    unfolding run
    run-Abandoned [] s k = k
    run-Abandoned (e ∷ es) s k =
        OnSome-then (λ (t : Process). Abandoned x l t.app) (λ (t : Process). Abandoned x l t.app)
          (step os e s) (run os es) (step-Abandoned e s k) (λ t m. run-Abandoned es t m)

-- A further click gives up the connection that is there. Once ConnectToServer has called `socket`, whatever
-- this answers but the handle of that connection, no call of any thread is made on the old socket again:
-- none receives from it, sends to it, shuts it down or closes it, and the client holds another handle; a
-- thread that waited for it goes on with the new one. `socket` must never again return that handle.
pub click_abandons :
    (os : Winsock) (es : List Event) (s : Process) {t : Process}
    → let x = s.app.client.m_socket in
      s.place ≡ creating
      → ((h : Log) → os.socket_ret (h ++ s.app.log) ≢ x)
      → run os (dialog_call ∷ es) s ≡ some t
      → (since : Log) × (t.app.log ≡ since ++ s.app.log)
        × (count_calls (uses x) since ≡ 0)
        × (t.app.client.m_socket ≢ x)
unfolding run step
click_abandons os es s {t} place fresh e =
    let first = creating-Abandoned os fresh s [] refl (unfold count_calls in refl) in
    let k =
      OnSome-some (λ (t : Process). Abandoned _ s.app.log t.app)
        (run os es (connect_call os creating s)) {a = t}
        (run-Abandoned os fresh es (connect_call os creating s) first)
        (ap (λ (p : Place). run os es (connect_call os p s)) (sym place) ∙ e) in
    (k.since, k.whole, k.unused, k.other)
