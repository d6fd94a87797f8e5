-- ===== src/Client/Calls.antt =====
-- The client process a call at a time (winSockClient/PCClient/ClientDlg.cpp with
-- winSockServer/src/TcpClient.cpp): the user interface thread stands at one of the calls of
-- ConnectToServer or is idle, each receiving thread at one of the calls of ClientFunc, and a step is one
-- call of one of them, a click or a key. All threads read the one `m_socket` at each call.
pub mod ByCalls
pub mod Counting
pub mod Honesty
pub mod Unused
pub mod Abandoned
pub mod Totality
mod Tests
use open_chat.Base.{
  ℕ, ◌+◌, ◌-◌, Bool, false, not, List, [], ◌∷◌, ◌++◌, Option, none, some, get_elem?, modify,
  erase_at, ◌==◌, if◌then◌else◌, and_then, is_positive, is_minus_one, minus_one, true, replicate,
}
use open_chat.Text.{codes, c_string}
use open_chat.Platform.{
  Winsock, read, on, off, socket, connect, recv, send, getpeername, getsockname, shutdown_both,
  set_sel, replace_sel, info_box, message_box,
}
use open_chat.Server.Input.{Message}
use open_chat.Server.Threads.{received_in}
use open_chat.Client.Tcp.{
  ClientApp, with_log, set_port, set_ip, server_addr, select_socket, add_info, disconnected_text,
  buf_size,
}
use open_chat.Client.Dialog.{pre_translate_message, is_zero, port_failed_text, connected_text}

-- The call that a thread of ClientFunc makes next: Select, recv, getpeername, AddInfo and send with the
-- array received; or AddInfo, SetServerState and shutdown.
pub data Stage : Type 0 where
  watching receiving : Stage
  asking showing answering : List ℕ → Stage
  telling marking closing : Stage

-- The call that the user interface thread makes next in ConnectToServer: socket, connect with the start
-- of the thread, getsockname, MessageBox, the message, the assignment of the status; or it waits for a
-- message of Windows.
pub data Place : Type 0 where
  idle creating connecting naming failing announcing switching : Place

pub record Process : Type 0 where
  pub app : ClientApp
  pub place : Place
  pub threads : List Stage

pub data Event : Type 0 where
  click dialog_call : Event
  thread_call : (thread : ℕ) → Event
  presses : Message → Event

-- A message that another thread sends to a window waits until the thread of the window takes messages:
-- in its message loop, or in that of MessageBox.
abbrev pub takes_messages : Place → Bool
takes_messages idle = true
takes_messages failing = true
takes_messages other = false

-- The threads, where the one at index `i` has made its call.
abbrev pub moved : List Stage → ℕ → Option Stage → List Stage
moved ts i none = erase_at ts i
moved ts i (some stage) = modify ts i (λ _. stage)

module _ (os : Winsock) where
  open os use {invalid_socket, socket_ret, connect_ret, recv_ret, getsockname_ret, ntohs}

  -- One call of ClientFunc: the next one, `none` where the thread has ended. No result is a read past
  -- the array. AddInfo sends messages to the box, and waits where the dialog's thread takes none.
  unfoldable pub receive_call : Bool → Stage → ClientApp → Option (Option Stage × ClientApp)
  receive_call free watching a =
      let (ready, h) = select_socket os a.client.m_socket 100 read a.log in
      some (some (if ready then receiving else watching), with_log a h)
  receive_call free receiving a =
      let r = recv_ret a.log a.client.m_socket buf_size in
      let next = if is_positive r.count then asking (received_in buf_size r) else telling in
      some (some next, with_log a (recv a.client.m_socket buf_size ∷ a.log))
  receive_call free (asking msg) a =
      some (some (showing msg), with_log a (getpeername a.client.m_socket ∷ a.log))
  receive_call false (showing msg) a = some (some (showing msg), a)
  receive_call true (showing msg) a = elim (c_string msg) [
    | none ↦ none
    | some text ↦ some (some (answering msg), with_log a (add_info os (text ++ codes "\n") a.log))
  ]
  receive_call free (answering msg) a =
      some (some watching, with_log a (send a.client.m_socket msg ∷ a.log))
  receive_call false telling a = some (some telling, a)
  receive_call true telling a =
      some (some marking, with_log a (add_info os disconnected_text a.log))
  receive_call free marking a = some (some closing, record a { server_status = off })
  receive_call free closing a = some (
    none,
    record a {
      receive_threads = a.receive_threads - 1;
      log = shutdown_both a.client.m_socket ∷ a.log;
    },
  )

  -- A thread that is not there makes no call.
  thread_step : ℕ → Option Stage → Process → Option Process
  thread_step i none s = some s
  thread_step i (some stage) s =
      and_then (receive_call (takes_messages s.place) stage s.app)
        (λ (r : Option Stage × ClientApp).
          some (record s { app = r.1; threads = moved s.threads i r.0 }))

  -- One call of ConnectToServer.
  unfoldable pub connect_call : Place → Process → Process
  connect_call idle s = s
  connect_call creating s =
      let a = s.app in
      let sock = socket_ret a.log in
      record s {
        app = record a { client = record (a.client) { m_socket = sock }; log = socket ∷ a.log };
        place = if sock == invalid_socket then idle else connecting;
      }
  connect_call connecting s =
      let a = s.app in
      let sock = a.client.m_socket in
      let addr = server_addr os a.client in
      let h = connect sock addr ∷ a.log in
      if is_minus_one (connect_ret a.log sock addr)
      then record s { app = with_log a h; place = idle }
      else record {
        app = record a { receive_threads = a.receive_threads + 1; log = h };
        place = naming;
        threads = s.threads ++ watching ∷ [];
      }
  connect_call naming s =
      let a = s.app in
      let name = getsockname_ret a.log a.client.m_socket in
      let h = getsockname a.client.m_socket ∷ a.log in
      if not (is_zero name.ret)
      then record s { app = with_log a h; place = failing }
      else record s {
        app = record a { own_port = ntohs name.addr.sin_port; log = h };
        place = announcing;
      }
  connect_call failing s = record s {
    app = with_log (s.app) (message_box port_failed_text ∷ s.app.log);
    place = idle;
  }
  connect_call announcing s = record s {
    app =
        with_log (s.app)
          (replace_sel info_box connected_text ∷ set_sel info_box minus_one minus_one ∷ s.app.log);
    place = switching;
  }
  connect_call switching s = record s { app = record (s.app) { server_status = on }; place = idle }

  -- What the dialog's thread does with a click, and with a key, while it waits for messages.
  start_connect : Place → Process → Process
  start_connect idle s =
      let a = s.app in
      record s {
        app = record a { client = set_ip (codes "127.0.0.1") (set_port 8888 a.client) };
        place = creating;
      }
  start_connect other s = s

  handle_key : Place → Message → Process → Process
  handle_key idle m s = record s { app = (pre_translate_message os (λ _. false) m s.app).1 }
  handle_key other m s = s

  -- `none` is an undefined read, which ends the process.
  unfoldable pub step : Event → Process → Option Process
  unfolding thread_step start_connect handle_key
  step click s = some (start_connect s.place s)
  step dialog_call s = some (connect_call s.place s)
  step (thread_call i) s = thread_step i (get_elem? s.threads i) s
  step (presses m) s = some (handle_key s.place m s)

  unfoldable pub run : List Event → Process → Option Process
  run [] s = some s
  run (e ∷ es) s = and_then (step e s) (run es)

-- The process where no thread is inside a turn and the dialog waits for messages.
abbrev pub at_rest : ClientApp → Process
at_rest a = record { app = a; place = idle; threads = replicate a.receive_threads watching }
