-- ===== src/Client/Calls/Totality.antt =====
-- The client never reads past an array while every message is shorter than it
-- (winSockServer/src/TcpClient.cpp).
use open_chat.Base.{
  ℕ, ◌≡◌, refl, Bool, true, false, not, List, [], ◌∷◌, All, All-erase_at, All-modify, All-append,
  All-get_elem?, Option, none, some, get_elem?, if_ind, IsSomeWith, IsSomeWith-then,
  IsSomeWith-some, is_positive, is_minus_one,
}
use open_chat.Text.{Text, c_string}
use open_chat.Platform.{Winsock, read}
use open_chat.Server.Input.{Message}
use open_chat.Server.System.Faultless.{ShortMessages, received_in-terminated}
use open_chat.Client.Tcp.{ClientApp, client_dlg, select_socket, buf_size, server_addr}
use open_chat.Client.Dialog.{is_zero}
use open_chat.Client.Calls.{
  Stage, watching, receiving, asking, showing, answering, telling, marking, closing, Place, idle,
  creating, connecting, naming, failing, announcing, switching, Process, Event, click, dialog_call,
  thread_call, presses, takes_messages, moved, receive_call, start_connect, handle_key, thread_step,
  connect_call, step, run, at_rest,
}

-- What a thread has received ends in its array.
abbrev Terminated : Stage → Type 0
Terminated (asking msg) = (t : Text) × (c_string msg ≡ some t)
Terminated (showing msg) = (t : Text) × (c_string msg ≡ some t)
Terminated other = Unit

abbrev TerminatedNext : Option Stage × ClientApp → Type 0
TerminatedNext (none, a) = Unit
TerminatedNext (some stage, a) = Terminated stage

abbrev AllTerminated : Process → Type 0
AllTerminated s = All Terminated s.threads

All-moved :
    (ts : List Stage) (i : ℕ) (o : Option Stage) (a : ClientApp)
    → TerminatedNext (o, a)
    → All Terminated ts
    → All Terminated (moved ts i o)
All-moved ts i none a next all = All-erase_at Terminated ts i all
All-moved ts i (some stage) a next all = All-modify Terminated ts i (λ _. stage) (λ _. next) all

module _ (os : Winsock) (short : ShortMessages os) where
  receive_call-Terminated :
      (free : Bool) (stage : Stage) (a : ClientApp)
      → Terminated stage
      → IsSomeWith TerminatedNext (receive_call os free stage a)
  unfolding receive_call
  receive_call-Terminated free watching a k =
      if_ind Terminated (select_socket os a.client.m_socket 100 read a.log).0 (λ _. tt) (λ _. tt)
  receive_call-Terminated free receiving a k =
      let r = os.recv_ret a.log a.client.m_socket buf_size in
      if_ind Terminated (is_positive r.count)
        (λ got. received_in-terminated buf_size r (short a.log a.client.m_socket) got) (λ _. tt)
  receive_call-Terminated free (asking msg) a k = k
  receive_call-Terminated false (showing msg) a k = k
  receive_call-Terminated true (showing msg) a (t, e) = rw (e, receive_call) tt
  receive_call-Terminated free (answering msg) a k = tt
  receive_call-Terminated false telling a k = tt
  receive_call-Terminated true telling a k = tt
  receive_call-Terminated free marking a k = tt
  receive_call-Terminated free closing a k = tt

  thread_step-Terminated :
      (i : ℕ) (o : Option Stage) (s : Process)
      → get_elem? s.threads i ≡ o
      → AllTerminated s
      → IsSomeWith AllTerminated (thread_step os i o s)
  unfolding thread_step
  thread_step-Terminated i none s there k = k
  thread_step-Terminated i (some stage) s there k =
      IsSomeWith-then TerminatedNext AllTerminated
        (receive_call os (takes_messages s.place) stage s.app) _
        (receive_call-Terminated (takes_messages s.place) stage s.app
          (All-get_elem? Terminated s.threads i stage there k))
        (λ (o, a) next. All-moved s.threads i o a next k)

  connect_call-Terminated :
      (p : Place) (s : Process) → AllTerminated s → AllTerminated (connect_call os p s)
  unfolding connect_call
  connect_call-Terminated idle s k = k
  connect_call-Terminated creating s k = k
  connect_call-Terminated connecting s k =
      let a = s.app in
      if_ind AllTerminated
        (is_minus_one (os.connect_ret a.log a.client.m_socket (server_addr os a.client))) (λ _. k)
        (λ _. All-append Terminated s.threads (watching ∷ []) k (tt, tt))
  connect_call-Terminated naming s k =
      if_ind AllTerminated (not (is_zero (os.getsockname_ret s.app.log s.app.client.m_socket).ret))
        (λ _. k) (λ _. k)
  connect_call-Terminated failing s k = k
  connect_call-Terminated announcing s k = k
  connect_call-Terminated switching s k = k

  start_connect-threads : (p : Place) (s : Process) → (start_connect os p s).threads ≡ s.threads
  unfolding start_connect
  start_connect-threads idle s = refl
  start_connect-threads creating s = refl
  start_connect-threads connecting s = refl
  start_connect-threads naming s = refl
  start_connect-threads failing s = refl
  start_connect-threads announcing s = refl
  start_connect-threads switching s = refl

  handle_key-threads :
      (p : Place) (m : Message) (s : Process) → (handle_key os p m s).threads ≡ s.threads
  unfolding handle_key
  handle_key-threads idle m s = refl
  handle_key-threads creating m s = refl
  handle_key-threads connecting m s = refl
  handle_key-threads naming m s = refl
  handle_key-threads failing m s = refl
  handle_key-threads announcing m s = refl
  handle_key-threads switching m s = refl

  step-Terminated :
      (e : Event) (s : Process) → AllTerminated s → IsSomeWith AllTerminated (step os e s)
  unfolding step
  step-Terminated click s k = rw start_connect-threads k
  step-Terminated dialog_call s k = connect_call-Terminated s.place s k
  step-Terminated (thread_call i) s k = thread_step-Terminated i (get_elem? s.threads i) s refl k
  step-Terminated (presses m) s k = rw handle_key-threads k

  run-Terminated :
      (es : List Event) (s : Process) → AllTerminated s → IsSomeWith AllTerminated (run os es s)
  unfolding run
  run-Terminated [] s k = k
  run-Terminated (e ∷ es) s k =
      IsSomeWith-then AllTerminated AllTerminated (step os e s) (run os es) (step-Terminated e s k)
        (λ t m. run-Terminated es t m)

-- If every message that `recv` hands out is shorter than the array of ClientFunc, no sequence of calls
-- of the client's threads and its dialog, from the fresh dialog, reads past an array: each has a final
-- state.
pub client_run_completes :
    (os : Winsock) (es : List Event)
    → ShortMessages os
    → (s : Process) × (run os es (at_rest (client_dlg os)) ≡ some s)
unfolding client_dlg
client_run_completes os es short =
    let (s, e, _) =
      IsSomeWith-some AllTerminated (run os es (at_rest (client_dlg os)))
        (run-Terminated os short es (at_rest (client_dlg os)) tt) in
    (s, e)
