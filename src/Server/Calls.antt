-- ===== src/Server/Calls.antt =====
-- The server process a call at a time (winSockServer/): the accept thread stands at one of the calls
-- of SelectFunc, each client thread at one of the calls of ClientFunc, and a step is one call of one
-- of them, or one handler of the dialog other than those of the first two buttons.
pub mod Leaving
pub mod Standing
pub mod InStep
pub mod Moves
pub mod Arrivals
pub mod Stepping
pub mod Running
pub mod Agreement
pub mod Whole
pub mod Turns
use open_chat.Base.{
  ℕ, Bool, false, List, [], ◌∷◌, ◌++◌, map, length, drop, Option, none, some, get_elem?, modify,
  erase_at, ◌==◌, if◌then◌else◌, and_then, is_positive,
}
use open_chat.Text.{Text, codes, c_string}
use open_chat.ClientItem.{ClientItem}
use open_chat.Platform.{Winsock, read, recv}
use open_chat.Platform.ListCtrl.{ListCtrl}
use open_chat.Server.State.{App, max_buff, with_log, with_server, with_list}
use open_chat.Server.Tcp.{select_socket, delete_client}
use open_chat.Server.ClientView.{remove_client, notify_ui, add_info}
use open_chat.Server.Threads.{received_in, leave_message}
use open_chat.Server.Threads.Steps.{Place, at_head, returned, advance}
use open_chat.Server.Buttons.{on_timer, is_enabled, id_button_3}
use open_chat.Server.Input.{Message, pre_translate_message, FileInput, on_btn_file}

-- The call that a thread of ClientFunc makes next: Select, recv, AddInfo with the array received,
-- RemoveClient, DeleteClient, NotifyUi.
pub data Stage : Type 0 where
  watching receiving : Stage
  showing : List ℕ → Stage
  removing deleting leaving : Stage

pub record Thread : Type 0 where
  pub client : ClientItem
  pub stage : Stage

-- A thread that has just been started.
abbrev pub fresh : ClientItem → Thread
fresh c = record { client = c; stage = watching }

-- `client_threads` of the dialog's state are all threads that were started, and `threads` those that
-- have not ended.
pub record Process (lc : ListCtrl) : Type 0 where
  pub app : App lc
  pub place : Place
  pub threads : List Thread

pub data Event : Type 0 where
  accept_call : Event
  client_call : (thread : ℕ) → Event
  presses : Message → Event
  picks_file : FileInput → Event
  ticks : (timer : ℕ) → Text → Event
  checks : (row : ℕ) → Bool → Event

-- The threads, where the one at index `i` has made its call.
abbrev pub moved : List Thread → ℕ → Option Stage → List Thread
moved ts i none = erase_at ts i
moved ts i (some stage) = modify ts i (λ (t : Thread). record t { stage = stage })

-- The threads that a call has started.
abbrev pub started : {lc : ListCtrl} → App lc → App lc → List Thread
started a b = map fresh (drop (length a.client_threads) b.client_threads)

module _ (os : Winsock) {lc : ListCtrl} where
  -- One call of ClientFunc: the next one, `none` where the thread has ended. No result is a read past
  -- the array.
  unfoldable pub serve : ClientItem → Stage → App lc → Option (Option Stage × App lc)
  serve c watching a =
      let (ready, h) = select_socket os c.c_socket 100 read a.log in
      some (some (if ready then receiving else watching), with_log a h)
  serve c receiving a =
      let r = os.recv_ret a.log c.c_socket max_buff in
      let next = if is_positive r.count then showing (received_in max_buff r) else removing in
      some (some next, with_log a (recv c.c_socket max_buff ∷ a.log))
  serve c (showing buffer) a = elim (c_string buffer) [
    | none ↦ none
    | some msg ↦ some (some watching, with_log a (add_info os (msg ++ codes "\n") a.log))
  ]
  serve c removing a = some (some deleting, remove_client os lc c a)
  serve c deleting a =
      let left = delete_client c.c_port a.server.clients in
      some (some leaving, with_server a (record (a.server) { clients = left }))
  serve c leaving a = some (none, notify_ui os lc (leave_message c) a)

  -- A thread that is not there makes no call.
  pub client_step : ℕ → Option Thread → Process lc → Option (Process lc)
  client_step i none s = some s
  client_step i (some t) s = and_then (serve t.client t.stage s.app) (λ (r : Option Stage × App lc).
      some (record s { app = r.1; threads = moved s.threads i r.0 }))

  accept_step : Process lc → Option (Process lc)
  accept_step s = and_then (advance os s.place s.app) (λ (r : Place × App lc).
      some (record { app = r.1; place = r.0; threads = s.threads ++ started s.app r.1 }))

  -- What a handler of the dialog leaves.
  pub handler : Event → App lc → App lc
  handler accept_call a = a
  handler (client_call i) a = a
  handler (presses m) a = (pre_translate_message os (λ _. false) m a).1
  handler (picks_file f) a = if is_enabled id_button_3 a.log then on_btn_file f a else a
  handler (ticks id now) a = on_timer id now a
  handler (checks row b) a = with_list a (lc.set_check a.client_list row b)

  -- `none` is an exception or an undefined read, which ends the process.
  unfoldable pub step : Event → Process lc → Option (Process lc)
  unfolding accept_step client_step handler
  step accept_call s = accept_step s
  step (client_call i) s = client_step i (get_elem? s.threads i) s
  step (presses m) s = some (record s { app = handler (presses m) s.app })
  step (picks_file f) s = some (record s { app = handler (picks_file f) s.app })
  step (ticks id now) s = some (record s { app = handler (ticks id now) s.app })
  step (checks row b) s = some (record s { app = handler (checks row b) s.app })

  unfoldable pub run : List Event → Process lc → Option (Process lc)
  run [] s = some s
  run (e ∷ es) s = and_then (step e s) (run es)

-- The process once the open button has been handled: the accept thread runs if Init succeeded.
abbrev pub opened : {lc : ListCtrl} → App lc → Process lc
opened a = record {
  app = a;
  place = if a.accept_threads == 0 then returned else at_head;
  threads = [];
}
