-- ===== src/Server/Process.antt =====
-- The whole server process a call at a time (winSockServer/), the open and the close button included:
-- any number of threads of SelectFunc, which closing and opening again leaves, any number of threads of
-- ClientFunc, and the handlers of the dialog. A step is one call of one thread or one handler.
pub mod Embedding
pub mod Turns
pub mod ByCalls
pub mod Listening
pub mod Alone
pub mod Agreement
pub mod Reopening
pub mod Totality
mod Tests
use open_chat.Base.{
  ℕ, Bool, false, List, [], ◌∷◌, ◌++◌, Option, none, some, get_elem?, modify, erase_at, ◌==◌,
  if◌then◌else◌, and_then,
}
use open_chat.Text.{Text}
use open_chat.Platform.{Winsock}
use open_chat.Platform.ListCtrl.{ListCtrl}
use open_chat.Server.State.{App, with_list}
use open_chat.Server.Threads.Steps.{Place, at_head, returned, advance}
use open_chat.Server.Buttons.{
  on_btn_open, on_btn_close, on_timer, is_enabled, id_button_1, id_button_2, id_button_3,
}
use open_chat.Server.Input.{Message, pre_translate_message, FileInput, on_btn_file}
use open_chat.Server.System.{opened_dialog}
use open_chat.Server.Calls.{Stage, Thread, moved, started, serve}

-- Where each accept thread stands, and the client threads, of those that have not ended; the
-- `accept_threads` and `client_threads` of the dialog's state are all that were started.
pub record Process (lc : ListCtrl) : Type 0 where
  pub app : App lc
  pub places : List Place
  pub threads : List Thread

pub data Event : Type 0 where
  accept_call : (thread : ℕ) → Event
  client_call : (thread : ℕ) → Event
  opens closes : Event
  presses : Message → Event
  picks_file : FileInput → Event
  ticks : (timer : ℕ) → Text → Event
  checks : (row : ℕ) → Bool → Event

-- The accept threads, where the one at index `i` has made its call.
abbrev pub stood : List Place → ℕ → Place → List Place
stood ps i returned = erase_at ps i
stood ps i p = modify ps i (λ _. p)

-- The accept thread that a press of the open button has started, if it has.
abbrev pub spawned : {lc : ListCtrl} → App lc → App lc → List Place
spawned a b = if b.accept_threads == a.accept_threads then [] else at_head ∷ []

module _ (os : Winsock) {lc : ListCtrl} where
  -- A thread that is not there makes no call.
  pub accept_step : ℕ → Option Place → Process lc → Option (Process lc)
  accept_step i none s = some s
  accept_step i (some p) s = and_then (advance os p s.app) (λ (r : Place × App lc). some (record {
    app = r.1;
    places = stood s.places i r.0;
    threads = s.threads ++ started s.app r.1;
  }))

  pub client_step : ℕ → Option Thread → Process lc → Option (Process lc)
  client_step i none s = some s
  client_step i (some t) s =
      and_then (serve os t.client t.stage s.app) (λ (r : Option Stage × App lc).
        some (record s { app = r.1; threads = moved s.threads i r.0 }))

  press_open : Process lc → Process lc
  press_open s =
      let b = on_btn_open os s.app in
      if is_enabled id_button_1 s.app.log
      then record s { app = b; places = s.places ++ spawned s.app b }
      else s

  -- What a handler of the dialog other than that of the open button leaves.
  handler : Event → App lc → App lc
  handler closes a = if is_enabled id_button_2 a.log then on_btn_close os a else a
  handler (presses m) a = (pre_translate_message os (λ _. false) m a).1
  handler (picks_file f) a = if is_enabled id_button_3 a.log then on_btn_file f a else a
  handler (ticks id now) a = on_timer id now a
  handler (checks row b) a = with_list a (lc.set_check a.client_list row b)
  handler (accept_call i) a = a
  handler (client_call i) a = a
  handler opens a = a

  -- `none` is an exception or an undefined read, which ends the process.
  unfoldable pub step : Event → Process lc → Option (Process lc)
  unfolding accept_step client_step press_open handler
  step (accept_call i) s = accept_step i (get_elem? s.places i) s
  step (client_call i) s = client_step i (get_elem? s.threads i) s
  step opens s = some (press_open s)
  step closes s = some (record s { app = handler closes s.app })
  step (presses m) s = some (record s { app = handler (presses m) s.app })
  step (picks_file f) s = some (record s { app = handler (picks_file f) s.app })
  step (ticks id now) s = some (record s { app = handler (ticks id now) s.app })
  step (checks row b) s = some (record s { app = handler (checks row b) s.app })

  unfoldable pub run : List Event → Process lc → Option (Process lc)
  run [] s = some s
  run (e ∷ es) s = and_then (step e s) (run es)

-- The process once the dialog is shown, before any button is pressed.
abbrev pub shown : Winsock → (lc : ListCtrl) → lc.Ctrl → Process lc
shown os lc ctrl = record { app = opened_dialog os lc ctrl; places = []; threads = [] }
