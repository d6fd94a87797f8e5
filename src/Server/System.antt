-- ===== src/Server/System.antt =====
-- The server process as a whole: the user interface thread, the accept threads and the client
-- threads of winSockServer/ take turns in any order. A turn is one event handler or one turn of a
-- thread's loop (`while (IsRun())` in SelectFunc, `while (pMainDlg)` in ClientFunc) and is not
-- interrupted; Server/Calls cuts the turns of the threads into their calls.
pub mod InSync
pub mod Turns
pub mod Faultless
pub mod Agreement
pub mod Delivery
pub mod Guard
pub mod Listening
pub mod Opening
pub mod Serving
pub mod Kept
use open_chat.Base.{
  ℕ, zero, suc, ◌-◌, Bool, true, false, List, [], ◌∷◌, Option, none, some, get_elem?, erase_at,
  if◌then◌else◌, and_then,
}
use open_chat.Text.{Text}
use open_chat.ClientItem.{ClientItem}
use open_chat.Platform.{Winsock, Log}
use open_chat.Platform.ListCtrl.{ListCtrl}
use open_chat.Server.State.{App, start, with_list, with_log}
use open_chat.Server.Threads.{Turn, goes_on, ends, fault, accept_turn, client_turn}
use open_chat.Server.Buttons.{
  on_btn_open, on_btn_close, on_timer, is_enabled, id_button_1, id_button_2, id_button_3,
}
use open_chat.Server.Setup.{show_dialog}
use open_chat.Server.Input.{Message, pre_translate_message, FileInput, on_btn_file}

pub data Event : Type 0 where
  accepts : Event
  serves : (thread : ℕ) → Event
  opens closes : Event
  presses : Message → Event
  picks_file : FileInput → Event
  ticks : (timer : ℕ) → Text → Event
  checks : (row : ℕ) → Bool → Event

module _ (os : Winsock) {lc : ListCtrl} where
  -- The accept thread, after its turn.
  unfoldable pub after_accept : Turn (App lc) → Option (App lc)
  after_accept (goes_on a) = some a
  after_accept (ends a) = some (record a { accept_threads = a.accept_threads - 1 })
  after_accept fault = none

  -- The client thread at index `i`, after its turn.
  unfoldable pub after_serve : ℕ → Turn (App lc) → Option (App lc)
  after_serve i (goes_on a) = some a
  after_serve i (ends a) = some (record a { client_threads = erase_at a.client_threads i })
  after_serve i fault = none

  -- A thread that is not there takes no turn.
  unfoldable pub accept_step : ℕ → App lc → Option (App lc)
  accept_step zero a = some a
  accept_step (suc n) a = after_accept (accept_turn os a)

  unfoldable pub serve_step : ℕ → Option ClientItem → App lc → Option (App lc)
  serve_step i none a = some a
  serve_step i (some c) a = after_serve i (client_turn os c a)

  -- `none` is an exception or an undefined read, which ends the process.
  unfoldable pub step : Event → App lc → Option (App lc)
  unfolding accept_step serve_step after_accept after_serve
  step accepts a = accept_step a.accept_threads a
  step (serves i) a = serve_step i (get_elem? a.client_threads i) a
  step opens a = some (if is_enabled id_button_1 a.log then on_btn_open os a else a)
  step closes a = some (if is_enabled id_button_2 a.log then on_btn_close os a else a)
  step (presses m) a = some (pre_translate_message os (λ _. false) m a).1
  step (picks_file f) a = some (if is_enabled id_button_3 a.log then on_btn_file f a else a)
  step (ticks id now) a = some (on_timer id now a)
  step (checks row b) a = some (with_list a (lc.set_check a.client_list row b))

  unfoldable pub run : List Event → App lc → Option (App lc)
  run [] a = some a
  run (e ∷ es) a = and_then (step e a) (run es)

-- The dialog once it is shown, before any button is pressed.
unfoldable pub opened_dialog : Winsock → (lc : ListCtrl) → lc.Ctrl → App lc
unfolding start show_dialog
opened_dialog os lc ctrl =
    let a = start os lc ctrl in with_log a (show_dialog os a.tool_bar_visible a.log)
