-- ===== src/Client/System.antt =====
-- The client process as a whole (winSockClient/PCClient/ClientDlg.cpp with
-- winSockServer/src/TcpClient.cpp): the user interface thread and the receiving threads take turns in
-- any order, and a turn is not interrupted. All receiving threads run ClientFunc on the one TcpClient.
pub mod Running
pub mod Sockets
use open_chat.Base.{ℕ, zero, suc, Bool, false, List, [], ◌∷◌, Option, none, some, and_then}
use open_chat.Platform.{Winsock, Log}
use open_chat.Server.Input.{Message}
use open_chat.Server.Threads.{Turn, goes_on, ends, fault}
use open_chat.Client.Tcp.{ClientApp, client_dlg, receive_turn}
use open_chat.Client.Dialog.{on_clicked_connect, pre_translate_message}

pub data Event : Type 0 where
  connects : Event
  receives : Event
  presses : Message → Event

module _ (os : Winsock) where
  -- A receiving thread after its turn.
  unfoldable pub after_receive : Turn ClientApp → Option ClientApp
  after_receive (goes_on a) = some a
  after_receive (ends a) = some a
  after_receive fault = none

  -- A thread that is not there takes no turn.
  unfoldable pub receive_step : ℕ → ClientApp → Option ClientApp
  receive_step zero a = some a
  receive_step (suc n) a = after_receive (receive_turn os a)

  -- `none` is an undefined read, which ends the process.
  unfoldable pub step : Event → ClientApp → Option ClientApp
  unfolding receive_step after_receive
  step connects a = some (on_clicked_connect os a)
  step receives a = receive_step a.receive_threads a
  step (presses m) a = some (pre_translate_message os (λ _. false) m a).1

  unfoldable pub run : List Event → ClientApp → Option ClientApp
  run [] a = some a
  run (e ∷ es) a = and_then (step e a) (run es)
