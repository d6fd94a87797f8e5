-- ===== src/Server/State.antt =====
-- The state of the server process: the members of TcpServer (winSockServer/include/TcpServer.h) and
-- of PCServerDlg (winSockServer/PCServer/ServerDlg.h) that the code changes, the detached threads
-- that run, and the history of the calls made.
use open_chat.Base.{ℕ, Bool, true, false, List, []}
use open_chat.Text.{Text}
use open_chat.ClientItem.{ClientItem}
use open_chat.Platform.{Winsock, Log}
use open_chat.Platform.ListCtrl.{ListCtrl}

abbrev pub max_buff : ℕ
max_buff = 256

pub record TcpServer : Type 0 where
  pub lis_sock : ℕ
  pub port : ℕ
  pub run : Bool
  pub clients : List ClientItem

-- The constructor of TcpServer.
unfoldable pub tcp_server : Winsock → ℕ → TcpServer
tcp_server os port = record { lis_sock = os.invalid_socket; port = port; run = false; clients = [] }

pub record ServerDlg (lc : ListCtrl) : Type 0 where
  pub server : TcpServer
  pub server_port : ℕ
  pub client_list : lc.Ctrl
  pub tool_bar_visible : Bool
  pub info : Text

-- The constructor of PCServerDlg, around the list control that the dialog template creates.
unfoldable pub server_dlg : Winsock → (lc : ListCtrl) → lc.Ctrl → ServerDlg lc
unfolding tcp_server
server_dlg os lc ctrl = record {
  server = tcp_server os 8888;
  server_port = 8888;
  client_list = ctrl;
  tool_bar_visible = true;
  info = [];
}

-- A client thread holds its own copy of the item.
pub record App (lc : ListCtrl) : Type 0 where
  pub dlg : ServerDlg lc
  pub open dlg use *
  pub accept_threads : ℕ
  pub client_threads : List ClientItem
  pub log : Log

-- The dialog before any button is pressed.
unfoldable pub start : Winsock → (lc : ListCtrl) → lc.Ctrl → App lc
unfolding server_dlg
start os lc ctrl = record {
  dlg = server_dlg os lc ctrl;
  accept_threads = 0;
  client_threads = [];
  log = [];
}

module _ {lc : ListCtrl} where
  abbrev pub with_log : App lc → Log → App lc
  with_log a h = record a { log = h }

  abbrev pub with_server : App lc → TcpServer → App lc
  with_server a s = record a { dlg = record (a.dlg) { server = s } }

  abbrev pub with_list : App lc → lc.Ctrl → App lc
  with_list a c = record a { dlg = record (a.dlg) { client_list = c } }

  abbrev pub with_info : App lc → Text → App lc
  with_info a t = record a { dlg = record (a.dlg) { info = t } }
