-- ===== src/Client/Dialog.antt =====
-- PCClientDlg (winSockClient/PCClient/ClientDlg.cpp).
use Prim.Native.Nat.{bit_and}
use open_chat.Base.{
  ℕ, Bool, true, false, not, [], ◌∷◌, ◌++◌, ◌==◌, if◌then◌else◌, ℤ, pos, negsuc, minus_one,
}
use open_chat.Text.{Text, codes}
use open_chat.Platform.{
  Winsock, Log, ServerStatus, on, off, getsockname, closesocket, set_sel, replace_sel, info_box,
  message_box, send, edit_send, get_window_text, set_window_text, default_handler, about_dialog,
}
use open_chat.Client.Tcp.{ClientApp, with_log, set_port, set_ip, connect_server}
use open_chat.Server.Input.{Message, key_escape, key_return, key_other, no_key}

abbrev pub is_zero : ℤ → Bool
is_zero (pos n) = n == 0
is_zero (negsuc n) = false

abbrev pub port_failed_text : Text
port_failed_text = codes "获取客户端端口失败！"

abbrev pub connected_text : Text
connected_text = codes "连接服务器成功\n"

-- PCClientDlg::SetServerState
unfoldable pub set_server_state : ServerStatus → ClientApp → ClientApp
set_server_state state a = record a { server_status = state }

-- PCClientDlg::GetQueryString
unfoldable pub get_query_string : Text → Text
get_query_string input = codes "'" ++ (input ++ codes "'")

module _ (os : Winsock) where
  -- The rest of ConnectToServer after Connect.
  unfoldable pub learn_port : ClientApp → Bool × ClientApp
  learn_port a =
      let name = os.getsockname_ret a.log a.client.m_socket in
      let h = getsockname a.client.m_socket ∷ a.log in
      if not (is_zero name.ret) then (false, with_log a (message_box port_failed_text ∷ h)) else (
        true,
        record a {
          own_port = os.ntohs name.addr.sin_port;
          server_status = on;
          log = replace_sel info_box connected_text ∷ set_sel info_box minus_one minus_one ∷ h;
        },
      )

  -- PCClientDlg::ConnectToServer
  unfoldable pub connect_to_server : ClientApp → Bool × ClientApp
  connect_to_server a =
      let c = set_ip (codes "127.0.0.1") (set_port 8888 a.client) in
      let (done, b) = connect_server os (record a { client = c }) in
      if done then learn_port b else (false, b)

  -- PCClientDlg::OnBnClickedMfcbuttonConnect
  unfoldable pub on_clicked_connect : ClientApp → ClientApp
  on_clicked_connect a = (connect_to_server a).1

  -- PCClientDlg::PreTranslateMessage: the result, and the state after.
  unfoldable pub pre_translate_message :
      (base : Log → Bool) → Message → ClientApp → Bool × ClientApp
  pre_translate_message base key_escape a = (true, a)
  pre_translate_message base key_return a =
      let str = os.narrow (os.window_text a.log edit_send) in
      (
        true,
        with_log a (
            set_window_text edit_send []
            ∷ send a.client.m_socket str
            ∷ get_window_text edit_send
            ∷ a.log),
      )
  pre_translate_message base key_other a = (base a.log, with_log a (default_handler ∷ a.log))
  pre_translate_message base no_key a = (base a.log, with_log a (default_handler ∷ a.log))

-- PCClientDlg::~PCClientDlg
unfoldable pub destroy : ClientApp → ClientApp
destroy a = record a { server_status = off; log = closesocket a.client.m_socket ∷ a.log }

abbrev pub idm_aboutbox : ℕ
idm_aboutbox = 0x0010

-- PCClientDlg::OnSysCommand
unfoldable pub on_sys_command : ℕ → Log → Log
on_sys_command id h =
    if bit_and id 0xFFF0 == idm_aboutbox then about_dialog ∷ h else default_handler ∷ h
