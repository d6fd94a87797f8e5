-- ===== src/Chat.antt =====
-- The server and a client together: a text typed at the server goes to the client's thread
-- (winSockServer/src/TcpClient.cpp), which shows it and sends it back, and the client's thread at the
-- server (winSockServer/src/TcpServer.cpp) shows it again.
mod Tests
use open_chat.Base.{
  ℕ, ◌+◌, ◌-◌, ◌<◌, ◌≡◌, refl, sym, ap, ◌∙◌, true, List, [], ◌∷◌, ◌++◌, length, length-append,
  length-replicate, append-nil, replicate, drop, drop-all, some, All, arith, is_positive,
}
use open_chat.Text.{Text, codes, c_string}
use open_chat.Text.Decimal.{c_string-padded}
use open_chat.ClientItem.{ClientItem}
use open_chat.Platform.{
  Winsock, Log, Received, read, recv, send, getpeername, edit_send, get_window_text,
  set_window_text,
}
use open_chat.Platform.ListCtrl.{ListCtrl}
use open_chat.Server.State.{App, max_buff, with_log}
use open_chat.Server.Tcp.{select_socket}
use open_chat.Server.ClientView.{add_info}
use open_chat.Server.Input.{press_return}
use open_chat.Server.Input.Sending.{picked, ticks_of, handles, sends, press_return-rows}
use open_chat.Server.Threads.{goes_on, client_turn, show_received, received_in}
use open_chat.Server.Threads.Buffer.{message, received_in-message}
use open_chat.Client.Tcp
use open_chat.Client.Tcp.{ClientApp, receive_turn, buf_size}
use open_chat.Client.Receiving.{receive_turn_echoes}

-- The block that the client sends back for a text.
abbrev pub echo_of : Text → List ℕ
echo_of t = t ++ replicate (buf_size - length t) 0

-- The history of a client thread at the server up to `recv`.
abbrev pub up_to_recv : Winsock → {lc : ListCtrl} → ClientItem → App lc → Log
up_to_recv os c a = recv c.c_socket max_buff ∷ (select_socket os c.c_socket 100 read a.log).1

client_turn_receives :
    (os : Winsock) {lc : ListCtrl} (c : ClientItem) (a : App lc) (r : Received)
    → (select_socket os c.c_socket 100 read a.log).0 ≡ true
    → os.recv_ret (select_socket os c.c_socket 100 read a.log).1 c.c_socket max_buff ≡ r
    → is_positive r.count ≡ true
    → client_turn os c a
      ≡ show_received os (received_in max_buff r) (with_log a (up_to_recv os c a))
unfolding client_turn
client_turn_receives os c a r ready got some_bytes = rw (ready, got, some_bytes) refl

show_received-some :
    (os : Winsock) {lc : ListCtrl} (buffer t : Text) (a : App lc)
    → c_string buffer ≡ some t
    → show_received os buffer a ≡ goes_on (with_log a (add_info os (t ++ codes "\n") a.log))
unfolding show_received
show_received-some os buffer t a e = rw (e, show_received) refl

-- What the server's thread of a client shows of a block that the client has sent back.
client_turn_shows :
    (os : Winsock) {lc : ListCtrl} (c : ClientItem) (a : App lc) (t : Text)
    → length t < buf_size
    → All (λ x. 0 < x) t
    → (select_socket os c.c_socket 100 read a.log).0 ≡ true
    → os.recv_ret (select_socket os c.c_socket 100 read a.log).1 c.c_socket max_buff
      ≡ message (echo_of t)
    → client_turn os c a ≡ goes_on (with_log a (add_info os (t ++ codes "\n") (up_to_recv os c a)))
client_turn_shows os c a t short text ready got =
    let size : length (echo_of t) ≡ max_buff = omega (
      arith,
      length-append t (replicate (buf_size - length t) 0),
      length-replicate {A = ℕ} (buf_size - length t) 0,
    ) in
    let full : max_buff - length (echo_of t) ≡ 0 = omega (arith, size) in
    let whole : received_in max_buff (message (echo_of t)) ≡ echo_of t =
      received_in-message max_buff (echo_of t) (omega (arith, size))
      ∙ ap (λ (k : ℕ). echo_of t ++ replicate k 0) full
      ∙ append-nil (echo_of t) in
    let b = with_log a (up_to_recv os c a) in
    client_turn_receives os c a (message (echo_of t)) ready got (ground (arith, size))
    ∙ ap (λ (buffer : List ℕ). show_received os buffer b) whole
    ∙ show_received-some os (echo_of t) t b
        (c_string-padded t (buf_size - length t) (omega arith) text)

-- A text goes round. The Return key sends the text of the edit box, as bytes, to the socket of each row
-- that is checked. If it has 1 to 255 bytes, none of them zero, and a client receives it in one piece, the
-- client shows it with a line feed and sends a block of 256 bytes back; and if the server receives this
-- block in one piece, it shows the same text with a line feed.
pub text_goes_round :
    (server client : Winsock) {lc : ListCtrl} (desk a : App lc) (c : ClientItem) (b : ClientApp)
    → let text = server.narrow (server.window_text desk.log edit_send) in
      let rs = lc.rows desk.client_list in
      let (there, g) = Tcp.select_socket client b.client.m_socket 100 read b.log in
      0 < length text
      → length text < buf_size
      → All (λ x. 0 < x) text
      → there ≡ true
      → client.recv_ret g b.client.m_socket buf_size ≡ message text
      → (select_socket server c.c_socket 100 read a.log).0 ≡ true
      → server.recv_ret (select_socket server c.c_socket 100 read a.log).1 c.c_socket max_buff
        ≡ message (echo_of text)
      → ((press_return server desk).log
          ≡ set_window_text edit_send []
            ∷ (sends text (picked (ticks_of rs) (handles rs))
                ++ get_window_text edit_send ∷ desk.log))
        × (receive_turn client b
            ≡ goes_on (
                Tcp.with_log b (
                  send b.client.m_socket (echo_of text)
                  ∷ Tcp.add_info client
                      (text ++ codes "\n")
                      (getpeername b.client.m_socket ∷ recv b.client.m_socket buf_size ∷ g))))
        × (client_turn server c a
            ≡ goes_on (with_log a (add_info server (text ++ codes "\n") (up_to_recv server c a))))
text_goes_round server client desk a c b some_text short text there sent here back = (
  ap (λ (t : App _). t.log) (press_return-rows server desk),
  receive_turn_echoes client b _ there sent some_text short text,
  client_turn_shows server c a _ short text here back,
)
