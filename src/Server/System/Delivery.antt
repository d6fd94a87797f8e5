-- ===== src/Server/System/Delivery.antt =====
-- Whom a text typed into the server reaches (winSockServer/).
use open_chat.Base.{
  ℕ, ◌-◌, ◌<◌, ◌^◌, ◌%◌, ◌≡◌, ◌≢◌, refl, ap, List, [], ◌∷◌, ◌++◌, map, length, All, some,
}
use open_chat.Text.{Text, format_ld}
use open_chat.Text.Decimal.{tcstoul-format_ld}
use open_chat.ClientItem.{ClientItem}
use open_chat.Platform.{Winsock, edit_send, get_window_text, set_window_text}
use open_chat.Platform.ListCtrl.{ListCtrl, Row}
use open_chat.Server.State.{App}
use open_chat.Server.Input.{press_return}
use open_chat.Server.Input.Sending.{picked, ticks_of, handles, sends, press_return-rows}
use open_chat.Server.System.{Event, closes, run, opened_dialog}
use open_chat.Server.System.InSync.{entry, shown, Documented, cons-eq}
use open_chat.Server.System.Agreement.{run-shows_clients}

-- The sockets of the clients, as far as %ld and _tcstoul keep them.
abbrev pub sockets : List ClientItem → List ℕ
sockets = map (λ c. c.c_socket % 2 ^ 32)

handles-shown :
    (os : Winsock) (rs : List Row) (cs : List ClientItem)
    → map entry rs ≡ map (shown os) cs
    → handles rs ≡ sockets cs
handles-shown os [] [] e = refl
handles-shown os [] (c ∷ cs) e = absurd (cc)
handles-shown os (r ∷ rs) [] e = absurd (cc)
handles-shown os (r ∷ rs) (c ∷ cs) e =
    let (one, rest) = cons-eq e in
    let text : r.socket_text ≡ format_ld c.c_socket = ap (λ (t : Text × Text × Text). t.2) one in
    rw (text, tcstoul-format_ld c.c_socket, handles-shown os rs cs rest) refl

module _ (os : Winsock) {lc : ListCtrl} (d : Documented os) where
  -- After any schedule of fewer than 2^32 - 1 turns without a close, from the dialog with an empty list,
  -- the Return key sends the typed text once to each client of TcpServer's vector whose row is checked,
  -- in the order of the vector, and to nobody else; a socket is given by its low 32 bits. (Ports have 16
  -- bits, and inet_ntop and inet_ntoa give one text for an address.)
  pub press_return-run :
      (ctrl : lc.Ctrl) (es : List Event) {a : App lc}
      → lc.rows ctrl ≡ []
      → All (λ e. e ≢ closes) es
      → length es < 2 ^ 32 - 1
      → run os es (opened_dialog os lc ctrl) ≡ some a
      → (press_return os a).log
        ≡ set_window_text edit_send []
          ∷ (sends
                (os.narrow (os.window_text a.log edit_send))
                (picked (ticks_of (lc.rows a.client_list)) (sockets a.server.clients))
              ++ get_window_text edit_send ∷ a.log)
  press_return-run ctrl es {a} empty kept lt e =
      rw
        (
          press_return-rows os a,
          handles-shown os (lc.rows a.client_list) a.server.clients
              (run-shows_clients os d ctrl es empty kept lt e),
        )
        refl
