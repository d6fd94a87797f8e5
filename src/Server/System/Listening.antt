-- ===== src/Server/System/Listening.antt =====
-- Which sockets listen after Init and after UnInit (winSockServer/src/TcpServer.cpp).
use open_chat.Base.{
  ℕ, ◌≡◌, refl, ◌∙◌, ap, Bool, false, List, [], ◌∷◌, ◌==◌, if_ind, Bool-cases, inl, inr, arith,
  is_minus_one,
}
use open_chat.ClientItem.{ClientItem}
use open_chat.Platform.{Winsock, Log, set_pane_text, closesocket, socket, bind}
use open_chat.Server.State.{TcpServer}
use open_chat.Server.Tcp.{init, init_bind, init_listen, uninit, close_clients, listen_addr}
use open_chat.Text.{Text}
use open_chat.Server.Buttons.{enable_buttons}
use open_chat.Server.System.Guard.{listening, drop_socket, own_socket}

-- The sockets that listen are the server's own, for what Init returns.
abbrev Listens : Winsock → Bool × TcpServer × Log → Type 0
Listens os r = listening os r.2 ≡ own_socket r.1

drop_socket_comm :
    (s t : ℕ) (ss : List ℕ) → drop_socket s (drop_socket t ss) ≡ drop_socket t (drop_socket s ss)
drop_socket_comm s t [] = refl
drop_socket_comm s t (x ∷ ss) =
    let ih = drop_socket_comm s t ss in
    elim (Bool-cases (s == x)) [
      | inl p ↦ elim (Bool-cases (t == x)) [
        | inl q ↦ rw (p, q) ih
        | inr q ↦ rw (p, q, drop_socket, p) ih
      ]
      | inr p ↦ elim (Bool-cases (t == x)) [
        | inl q ↦ rw (p, q, drop_socket) ih
        | inr q ↦ rw (p, q, drop_socket, p) (ap (λ (r : List ℕ). x ∷ r) ih)
      ]
    ]

-- The calls of UnInit's loop leave no socket listening but those that listened before.
close_clients-listening :
    (os : Winsock) (lis : ℕ) (cs : List ClientItem) (h : Log)
    → drop_socket lis (listening os h) ≡ []
    → drop_socket lis (listening os (close_clients cs h)) ≡ []
unfolding close_clients
close_clients-listening os lis [] h e = e
close_clients-listening os lis (c ∷ cs) h e =
    close_clients-listening os lis cs (closesocket c.c_socket ∷ h)
      (drop_socket_comm lis c.c_socket (listening os h) ∙ ap (drop_socket c.c_socket) e)

own_socket-only : (s : TcpServer) → drop_socket s.lis_sock (own_socket s) ≡ []
own_socket-only s = ground arith

pub uninit-listening :
    (os : Winsock) (s : TcpServer) (h : Log)
    → listening os h ≡ own_socket s
    → listening os (uninit os s h).1 ≡ []
unfolding uninit
uninit-listening os s h e =
    close_clients-listening os s.lis_sock s.clients h
      (ap (drop_socket s.lis_sock) e ∙ own_socket-only s)

module _ (os : Winsock) (s : TcpServer) (off : s.run ≡ false) where
  init_listen-listening : (h : Log) → listening os h ≡ [] → Listens os (init_listen os s h)
  unfolding init_listen
  init_listen-listening h quiet = elim (Bool-cases (is_minus_one (os.listen_ret h s.lis_sock))) [
    | inl failed ↦ rw (failed, failed, quiet, off) refl
    | inr done ↦ rw (done, done, quiet) refl
  ]

  init_bind-listening : (h : Log) → listening os h ≡ [] → Listens os (init_bind os s h)
  unfolding init_bind
  init_bind-listening h quiet =
      if_ind (Listens os) (is_minus_one (os.bind_ret h s.lis_sock (listen_addr os s)))
        (λ _. rw (quiet, off) refl)
        (λ _. init_listen-listening (bind s.lis_sock (listen_addr os s) ∷ h) quiet)

pub init-listening :
    (os : Winsock) (s : TcpServer) (h : Log)
    → s.run ≡ false
    → listening os h ≡ []
    → listening os (init os s h).2 ≡ own_socket (init os s h).1
unfolding init
init-listening os s h off quiet =
    if_ind (Listens os) (os.socket_ret h == os.invalid_socket) (λ _. rw (quiet, off) refl)
      (λ _. init_bind-listening os (record s { lis_sock = os.socket_ret h }) off (socket ∷ h) quiet)

-- The status texts and the buttons leave the sockets as they were.
pub listening-enable_buttons :
    (os : Winsock) (first others : Bool) (text : Text) (h : Log)
    → listening os (enable_buttons first others (set_pane_text 0 text ∷ h)) ≡ listening os h
unfolding enable_buttons
listening-enable_buttons os first others text h = refl
