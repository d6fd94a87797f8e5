-- ===== src/Server/Tcp/Lifecycle.antt =====
-- Opening and closing the listening socket: Init, UnInit, Select and DeleteClient
-- (winSockServer/src/TcpServer.cpp).
use open_chat.Base.{
  ℕ, ◌≡◌, ◌≢◌, ◌↔◌, refl, ◌∙◌, Bool, true, false, List, [], ◌∷◌, ◌++◌, map, reverse, All, ◌==◌,
  arith, is_minus_one, is_positive, append_assoc, reverse-cons, if_ind, ==-eq, ==-ne, sym, min,
}
use open_chat.ClientItem.{ClientItem}
use open_chat.Platform.{Winsock, Log, Mode, Call, socket, bind, listen, select, closesocket}
use open_chat.Server.State.{TcpServer}
use open_chat.Server.Tcp.{
  init, init_bind, init_listen, uninit, close_clients, select_socket, delete_client, listen_addr,
}

-- closesocket for each client, in the order of the vector.
close_clients-eq :
    (cs : List ClientItem) (h : Log)
    → close_clients cs h ≡ reverse (map (λ c. closesocket c.c_socket) cs) ++ h
unfolding close_clients
close_clients-eq [] h = refl
close_clients-eq (c ∷ cs) h =
    close_clients-eq cs (closesocket c.c_socket ∷ h)
    ∙ rw (reverse-cons (closesocket c.c_socket) (map (λ c'. closesocket c'.c_socket) cs)) (
        sym (
          append_assoc (reverse (map (λ c'. closesocket c'.c_socket) cs))
            (closesocket c.c_socket ∷ []) h))

module _ (os : Winsock) (s : TcpServer) (h : Log) where
  -- The handle that `socket` returns.
  abbrev handle : ℕ
  handle = os.socket_ret h

  abbrev opened : TcpServer
  opened = record s { lis_sock = handle }

  abbrev binding : Call
  binding = bind handle (listen_addr os s)

  abbrev listening : Call
  listening = listen handle os.somaxconn

  -- How far Init came: what failed, the object, and the calls made.
  pub data InitResult (r : Bool × TcpServer × Log) : Type 0 where
    no_socket : handle ≡ os.invalid_socket → r ≡ (false, opened, socket ∷ h) → InitResult r
    no_bind :
        handle ≢ os.invalid_socket
        → is_minus_one (os.bind_ret (socket ∷ h) handle (listen_addr os s)) ≡ true
        → r ≡ (false, opened, binding ∷ socket ∷ h)
        → InitResult r
    no_listen :
        handle ≢ os.invalid_socket
        → is_minus_one (os.bind_ret (socket ∷ h) handle (listen_addr os s)) ≡ false
        → is_minus_one (os.listen_ret (binding ∷ socket ∷ h) handle) ≡ true
        → r ≡ (false, opened, listening ∷ binding ∷ socket ∷ h)
        → InitResult r
    running :
        handle ≢ os.invalid_socket
        → is_minus_one (os.bind_ret (socket ∷ h) handle (listen_addr os s)) ≡ false
        → is_minus_one (os.listen_ret (binding ∷ socket ∷ h) handle) ≡ false
        → r ≡ (true, record opened { run = true }, listening ∷ binding ∷ socket ∷ h)
        → InitResult r

  -- Init ends in exactly one of four ways, and in each the returned value, the object and the calls
  -- are these: it succeeds and sets the running flag just when all three calls do; the calls come in the
  -- order socket, bind, listen and stop at the first that fails; the port is the object's, in network
  -- order; and where bind or listen fails no closesocket is called, so the handle stays open.
  pub init-InitResult : InitResult (init os s h)
  unfolding init init_bind init_listen
  init-InitResult =
      if_ind InitResult (handle == os.invalid_socket)
        (λ invalid. no_socket (==-eq _ _ invalid) refl)
        (λ valid.
          if_ind InitResult (is_minus_one (os.bind_ret (socket ∷ h) handle (listen_addr os s)))
            (λ unbound. no_bind (==-ne _ _ valid) unbound refl)
            (λ bound.
              if_ind InitResult (is_minus_one (os.listen_ret (binding ∷ socket ∷ h) handle))
                (λ deaf. no_listen (==-ne _ _ valid) bound deaf refl)
                (λ hears. running (==-ne _ _ valid) bound hears refl)))

  -- UnInit closes every client's socket once, in the order of the vector, and then the listening
  -- socket; afterwards the object has no clients, is not running, and has neither socket nor port.
  uninit_lem : uninit os s h ≡ (
    record { lis_sock = os.invalid_socket; port = 0; run = false; clients = [] },
    closesocket s.lis_sock ∷ (reverse (map (λ c. closesocket c.c_socket) s.clients) ++ h),
  )
  unfolding uninit
  uninit_lem = rw (close_clients-eq s.clients h)

  -- Select makes one call, with the time-out cut to 1000 microseconds, and says yes exactly if `select` returned a positive number and left the socket in the set.
  select_socket_lem :
      (sock timeout : ℕ) (mode : Mode)
      → let r = select_socket os sock timeout mode h in
        let answer = os.select_ret h mode sock in
        ((r.0 ≡ true) ↔ ((is_positive answer.ret ≡ true) × (answer.is_set ≡ true)))
        × (r.1 ≡ select mode sock (min timeout 1000) ∷ h)
  unfolding select_socket
  select_socket_lem sock timeout mode = (ground arith, ground arith)

-- The ports of a vector.
abbrev pub OtherPorts : ℕ → List ClientItem → Type 0
OtherPorts port = All (λ d. d.c_port ≢ port)

-- DeleteClient takes out the first client that has the port, whichever client that is, and keeps all
-- others in their order.
pub delete_client_split :
    (port : ℕ) (pre : List ClientItem) (c : ClientItem) (post : List ClientItem)
    → OtherPorts port pre
    → c.c_port ≡ port
    → delete_client port (pre ++ c ∷ post) ≡ pre ++ post
unfolding delete_client
delete_client_split port [] c post h e = ground arith
delete_client_split port (d ∷ pre) c post h e =
    ground (arith, h.0, delete_client_split port pre c post h.1)

-- Without such a client DeleteClient changes nothing.
delete_client_absent :
    (port : ℕ) (cs : List ClientItem) → OtherPorts port cs → delete_client port cs ≡ cs
unfolding delete_client
delete_client_absent port [] h = refl
delete_client_absent port (c ∷ cs) h = ground (arith, h.0, delete_client_absent port cs h.1)
