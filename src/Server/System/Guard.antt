-- ===== src/Server/System/Guard.antt =====
-- The open button is disabled while the server runs, and the server then listens on one socket
-- (winSockServer/).
use open_chat.Base.{
  ℕ, zero, suc, ◌+◌, ◌≡◌, ◌⊎◌, refl, ◌∙◌, Bool, false, not, List, [], ◌∷◌, Option, none, some, ◌==◌,
  if_ind, inl, inr, Option-cases, is_positive, is_minus_one, sym, ap, if◌then◌else◌,
}
use open_chat.Text.{Text, c_string}
use open_chat.ClientItem.{ClientItem}
use open_chat.Platform.{Winsock, Log, SockAddr, read, listen, closesocket}
use open_chat.Platform.ListCtrl.{ListCtrl}
use open_chat.Server.State.{App, TcpServer, max_buff}
use open_chat.Server.Tcp.{select_socket, add_client}
use open_chat.Server.ClientView.{insert_client, remove_client, notify_ui, add_info, set_style}
use open_chat.Server.Threads.{
  accept_turn, accept_body, admit, spawn_client, spawn_thread, disconnect, show_received,
  client_turn, received_in,
}
use open_chat.Server.Buttons.{is_enabled, id_button_1}
use open_chat.Server.Input.{send_checked, FileInput, send_line, send_lines}
use open_chat.Server.System.Turns.{OnTurn}

-- The sockets of a list but for one.
abbrev pub drop_socket : ℕ → List ℕ → List ℕ
drop_socket sock [] = []
drop_socket sock (s ∷ ss) = let rest = drop_socket sock ss in if sock == s then rest else s ∷ rest

-- The sockets that listen after the calls of a history.
abbrev pub listening : Winsock → Log → List ℕ
listening os [] = []
listening os (listen sock backlog ∷ h) =
    let rest = listening os h in if is_minus_one (os.listen_ret h sock) then rest else sock ∷ rest
listening os (closesocket sock ∷ h) = drop_socket sock (listening os h)
listening os (c ∷ h) = listening os h

-- The first button and the listening sockets are as they were.
abbrev pub Keeps : Winsock → Log → Log → Type 0
Keeps os h h' =
    ◌≡◌ {A = Bool × List ℕ} (is_enabled id_button_1 h', listening os h')
      (is_enabled id_button_1 h, listening os h)

-- What a server has to listen on.
abbrev pub own_socket : TcpServer → List ℕ
own_socket s = if s.run then s.lis_sock ∷ [] else []

-- The server does not run, or the button that opens it is disabled; and a server that runs listens on its
-- socket, one that does not run on none.
pub record Guarded (os : Winsock) {lc : ListCtrl} (a : App lc) : Type 0 where
  pub guard : (a.server.run ≡ false) ⊎ (is_enabled id_button_1 a.log ≡ false)
  pub listens : listening os a.log ≡ own_socket a.server

pub Guarded-frame :
    {os : Winsock} {lc : ListCtrl} {a b : App lc}
    → ◌≡◌ {A = Bool × ℕ} (b.server.run, b.server.lis_sock) (a.server.run, a.server.lis_sock)
    → Keeps os a.log b.log
    → Guarded os a
    → Guarded os b
Guarded-frame r k g =
    let own = ap (λ (p : Bool × ℕ). if p.0 then p.1 ∷ [] else []) r in
    let listens = ap (λ (p : Bool × List ℕ). p.1) k ∙ g.listens ∙ sym own in
    elim g.guard [
      | inl off ↦ record { guard = inl (ap (λ (p : Bool × ℕ). p.0) r ∙ off); listens = listens }
      | inr disabled ↦ record {
        guard = inr (ap (λ (p : Bool × List ℕ). p.0) k ∙ disabled);
        listens = listens;
      }
    ]

pub select_socket-Keeps :
    (os : Winsock) (sock : ℕ) (h : Log) → Keeps os h (select_socket os sock 100 read h).1
unfolding select_socket is_enabled
select_socket-Keeps os sock h =
    let answer = os.select_ret h read sock in
    if_ind (λ (r : Bool × Log). Keeps os h r.1) (not (is_positive answer.ret)) (λ _. refl)
      (λ _. if_ind (λ (r : Bool × Log). Keeps os h r.1) (not answer.is_set) (λ _. refl) (λ _. refl))

pub send_checked-Keeps :
    (os : Winsock) (lc : ListCtrl) (str : Text) (c : lc.Ctrl) (n i : ℕ) (h : Log)
    → Keeps os h (send_checked lc str c n i h)
unfolding send_checked is_enabled
send_checked-Keeps os lc str c zero i h = refl
send_checked-Keeps os lc str c (suc n) i h =
    send_checked-Keeps os lc str c n (i + 1) _
    ∙ if_ind (Keeps os h) (lc.get_check c i) (λ _. refl) (λ _. refl)

send_line-Keeps :
    (os : Winsock) (lc : ListCtrl) (f : FileInput) (line : Text) (c : lc.Ctrl) (n i : ℕ) (h : Log)
    → Keeps os h (send_line lc f line c n i h)
unfolding send_line is_enabled
send_line-Keeps os lc f line c zero i h = refl
send_line-Keeps os lc f line c (suc n) i h =
    send_line-Keeps os lc f line c n (i + 1) _
    ∙ if_ind (Keeps os h) (lc.get_check c i) (λ _. refl) (λ _. refl)

pub send_lines-Keeps :
    (os : Winsock) (lc : ListCtrl) (f : FileInput) (c : lc.Ctrl) (lines : List Text) (h : Log)
    → Keeps os h (send_lines lc f c lines h)
unfolding send_lines is_enabled
send_lines-Keeps os lc f c [] h = refl
send_lines-Keeps os lc f c (line ∷ rest) h =
    send_lines-Keeps os lc f c rest _ ∙ send_line-Keeps os lc f line c (lc.get_item_count c) 0 _

module _ (os : Winsock) {lc : ListCtrl} where
  spawn_thread-Guarded :
      (a : App lc) (o : Option ClientItem)
      → Guarded os a
      → OnTurn (Guarded os) (spawn_thread os a o)
  unfolding spawn_thread
  spawn_thread-Guarded a none g = tt
  spawn_thread-Guarded a (some c) g = Guarded-frame refl refl g

  admit-Guarded :
      (addr : SockAddr) (sock : ℕ) (a : App lc)
      → Guarded os a
      → OnTurn (Guarded os) (admit os addr sock a)
  unfolding admit insert_client notify_ui add_client spawn_client
  admit-Guarded addr sock a g = spawn_thread-Guarded _ _ (Guarded-frame refl refl g)

  pub accept_turn-Guarded : (a : App lc) → Guarded os a → OnTurn (Guarded os) (accept_turn os a)
  unfolding accept_turn accept_body is_enabled
  accept_turn-Guarded a g =
      let (ready, h) = select_socket os a.server.lis_sock 100 read a.log in
      let kept = select_socket-Keeps os a.server.lis_sock a.log in
      let r = os.accept_ret h a.server.lis_sock in
      if_ind (OnTurn (Guarded os)) a.server.run
        (λ _.
          if_ind (OnTurn (Guarded os)) ready
            (λ _.
              if_ind (OnTurn (Guarded os)) (r.sock == os.invalid_socket)
                (λ _. Guarded-frame refl kept g)
                (λ _. admit-Guarded r.addr r.sock _ (Guarded-frame refl kept g)))
            (λ _. Guarded-frame refl kept g))
        (λ _. g)

  show_received-Guarded :
      (buffer : List ℕ) (a : App lc)
      → Guarded os a
      → OnTurn (Guarded os) (show_received os buffer a)
  unfolding show_received add_info set_style is_enabled
  show_received-Guarded buffer a g = elim (Option-cases (c_string buffer)) [
    | inl e ↦ rw (e, show_received) tt
    | inr (t, e) ↦ rw (e, show_received) (Guarded-frame refl refl g)
  ]

  pub client_turn-Guarded :
      (c : ClientItem) (a : App lc) → Guarded os a → OnTurn (Guarded os) (client_turn os c a)
  unfolding client_turn disconnect remove_client notify_ui is_enabled
  client_turn-Guarded c a g =
      let (ready, h) = select_socket os c.c_socket 100 read a.log in
      let kept = select_socket-Keeps os c.c_socket a.log in
      let r = os.recv_ret h c.c_socket max_buff in
      if_ind (OnTurn (Guarded os)) ready
        (λ _.
          if_ind (OnTurn (Guarded os)) (is_positive r.count)
            (λ _. show_received-Guarded (received_in max_buff r) _ (Guarded-frame refl kept g))
            (λ _. Guarded-frame refl kept g))
        (λ _. Guarded-frame refl kept g)
