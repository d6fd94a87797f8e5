-- ===== src/Server/Calls/Whole.antt =====
-- A turn of ClientFunc as its calls (winSockServer/src/TcpServer.cpp).
use open_chat.Base.{
  ℕ, zero, suc, List, ◌≤◌, ◌≡◌, refl, Bool-cases, inl, inr, Option, none, some, Option-cases,
  and_then, arith, is_positive,
}
use open_chat.Text.{c_string}
use open_chat.ClientItem.{ClientItem}
use open_chat.Platform.{Winsock, read}
use open_chat.Platform.ListCtrl.{ListCtrl}
use open_chat.Server.State.{App, max_buff}
use open_chat.Server.Tcp.{select_socket}
use open_chat.Server.Threads.{Turn, goes_on, ends, fault, client_turn, show_received, disconnect}
use open_chat.Server.Calls.{Stage, watching, showing, serve}

-- Where a whole turn leaves the thread.
abbrev pub outcome : {lc : ListCtrl} → Turn (App lc) → Option (Option Stage × App lc)
outcome (goes_on a) = some (some watching, a)
outcome (ends a) = some (none, a)
outcome fault = none

module _ (os : Winsock) {lc : ListCtrl} where
  -- So many calls of one thread with nothing in between; a thread that has ended makes none.
  abbrev pub serves : ℕ → ClientItem → Option Stage × App lc → Option (Option Stage × App lc)
  serves zero c s = some s
  serves (suc n) c (none, a) = some (none, a)
  serves (suc n) c (some stage, a) = and_then (serve os c stage a) (serves n c)

  shown_calls :
      (c : ClientItem) (buffer : List ℕ) (a : App lc)
      → serves 1 c (some (showing buffer), a) ≡ outcome (show_received os buffer a)
  unfolding serve show_received
  shown_calls c buffer a = elim (Option-cases (c_string buffer)) [
    | inl e ↦ rw (e, serve, show_received) refl
    | inr (t, e) ↦ rw (e, serve, show_received) refl
  ]

  -- A turn of ClientFunc that is not interrupted is one to five of its calls in a row, which lead back to
  -- the head of the loop, to the end of the thread or to the read past the array exactly as the turn does,
  -- with the same state.
  pub client_turn_calls :
      (c : ClientItem) (a : App lc)
      → (k : ℕ) × (1 ≤ k) × (k ≤ 5) × (serves k c (some watching, a) ≡ outcome (client_turn os c a))
  unfolding client_turn serve disconnect
  client_turn_calls c a =
      let (ready, h) = select_socket os c.c_socket 100 read a.log in
      let r = os.recv_ret h c.c_socket max_buff in
      elim (Bool-cases ready) [
        | inr idle ↦ (1, omega arith, omega arith, rw idle refl)
        | inl there ↦ elim (Bool-cases (is_positive r.count)) [
          | inr ended ↦ (5, omega arith, omega arith, rw (there, ended) refl)
          | inl got ↦ (3, omega arith, omega arith, rw (there, got) (shown_calls c _ _))
        ]
      ]
