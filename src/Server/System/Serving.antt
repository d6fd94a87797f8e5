-- ===== src/Server/System/Serving.antt =====
-- Which clients the threads serve: what a turn of a thread does to them (winSockServer/).
pub mod Run
use mathlib.Core.Quot
use open_chat.Server.Tcp.Ports.{
  count_port, SamePorts, Ports, ports_of, SamePorts-leave, SamePorts-enter,
}
use open_chat.Base.{
  ℕ, zero, suc, ◌+◌, ◌-◌, ◌<◌, ◌≤◌, ◌^◌, ◌≡◌, ◌≢◌, refl, sym, ap, ◌∙◌, Bool, true, false, List, [],
  ◌∷◌, ◌++◌, length, length-append, get_elem?, erase_at, All, Option, none, some, ◌==◌, arith,
  if_ind, if◌then◌else◌, Option-cases, inl, inr, OnSome, OnSome-then, OnSome-some, is_positive,
}
use open_chat.Text.{Text, c_string, text_eq}
use open_chat.ClientItem.{ClientItem}
use open_chat.Platform.{Winsock, SockAddr, read}
use open_chat.Platform.ListCtrl.{ListCtrl}
use open_chat.Server.State.{App, TcpServer, start, server_dlg, tcp_server, max_buff}
use open_chat.Server.Tcp.{init, delete_client, item_of, select_socket}
use open_chat.Server.Threads.{
  Turn, goes_on, ends, fault, accept_turn, accept_body, admit, client_turn, show_received,
  received_in,
}
use open_chat.Server.Threads.Effects.{
  admit-listed, clients-init, clients-listed, clients-disconnect, client_threads-disconnect,
}
use open_chat.Server.Buttons.{
  is_enabled, id_button_1, id_button_3, on_btn_open, on_timer, timer_count, timer_client,
}
use open_chat.Server.Buttons.Outcome.{on_btn_open_lem, on_btn_open_keeps}
use open_chat.Server.Input.{
  Message, key_escape, key_return, key_other, no_key, pre_translate_message, press_return,
  on_btn_file, FileInput, chosen_path,
}
use open_chat.Server.System.{
  Event, accepts, serves, opens, closes, presses, picks_file, ticks, checks, step, run, accept_step,
  serve_step, after_accept, after_serve, opened_dialog,
}
use open_chat.Server.System.InSync.{length-delete_client-le}

-- The threads serve the clients of the vector, of which there are at most `n`.
pub record Serving {lc : ListCtrl} (n : ℕ) (a : App lc) : Type 0 where
  pub serving : SamePorts a.client_threads a.server.clients
  pub few : length a.server.clients ≤ n

module _ {lc : ListCtrl} where
  pub Serving-frame :
      {n m : ℕ} {a b : App lc}
      → b.client_threads ≡ a.client_threads
      → b.server.clients ≡ a.server.clients
      → n ≤ m
      → Serving n a
      → Serving m b
  Serving-frame t c le s = record {
    serving = λ p. ap (count_port p) t ∙ s.serving p ∙ sym (ap (count_port p) c);
    few = omega (arith, s.few, ap length c);
  }

  -- A turn of the thread of client `c`, by how it leaves the thread.
  abbrev pub Served : ClientItem → App lc → Turn (App lc) → Type 0
  Served c a (goes_on b) =
      (b.client_threads ≡ a.client_threads) × (b.server.clients ≡ a.server.clients)
  Served c a (ends b) =
      (b.client_threads ≡ a.client_threads)
      × (b.server.clients ≡ delete_client c.c_port a.server.clients)
  Served c a fault = Unit

  pub Admitted : ℕ → Turn (App lc) → Type 0
  Admitted n (goes_on b) = Serving (suc n) b
  Admitted n (ends b) = Serving (suc n) b
  Admitted n fault = Unit

module _ (os : Winsock) {lc : ListCtrl} where
  admit-Admitted :
      {n : ℕ} (addr : SockAddr) (sock : ℕ) (a : App lc)
      → n < 2 ^ 32 - 1
      → Serving n a
      → Admitted n (admit os addr sock a)
  unfolding Admitted
  admit-Admitted addr sock a lt s =
      let item = item_of os addr sock in
      rw (admit-listed os addr sock a (omega (arith, s.few))) (record {
        serving = λ p.
            SamePorts-enter a.client_threads a.server.clients item s.serving p
            ∙ sym (ap (count_port p) (clients-listed os addr sock a));
        few = omega (
          arith,
          s.few,
          ap length (clients-listed os addr sock a),
          length-append a.server.clients (item ∷ []),
        );
      })

  pub accept_turn-Admitted :
      {n : ℕ} (a : App lc) → n < 2 ^ 32 - 1 → Serving n a → Admitted n (accept_turn os a)
  unfolding accept_turn accept_body Admitted
  accept_turn-Admitted {n} a lt s =
      let (ready, h) = select_socket os a.server.lis_sock 100 read a.log in
      let r = os.accept_ret h a.server.lis_sock in
      if_ind (Admitted n) a.server.run
        (λ _.
          if_ind (Admitted n) ready
            (λ _.
              if_ind (Admitted n) (r.sock == os.invalid_socket)
                (λ _. Serving-frame refl refl (omega arith) s)
                (λ _. admit-Admitted r.addr r.sock _ lt (Serving-frame refl refl (omega arith) s)))
            (λ _. Serving-frame refl refl (omega arith) s))
        (λ _. Serving-frame refl refl (omega arith) s)

  show_received-Served :
      (c : ClientItem) (buffer : List ℕ) (a : App lc) → Served c a (show_received os buffer a)
  unfolding show_received
  show_received-Served c buffer a = elim (Option-cases (c_string buffer)) [
    | inl e ↦ rw (e, show_received) tt
    | inr (t, e) ↦ rw (e, show_received) (refl, refl)
  ]

  pub client_turn-Served : (c : ClientItem) (a : App lc) → Served c a (client_turn os c a)
  unfolding client_turn
  client_turn-Served c a =
      let (ready, h) = select_socket os c.c_socket 100 read a.log in
      let r = os.recv_ret h c.c_socket max_buff in
      if_ind (Served c a) ready
        (λ _.
          if_ind (Served c a) (is_positive r.count)
            (λ _. show_received-Served c (received_in max_buff r) _)
            (λ _. (client_threads-disconnect os c _, clients-disconnect os c _)))
        (λ _. (refl, refl))
