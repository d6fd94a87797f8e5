-- ===== src/Server/System/Kept.antt =====
-- What the turns of threads and the handlers keep of the threads (winSockServer/).
use open_chat.Base.{
  ℕ, ◌≡◌, refl, false, Bool-cases, inl, inr, List, [], Option, none, some, Option-cases,
  if◌then◌else◌, if_ind, ◌==◌, is_positive,
}
use open_chat.Text.{Text, text_eq, c_string}
use open_chat.ClientItem.{ClientItem}
use open_chat.Platform.{Winsock, read}
use open_chat.Platform.ListCtrl.{ListCtrl}
use open_chat.Server.State.{App, max_buff}
use open_chat.Server.Tcp.{select_socket}
use open_chat.Server.ClientView.{insert_client, remove_client, notify_ui}
use open_chat.Server.Threads.{
  stop_server, Turn, accept_turn, client_turn, accept_body, admit, spawn_client, spawn_thread,
  disconnect, show_received, received_in,
}
use open_chat.Server.Buttons.{
  id_button_2, on_btn_close, on_timer, is_enabled, id_button_3, timer_count, timer_client,
}
use open_chat.Server.Input.{
  Message, key_escape, key_return, key_other, no_key, pre_translate_message, press_return,
  FileInput, on_btn_file, chosen_path,
}
use open_chat.Server.System.Turns.{OnTurn}
use open_chat.Server.Calls.Turns.{keep}

-- The threads are as many, and the same clients'.
abbrev pub Kept : {lc : ListCtrl} → App lc → App lc → Type 0
Kept a b = (b.client_threads ≡ a.client_threads) × (b.accept_threads ≡ a.accept_threads)

-- A handler neither reads nor changes the threads.
pub record Framed {lc : ListCtrl} (f : App lc → App lc) (a : App lc) : Type 0 where
  pub commutes : (n : ℕ) (all : List ClientItem) → f (keep n all a) ≡ keep n all (f a)
  pub kept : Kept a (f a)

module _ (os : Winsock) {lc : ListCtrl} where
  accept_threads-spawn_thread :
      (a : App lc) (o : Option ClientItem)
      → OnTurn (λ (b : App lc). b.accept_threads ≡ a.accept_threads) (spawn_thread os a o)
  unfolding spawn_thread
  accept_threads-spawn_thread a none = tt
  accept_threads-spawn_thread a (some c) = refl

  pub accept_threads-accept_turn :
      (a : App lc) → OnTurn (λ (b : App lc). b.accept_threads ≡ a.accept_threads) (accept_turn os a)
  unfolding accept_turn accept_body admit spawn_client insert_client notify_ui
  accept_threads-accept_turn a =
      let (ready, h) = select_socket os a.server.lis_sock 100 read a.log in
      let r = os.accept_ret h a.server.lis_sock in
      let Same : Turn (App lc) → Type 0 =
        OnTurn (λ (b : App lc). b.accept_threads ≡ a.accept_threads) in
      if_ind Same a.server.run
        (λ _.
          if_ind Same ready
            (λ _.
              if_ind Same (r.sock == os.invalid_socket) (λ _. refl)
                (λ _. accept_threads-spawn_thread _ _))
            (λ _. refl))
        (λ _. refl)

  show_received-Kept : (buffer : List ℕ) (a : App lc) → OnTurn (Kept a) (show_received os buffer a)
  unfolding show_received
  show_received-Kept buffer a = elim (Option-cases (c_string buffer)) [
    | inl e ↦ rw (e, show_received) tt
    | inr (t, e) ↦ rw (e, show_received) (refl, refl)
  ]

  pub client_turn-Kept : (c : ClientItem) (a : App lc) → OnTurn (Kept a) (client_turn os c a)
  unfolding client_turn disconnect remove_client notify_ui
  client_turn-Kept c a =
      let (ready, h) = select_socket os c.c_socket 100 read a.log in
      let r = os.recv_ret h c.c_socket max_buff in
      if_ind (OnTurn (Kept a)) ready
        (λ _.
          if_ind (OnTurn (Kept a)) (is_positive r.count)
            (λ _. show_received-Kept (received_in max_buff r) _) (λ _. (refl, refl)))
        (λ _. (refl, refl))

module _ {lc : ListCtrl} where
  pub on_timer-Framed : (id : ℕ) (now : Text) (a : App lc) → Framed (on_timer id now) a
  unfolding on_timer
  on_timer-Framed id now a = elim (Bool-cases (id == timer_count)) [
    | inl e ↦ record { commutes = λ n all. rw e refl; kept = rw e (refl, refl) }
    | inr other ↦ elim (Bool-cases (id == timer_client)) [
      | inr e ↦ record { commutes = λ n all. rw (other, e) refl; kept = rw (other, e) (refl, refl) }
      | inl e ↦ elim (Bool-cases (text_eq a.info [])) [
        | inl quiet ↦ record {
          commutes = λ n all. rw (other, e, quiet) refl;
          kept = rw (other, e, quiet) (refl, refl);
        }
        | inr loud ↦ record {
          commutes = λ n all. rw (other, e, loud) refl;
          kept = rw (other, e, loud) (refl, refl);
        }
      ]
    ]
  ]

  pub on_btn_file-Framed :
      (f : FileInput) (a : App lc)
      → Framed (λ (b : App lc). if is_enabled id_button_3 b.log then on_btn_file f b else b) a
  unfolding on_btn_file
  on_btn_file-Framed f a = elim (Bool-cases (is_enabled id_button_3 a.log)) [
    | inr e ↦ record { commutes = λ n all. rw e refl; kept = rw e (refl, refl) }
    | inl e ↦ elim (Bool-cases (f.opens (chosen_path f.chosen))) [
      | inl there ↦ record {
        commutes = λ n all. rw (e, there) refl;
        kept = rw (e, there) (refl, refl);
      }
      | inr missing ↦ record {
        commutes = λ n all. rw (e, missing) refl;
        kept = rw (e, missing) (refl, refl);
      }
    ]
  ]

module _ (os : Winsock) {lc : ListCtrl} where
  pub on_btn_close-Framed :
      (a : App lc)
      → Framed (λ (b : App lc). if is_enabled id_button_2 b.log then on_btn_close os b else b) a
  unfolding on_btn_close stop_server
  on_btn_close-Framed a = elim (Bool-cases (is_enabled id_button_2 a.log)) [
    | inl e ↦ record { commutes = λ n all. rw e refl; kept = rw e (refl, refl) }
    | inr e ↦ record { commutes = λ n all. rw e refl; kept = rw e (refl, refl) }
  ]

  pub message-Framed :
      (m : Message) (a : App lc)
      → Framed (λ (b : App lc). (pre_translate_message os (λ _. false) m b).1) a
  unfolding pre_translate_message press_return
  message-Framed key_escape a = record { commutes = λ n all. refl; kept = (refl, refl) }
  message-Framed key_return a = record { commutes = λ n all. refl; kept = (refl, refl) }
  message-Framed key_other a = record { commutes = λ n all. refl; kept = (refl, refl) }
  message-Framed no_key a = record { commutes = λ n all. refl; kept = (refl, refl) }
