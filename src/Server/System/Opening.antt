-- ===== src/Server/System/Opening.antt =====
-- A running server is not opened a second time (winSockServer/).
use open_chat.Base.{
  ℕ, zero, suc, ◌≡◌, refl, true, false, List, [], ◌∷◌, Option, none, some, ◌==◌, if_ind, sym, ap,
  ◌∙◌, if◌then◌else◌, inl, inr, OnSome, OnSome-then, OnSome-some, get_elem?,
}
use open_chat.Text.{Text, text_eq}
use open_chat.ClientItem.{ClientItem}
use open_chat.Platform.{Winsock, edit_send, get_window_text}
use open_chat.Platform.ListCtrl.{ListCtrl}
use open_chat.Server.State.{App, start, server_dlg, tcp_server}
use open_chat.Server.Tcp.{uninit}
use open_chat.Server.Threads.{stop_server, Turn, goes_on, ends, fault, accept_turn, client_turn}
use open_chat.Server.Buttons.{
  opened_text, closed_text, on_btn_open, on_btn_close, is_enabled, id_button_1, id_button_2,
  id_button_3, on_timer, timer_count, timer_client,
}
use open_chat.Server.Buttons.Outcome.{on_btn_open_lem, on_btn_close_leaves, at_dialog_port}
use open_chat.Server.Input.{
  Message, key_escape, key_return, key_other, no_key, pre_translate_message, press_return,
  on_btn_file, FileInput, chosen_path,
}
use open_chat.Server.System.{
  Event, accepts, serves, opens, closes, presses, picks_file, ticks, checks, step, run, accept_step,
  serve_step, after_accept, after_serve, opened_dialog,
}
use open_chat.Server.System.Turns.{OnTurn}
use open_chat.Server.System.Listening.{init-listening, uninit-listening, listening-enable_buttons}
use open_chat.Server.System.Guard.{
  listening, own_socket, Guarded, Guarded-frame, send_checked-Keeps, send_lines-Keeps,
  accept_turn-Guarded, client_turn-Guarded,
}

module _ (os : Winsock) {lc : ListCtrl} where
  accept_step-Guarded :
      (k : ℕ) (a : App lc) → Guarded os a → OnSome (Guarded os) (accept_step os k a)
  unfolding accept_step after_accept
  accept_step-Guarded zero a g = g
  accept_step-Guarded (suc k) a g = after (accept_turn os a) (accept_turn-Guarded os a g)
    where
      after : (t : Turn (App lc)) → OnTurn (Guarded os) t → OnSome (Guarded os) (after_accept os t)
      after (goes_on b) h = h
      after (ends b) h = Guarded-frame refl refl h
      after fault h = tt

  serve_step-Guarded :
      (i : ℕ) (o : Option ClientItem) (a : App lc)
      → Guarded os a
      → OnSome (Guarded os) (serve_step os i o a)
  unfolding serve_step after_serve
  serve_step-Guarded i none a g = g
  serve_step-Guarded i (some c) a g = after (client_turn os c a) (client_turn-Guarded os c a g)
    where
      after : (t : Turn (App lc)) → OnTurn (Guarded os) t → OnSome (Guarded os) (after_serve os i t)
      after (goes_on b) h = h
      after (ends b) h = Guarded-frame refl refl h
      after fault h = tt

  pub on_timer-Guarded :
      (id : ℕ) (now : Text) (a : App lc) → Guarded os a → Guarded os (on_timer id now a)
  unfolding on_timer is_enabled
  on_timer-Guarded id now a g =
      if_ind (Guarded os) (id == timer_count) (λ _. Guarded-frame refl refl g)
        (λ _.
          if_ind (Guarded os) (id == timer_client)
            (λ _.
              if_ind (Guarded os) (text_eq a.info []) (λ _. Guarded-frame refl refl g)
                (λ _. Guarded-frame refl refl g))
            (λ _. Guarded-frame refl refl g))

  pub message-Guarded :
      (m : Message) (a : App lc)
      → Guarded os a
      → Guarded os (pre_translate_message os (λ _. false) m a).1
  unfolding pre_translate_message press_return is_enabled
  message-Guarded key_escape a g = g
  message-Guarded key_return a g =
      Guarded-frame refl
        (send_checked-Keeps os lc (os.narrow (os.window_text a.log edit_send)) a.client_list
          (lc.get_item_count a.client_list) 0 (get_window_text edit_send ∷ a.log))
        g
  message-Guarded key_other a g = Guarded-frame refl refl g
  message-Guarded no_key a g = Guarded-frame refl refl g

  pub on_btn_file-Guarded :
      (f : FileInput) (a : App lc) → Guarded os a → Guarded os (on_btn_file f a)
  unfolding on_btn_file is_enabled
  on_btn_file-Guarded f a g =
      if_ind (Guarded os) (f.opens (chosen_path f.chosen))
        (λ _. Guarded-frame refl (send_lines-Keeps os lc f a.client_list f.lines _) g)
        (λ _. Guarded-frame refl refl g)

  pub on_btn_open-Guarded :
      (a : App lc)
      → is_enabled id_button_1 a.log ≡ true
      → Guarded os a
      → Guarded os (on_btn_open os a)
  on_btn_open-Guarded a enabled g =
      let off : a.server.run ≡ false = elim g.guard [ inl e ↦ e | inr disabled ↦ absurd (cc) ] in
      let quiet : listening os a.log ≡ [] = g.listens ∙ rw off refl in
      let opened = on_btn_open_lem os a in
      record {
        guard = inr opened.3.0;
        listens =
            ap (listening os) opened.2
            ∙ listening-enable_buttons os false true opened_text _
            ∙ init-listening os (at_dialog_port a) a.log off quiet
            ∙ ap own_socket (sym opened.0);
      }

  pub on_btn_close-Guarded : (a : App lc) → Guarded os a → Guarded os (on_btn_close os a)
  unfolding on_btn_close stop_server uninit
  on_btn_close-Guarded a g = record {
    guard = inl (on_btn_close_leaves os a).1;
    listens =
        listening-enable_buttons os true false closed_text _
        ∙ uninit-listening os a.server a.log g.listens;
  }

  step-Guarded : (e : Event) (a : App lc) → Guarded os a → OnSome (Guarded os) (step os e a)
  unfolding step
  step-Guarded accepts a g = accept_step-Guarded a.accept_threads a g
  step-Guarded (serves i) a g = serve_step-Guarded i (get_elem? a.client_threads i) a g
  step-Guarded opens a g =
      if_ind (Guarded os) (is_enabled id_button_1 a.log)
        (λ enabled. on_btn_open-Guarded a enabled g) (λ _. g)
  step-Guarded closes a g =
      if_ind (Guarded os) (is_enabled id_button_2 a.log) (λ _. on_btn_close-Guarded a g) (λ _. g)
  step-Guarded (presses m) a g = message-Guarded m a g
  step-Guarded (picks_file f) a g =
      if_ind (Guarded os) (is_enabled id_button_3 a.log) (λ _. on_btn_file-Guarded f a g) (λ _. g)
  step-Guarded (ticks id now) a g = on_timer-Guarded id now a g
  step-Guarded (checks i b) a g = Guarded-frame refl refl g

  run-Guarded : (es : List Event) (a : App lc) → Guarded os a → OnSome (Guarded os) (run os es a)
  unfolding run
  run-Guarded [] a g = g
  run-Guarded (e ∷ es) a g =
      OnSome-then (Guarded os) (Guarded os) (step os e a) (run os es) (step-Guarded e a g)
        (λ b h. run-Guarded es b h)

  reached :
      (ctrl : lc.Ctrl) (es : List Event) {a : App lc}
      → run os es (opened_dialog os lc ctrl) ≡ some a
      → Guarded os a
  unfolding opened_dialog start server_dlg tcp_server
  reached ctrl es e =
      OnSome-some (Guarded os) (run os es (opened_dialog os lc ctrl))
        (run-Guarded es (opened_dialog os lc ctrl) (record { guard = inl refl; listens = refl })) e

  -- Over any schedule, closes and reopenings included, from the dialog before any button is pressed:
  -- while the server runs, the first button does nothing, so that no second Init overwrites the
  -- listening socket.
  run-opens_once :
      (ctrl : lc.Ctrl) (es : List Event) {a : App lc}
      → run os es (opened_dialog os lc ctrl) ≡ some a
      → a.server.run ≡ true
      → step os opens a ≡ some a
  unfolding step
  run-opens_once ctrl es e runs = elim (reached ctrl es e).guard [
    | inl off ↦ absurd (cc)
    | inr disabled ↦ rw disabled refl
  ]

  -- Over any schedule, closes and reopenings included, from the dialog before any button is pressed: of the
  -- sockets on which a `listen` has succeeded and that no `closesocket` has closed since, the server's
  -- own is the only one while the server runs, and there is none while it does not.
  run-listens :
      (ctrl : lc.Ctrl) (es : List Event) {a : App lc}
      → run os es (opened_dialog os lc ctrl) ≡ some a
      → listening os a.log ≡ (if a.server.run then a.server.lis_sock ∷ [] else [])
  run-listens ctrl es e = (reached ctrl es e).listens
