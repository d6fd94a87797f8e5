-- ===== src/Server/Calls/Stepping.antt =====
-- What a step of the process keeps: a call of a client thread, and a handler of the dialog
-- (winSockServer/).
use open_chat.Base.{
  ℕ, suc, ◌-◌, ◌<◌, ◌^◌, ◌≡◌, refl, ap, [], ◌∷◌, map, get_elem?, modify, Option, some, arith,
  if_ind, OnSome, SplitAt, get_elem?-SplitAt, Option-cases, inl, inr, ◌==◌, is_positive, and_then,
}
use open_chat.Text.{c_string, text_eq}
use open_chat.Platform.{Winsock, read, recv}
use open_chat.Platform.ListCtrl.{ListCtrl}
use open_chat.Server.State.{App, TcpServer, with_log, max_buff}
use open_chat.Server.Tcp.{select_socket}
use open_chat.Server.ClientView.{notify_ui}
use open_chat.Server.Buttons.{is_enabled, id_button_3, on_timer, timer_count, timer_client}
use open_chat.Server.Input.{
  key_escape, key_return, key_other, no_key, pre_translate_message, press_return, on_btn_file,
  chosen_path,
}
use open_chat.Server.Threads.{received_in}
use open_chat.Server.System.InSync.{entry, Documented}
use open_chat.Server.System.Turns.{map-entry-check}
use open_chat.Server.Calls.{
  Stage, watching, receiving, showing, removing, deleting, leaving, Thread, Process, Event,
  accept_call, client_call, presses, picks_file, ticks, checks, serve, moved, handler, step,
}
use open_chat.Server.Calls.Standing.{
  is_gone, is_served, at_stage, clients_at-moved, clients_at-erased,
}
use open_chat.Server.Calls.InStep.{InStep, InStep-frame, InStep-suc}
use open_chat.Server.Calls.Moves.{remove-InStep, delete-InStep}
use open_chat.Server.Calls.Arrivals.{accept-InStep}

module _ (os : Winsock) {lc : ListCtrl} where
  -- A call of a client thread that leaves the rows and the vector alone.
  plain :
      {n : ℕ} (s : Process lc) (b : App lc) {i : ℕ} {t : Thread}
      → SplitAt s.threads i t
      → (stage : Stage) → is_gone stage ≡ is_gone t.stage
      → is_served stage ≡ is_served t.stage
      → b.client_list ≡ s.app.client_list
      → b.server ≡ s.app.server
      → InStep os n s
      → InStep os (suc n) (record s { app = b; threads = modify s.threads i (at_stage stage) })
  plain s b at stage g v list_same server_same k =
      InStep-frame os {s = s} (ap (λ (c : lc.Ctrl). map entry (lc.rows c)) list_same)
        (ap (λ (t : TcpServer). t.clients) server_same) (clients_at-moved at is_gone stage g)
        (clients_at-moved at is_served stage v) refl (λ cs ts h. h) (omega arith) k

  -- The process after the call of the thread at index `i`, if there is no exception.
  abbrev after_serve : Process lc → ℕ → Option (Option Stage × App lc) → Option (Process lc)
  after_serve s i o = and_then o (λ (r : Option Stage × App lc).
      some (record s { app = r.1; threads = moved s.threads i r.0 }))

  serve-InStep :
      {n : ℕ} (s : Process lc) (i : ℕ) (t : Thread) (stage : Stage)
      → Documented os
      → SplitAt s.threads i t
      → t.stage ≡ stage
      → InStep os n s
      → OnSome (InStep os (suc n)) (after_serve s i (serve os t.client stage s.app))
  unfolding serve
  serve-InStep {n} s i t watching d at e k =
      let (ready, h) = select_socket os t.client.c_socket 100 read s.app.log in
      let b = with_log s.app h in
      if_ind
        (λ (g : Stage).
          InStep os (suc n) (record s { app = b; threads = moved s.threads i (some g) }))
        ready (λ _. plain s b at receiving (rw e refl) (rw e refl) refl refl k)
        (λ _. plain s b at watching (rw e refl) (rw e refl) refl refl k)
  serve-InStep {n} s i t receiving d at e k =
      let r = os.recv_ret s.app.log t.client.c_socket max_buff in
      let b = with_log s.app (recv t.client.c_socket max_buff ∷ s.app.log) in
      if_ind
        (λ (g : Stage).
          InStep os (suc n) (record s { app = b; threads = moved s.threads i (some g) }))
        (is_positive r.count)
        (λ _. plain s b at (showing (received_in max_buff r)) (rw e refl) (rw e refl) refl refl k)
        (λ _. plain s b at removing (rw e refl) (rw e refl) refl refl k)
  serve-InStep s i t (showing buffer) d at e k = elim (Option-cases (c_string buffer)) [
    | inl q ↦ rw (q, serve) tt
    | inr (text, q) ↦ rw (q, serve) (plain s _ at watching (rw e refl) (rw e refl) refl refl k)
  ]
  serve-InStep s i t removing d at e k = InStep-suc os (remove-InStep os s at d e k)
  serve-InStep s i t deleting d at e k = InStep-suc os (delete-InStep os s at e k)
  serve-InStep s i t leaving d at e k =
      unfold notify_ui in
      InStep-frame os {s = s} refl refl (clients_at-erased at is_gone (rw e refl))
        (clients_at-erased at is_served (rw e refl)) refl (λ cs ts h. h) (omega arith) k

  client-InStep :
      {n : ℕ} (s : Process lc) (i : ℕ)
      → Documented os
      → InStep os n s
      → OnSome (InStep os (suc n)) (step os (client_call i) s)
  unfolding step
  client-InStep s i d k = elim (Option-cases (get_elem? s.threads i)) [
    | inl e ↦ rw e (InStep-suc os k)
    | inr (t, e) ↦ rw e (serve-InStep s i t t.stage d (get_elem?-SplitAt s.threads i t e) refl k)
  ]

  -- A handler keeps the texts of the rows and the server.
  abbrev pub Handled : App lc → App lc → Type 0
  Handled a b =
      (map entry (lc.rows b.client_list) ≡ map entry (lc.rows a.client_list))
      × (b.server ≡ a.server)

  pub handler-Handled : (e : Event) (a : App lc) → Handled a (handler os e a)
  unfolding handler pre_translate_message press_return on_btn_file on_timer
  handler-Handled accept_call a = (refl, refl)
  handler-Handled (client_call i) a = (refl, refl)
  handler-Handled (presses key_escape) a = (refl, refl)
  handler-Handled (presses key_return) a = (refl, refl)
  handler-Handled (presses key_other) a = (refl, refl)
  handler-Handled (presses no_key) a = (refl, refl)
  handler-Handled (picks_file f) a =
      if_ind (Handled a) (is_enabled id_button_3 a.log)
        (λ _.
          if_ind (Handled a) (f.opens (chosen_path f.chosen)) (λ _. (refl, refl))
            (λ _. (refl, refl)))
        (λ _. (refl, refl))
  handler-Handled (ticks id now) a =
      if_ind (Handled a) (id == timer_count) (λ _. (refl, refl))
        (λ _.
          if_ind (Handled a) (id == timer_client)
            (λ _. if_ind (Handled a) (text_eq a.info []) (λ _. (refl, refl)) (λ _. (refl, refl)))
            (λ _. (refl, refl)))
  handler-Handled (checks i b) a =
      (rw lc.set_check_lem (map-entry-check (lc.rows a.client_list) i b), refl)

  handled-InStep :
      {n : ℕ} (e : Event) (s : Process lc)
      → InStep os n s
      → InStep os (suc n) (record s { app = handler os e s.app })
  handled-InStep e s k =
      let h = handler-Handled e s.app in
      InStep-frame os {s = s} h.0 (ap (λ (t : TcpServer). t.clients) h.1) refl refl refl
        (λ cs ts g. g) (omega arith) k

  pub step-InStep :
      {n : ℕ} (e : Event) (s : Process lc)
      → Documented os
      → n < 2 ^ 32 - 1
      → InStep os n s
      → OnSome (InStep os (suc n)) (step os e s)
  step-InStep accept_call s d lt k = accept-InStep os s.app s.place s.threads d lt k
  step-InStep (client_call i) s d lt k = client-InStep s i d k
  step-InStep (presses m) s d lt k = unfold step in handled-InStep (presses m) s k
  step-InStep (picks_file f) s d lt k = unfold step in handled-InStep (picks_file f) s k
  step-InStep (ticks id now) s d lt k = unfold step in handled-InStep (ticks id now) s k
  step-InStep (checks i b) s d lt k = unfold step in handled-InStep (checks i b) s k
