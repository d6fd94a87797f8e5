-- ===== src/Server/System/Serving/Run.antt =====
-- Which clients the threads serve, over any schedule without a close (winSockServer/).
use mathlib.Core.Quot
use open_chat.Server.System.Serving.{
  Serving, Serving-frame, Served, Admitted, accept_turn-Admitted, client_turn-Served,
}
use open_chat.Server.Tcp.Ports.{count_port, ports_of, SamePorts-leave}
use open_chat.Base.{
  ℕ, zero, suc, ◌+◌, ◌-◌, ◌<◌, ◌^◌, ◌≡◌, ◌≢◌, refl, sym, ap, ◌∙◌, false, List, [], ◌∷◌, length,
  get_elem?, erase_at, All, Option, none, some, ◌==◌, arith, if_ind, OnSome, OnSome-then,
  OnSome-some,
}
use open_chat.Text.{Text, text_eq}
use open_chat.ClientItem.{ClientItem}
use open_chat.Platform.{Winsock}
use open_chat.Platform.ListCtrl.{ListCtrl}
use open_chat.Server.State.{App, TcpServer, start, server_dlg, tcp_server}
use open_chat.Server.Threads.{Turn, goes_on, ends, fault, accept_turn, client_turn}
use open_chat.Server.Threads.Effects.{clients-init}
use open_chat.Server.Buttons.{
  is_enabled, id_button_1, id_button_3, on_btn_open, on_timer, timer_count, timer_client,
}
use open_chat.Server.Buttons.Outcome.{on_btn_open_lem, on_btn_open_keeps}
use open_chat.Server.Input.{
  Message, key_escape, key_return, key_other, no_key, pre_translate_message, press_return,
  on_btn_file, FileInput, chosen_path,
}
use open_chat.Server.System.{
  Event, accepts, serves, opens, closes, presses, picks_file, ticks, checks, step, run, accept_step,
  serve_step, after_accept, after_serve, opened_dialog,
}
use open_chat.Server.System.InSync.{length-delete_client-le}

module _ (os : Winsock) {lc : ListCtrl} where
  accept_step-Serving :
      {n : ℕ} (k : ℕ) (a : App lc)
      → n < 2 ^ 32 - 1
      → Serving n a
      → OnSome (Serving (suc n)) (accept_step os k a)
  unfolding accept_step after_accept Admitted
  accept_step-Serving zero a lt s = Serving-frame refl refl (omega arith) s
  accept_step-Serving {n} (suc k) a lt s = after (accept_turn os a) (accept_turn-Admitted os a lt s)
    where
      after : (t : Turn (App lc)) → Admitted n t → OnSome (Serving (suc n)) (after_accept os t)
      after (goes_on b) h = h
      after (ends b) h = Serving-frame refl refl (omega arith) h
      after fault h = tt

  serve_step-Serving :
      {n : ℕ} (i : ℕ) (o : Option ClientItem) (a : App lc)
      → get_elem? a.client_threads i ≡ o
      → Serving n a
      → OnSome (Serving (suc n)) (serve_step os i o a)
  unfolding serve_step after_serve
  serve_step-Serving i none a e s = Serving-frame refl refl (omega arith) s
  serve_step-Serving {n} i (some c) a e s = after (client_turn os c a) (client_turn-Served os c a)
    where
      after : (t : Turn (App lc)) → Served c a t → OnSome (Serving (suc n)) (after_serve os i t)
      after (goes_on b) h = Serving-frame h.0 h.1 (omega arith) s
      after (ends b) h = record {
        serving = λ p.
            ap (λ (ts : List ClientItem). count_port p (erase_at ts i)) h.0
            ∙ SamePorts-leave a.client_threads a.server.clients i c e s.serving p
            ∙ sym (ap (count_port p) h.1);
        few =
            omega (arith, s.few, ap length h.1, length-delete_client-le c.c_port a.server.clients);
      }
      after fault h = tt

  on_timer-Serving :
      {n : ℕ} (id : ℕ) (now : Text) (a : App lc) → Serving n a → Serving (suc n) (on_timer id now a)
  unfolding on_timer
  on_timer-Serving {n} id now a s =
      if_ind (Serving (suc n)) (id == timer_count) (λ _. Serving-frame refl refl (omega arith) s)
        (λ _.
          if_ind (Serving (suc n)) (id == timer_client)
            (λ _.
              if_ind (Serving (suc n)) (text_eq a.info [])
                (λ _. Serving-frame refl refl (omega arith) s)
                (λ _. Serving-frame refl refl (omega arith) s))
            (λ _. Serving-frame refl refl (omega arith) s))

  message-Serving :
      {n : ℕ} (m : Message) (a : App lc)
      → Serving n a
      → Serving (suc n) (pre_translate_message os (λ _. false) m a).1
  unfolding pre_translate_message press_return
  message-Serving key_escape a s = Serving-frame refl refl (omega arith) s
  message-Serving key_return a s = Serving-frame refl refl (omega arith) s
  message-Serving key_other a s = Serving-frame refl refl (omega arith) s
  message-Serving no_key a s = Serving-frame refl refl (omega arith) s

  on_btn_file-Serving :
      {n : ℕ} (f : FileInput) (a : App lc) → Serving n a → Serving (suc n) (on_btn_file f a)
  unfolding on_btn_file
  on_btn_file-Serving {n} f a s =
      if_ind (Serving (suc n)) (f.opens (chosen_path f.chosen))
        (λ _. Serving-frame refl refl (omega arith) s)
        (λ _. Serving-frame refl refl (omega arith) s)

  on_btn_open-Serving : {n : ℕ} (a : App lc) → Serving n a → Serving (suc n) (on_btn_open os a)
  on_btn_open-Serving a s =
      Serving-frame (on_btn_open_keeps os a).1
        (ap (λ (t : TcpServer). t.clients) (on_btn_open_lem os a).0 ∙ clients-init os _ _)
        (omega arith) s

  step-Serving :
      {n : ℕ} (e : Event) (a : App lc)
      → e ≢ closes
      → n < 2 ^ 32 - 1
      → Serving n a
      → OnSome (Serving (suc n)) (step os e a)
  unfolding step
  step-Serving accepts a kept lt s = accept_step-Serving a.accept_threads a lt s
  step-Serving (serves i) a kept lt s = serve_step-Serving i (get_elem? a.client_threads i) a refl s
  step-Serving {n} opens a kept lt s =
      if_ind (Serving (suc n)) (is_enabled id_button_1 a.log) (λ _. on_btn_open-Serving a s)
        (λ _. Serving-frame refl refl (omega arith) s)
  step-Serving closes a kept lt s = absurd (kept refl)
  step-Serving (presses m) a kept lt s = message-Serving m a s
  step-Serving {n} (picks_file f) a kept lt s =
      if_ind (Serving (suc n)) (is_enabled id_button_3 a.log) (λ _. on_btn_file-Serving f a s)
        (λ _. Serving-frame refl refl (omega arith) s)
  step-Serving (ticks id now) a kept lt s = on_timer-Serving id now a s
  step-Serving (checks i b) a kept lt s = Serving-frame refl refl (omega arith) s

  -- What the threads serve, with no count of the clients.
  abbrev ServesAll : App lc → Type 0
  ServesAll a = ports_of a.client_threads ≡ ports_of a.server.clients

  run-ServesAll :
      {n : ℕ} (es : List Event) (a : App lc)
      → All (λ e. e ≢ closes) es
      → length es + n < 2 ^ 32
      → Serving n a
      → OnSome ServesAll (run os es a)
  unfolding run
  run-ServesAll [] a kept lt s = Quot.sound s.serving
  run-ServesAll {n} (e ∷ es) a kept lt s =
      OnSome-then (Serving (suc n)) ServesAll (step os e a) (run os es)
        (step-Serving e a kept.0 (omega arith) s) (λ b t. run-ServesAll es b kept.1 (omega arith) t)

  -- From the dialog with no client, whatever order the threads and handlers take their turns in and
  -- whatever the network answers: while OnBtn_Close is not run, and fewer than 2^32 - 1 turns are taken,
  -- the threads of ClientFunc and the clients in TcpServer's vector have the same ports, each as often,
  -- in whatever order.
  pub run-serves_clients :
      (ctrl : lc.Ctrl) (es : List Event) {a : App lc}
      → All (λ e. e ≢ closes) es
      → length es < 2 ^ 32 - 1
      → run os es (opened_dialog os lc ctrl) ≡ some a
      → ports_of a.client_threads ≡ ports_of a.server.clients
  unfolding opened_dialog start server_dlg tcp_server
  run-serves_clients ctrl es kept lt e =
      OnSome-some ServesAll (run os es (opened_dialog os lc ctrl))
        (run-ServesAll {n = 0} es (opened_dialog os lc ctrl) kept (omega arith)
          (record { serving = λ p. refl; few = omega arith }))
        e
