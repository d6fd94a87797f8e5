-- ===== src/Server/Process/Alone/Stepping.antt =====
-- The steps of the process without a close (winSockServer/).
use open_chat.Base.{
  ℕ, suc, ◌-◌, ◌<◌, ◌^◌, ◌≡◌, ◌≢◌, ◌⊎◌, refl, ap, ◌∙◌, false, List, [], ◌++◌, map, arith,
  Bool-cases, inl, inr, get_elem?, OnSome,
}
use open_chat.ClientItem.{ClientItem}
use open_chat.Platform.{Winsock}
use open_chat.Platform.ListCtrl.{ListCtrl}
use open_chat.Server.State.{TcpServer}
use open_chat.Server.Tcp.{init}
use open_chat.Server.Threads.Effects.{clients-init}
use open_chat.Server.Threads.Steps.{Place, at_head, returned}
use open_chat.Server.Buttons.{on_btn_open, is_enabled, id_button_1}
use open_chat.Server.Buttons.Outcome.{on_btn_open_lem, on_btn_open_keeps, at_dialog_port, init-run}
use open_chat.Server.System.InSync.{entry, Documented}
use open_chat.Server.System.Guard.{Guarded}
use open_chat.Server.Calls
use open_chat.Server.Calls.{Stage, Thread, moved, started, serve}
use open_chat.Server.Tcp.Ports.{SamePorts}
use open_chat.Server.Calls.InStep.{InStep, InStep-frame, coming, Spawned}
use open_chat.Server.Calls.Stepping.{step-InStep}
use open_chat.Server.Calls.Running.{handler-SameRun}
use open_chat.Server.Process.{
  Process, Event, accept_call, client_call, opens, closes, presses, picks_file, ticks, checks,
  spawned, press_open, handler, step,
}
use open_chat.Server.Process.Embedding.{front, same_count, other_count}
use open_chat.Server.Process.Alone.{single, Alone, Alone-suc, accept_step-Alone, client_step-Alone}

module _ (os : Winsock) {lc : ListCtrl} {n : ℕ} where
  handled :
      (e : Calls.Event) (s : Process lc)
      → (k : Alone os n s)
      → InStep os (suc n) (single k.place (record s { app = Calls.handler os e s.app }))
      → Alone os (suc n) (record s { app = Calls.handler os e s.app })
  handled e s k kept = record {
    place = k.place;
    alone = k.alone;
    runs = elim k.runs [ inl gone ↦ inl gone | inr up ↦ inr (handler-SameRun os e s.app ∙ up) ];
    in_step = kept;
  }

  -- What OnBtn_Open leaves where there is no accept thread.
  opened_InStep :
      (p : Place) (s : Process lc)
      → (p ≡ returned) ⊎ (p ≡ at_head)
      → InStep os n (single returned s)
      → InStep os (suc n) (single p (record s { app = on_btn_open os s.app }))
  opened_InStep p s h k =
      let kept = on_btn_open_keeps os s.app in
      let same : (on_btn_open os s.app).server.clients ≡ s.app.server.clients =
        ap (λ (t : TcpServer). t.clients) (on_btn_open_lem os s.app).0 ∙ clients-init os _ _ in
      let at : (q : Place)
          → (coming os q ≡ [])
          → ((cs ts : List ClientItem) → SamePorts ts cs → Spawned q cs ts)
          → InStep os (suc n) (single q (record s { app = on_btn_open os s.app })) =
        λ q none_comes spawn.
          InStep-frame os {s = single returned s}
            (ap (λ (c : lc.Ctrl). map entry (lc.rows c)) kept.0) same refl refl none_comes spawn
            (omega arith) k in
      elim h [
        | inl e ↦ rw e (at returned refl (λ cs ts g. g))
        | inr e ↦ rw e (at at_head refl (λ cs ts g. g))
      ]

  press-Alone :
      (s : Process lc)
      → s.app.server.run ≡ false
      → Alone os n s
      → Alone os (suc n) (record s {
        app = on_btn_open os s.app;
        places = s.places ++ spawned s.app (on_btn_open os s.app);
      })
  press-Alone s off k =
      let gone : k.place ≡ returned = elim k.runs [ inl e ↦ e | inr up ↦ absurd (cc) ] in
      let empty : s.places ≡ [] = k.alone ∙ ap (λ (p : Place). front p []) gone in
      let still : InStep os n (single returned s) = rw (← gone) k.in_step in
      let left = on_btn_open_lem os s.app in
      elim (Bool-cases (init os (at_dialog_port s.app) s.app.log).0) [
        | inl done ↦ record {
          place = at_head;
          alone = rw (empty, left.1, done, other_count s.app.accept_threads) refl;
          runs = inr (
              ap (λ (t : TcpServer). t.run) left.0
              ∙ init-run os (at_dialog_port s.app) s.app.log done);
          in_step = opened_InStep at_head s (inr refl) still;
        }
        | inr failed ↦ record {
          place = returned;
          alone = rw (empty, left.1, failed, same_count s.app.accept_threads) refl;
          runs = inl refl;
          in_step = opened_InStep returned s (inl refl) still;
        }
      ]

  pub step-Alone :
      (e : Event) (s : Process lc)
      → e ≢ closes
      → Documented os
      → n < 2 ^ 32 - 1
      → Guarded os s.app
      → Alone os n s
      → OnSome (Alone os (suc n)) (step os e s)
  unfolding step press_open handler Calls.step
  step-Alone (accept_call i) s up d lt g k =
      accept_step-Alone os i (get_elem? s.places i) s refl d lt k
  step-Alone (client_call i) s up d lt g k = client_step-Alone os i s d lt k
  step-Alone opens s up d lt g k = elim (Bool-cases (is_enabled id_button_1 s.app.log)) [
    | inr disabled ↦ rw disabled (Alone-suc os s k)
    | inl enabled ↦
        let off : s.app.server.run ≡ false = elim g.guard [
          | inl e ↦ e
          | inr disabled ↦ absurd (cc)
        ] in
        rw enabled (press-Alone s off k)
  ]
  step-Alone closes s up d lt g k = absurd (up refl)
  step-Alone (presses m) s up d lt g k =
      handled (Calls.presses m) s k
        (step-InStep os (Calls.presses m) (single k.place s) d lt k.in_step)
  step-Alone (picks_file f) s up d lt g k =
      handled (Calls.picks_file f) s k
        (step-InStep os (Calls.picks_file f) (single k.place s) d lt k.in_step)
  step-Alone (ticks id now) s up d lt g k =
      handled (Calls.ticks id now) s k
        (step-InStep os (Calls.ticks id now) (single k.place s) d lt k.in_step)
  step-Alone (checks row b) s up d lt g k =
      handled (Calls.checks row b) s k
        (step-InStep os (Calls.checks row b) (single k.place s) d lt k.in_step)
