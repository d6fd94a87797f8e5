-- ===== src/Server/Process/ByCalls.antt =====
-- The process turn by turn and the whole process call by call (winSockServer/), with the open and the
-- close button.
use open_chat.Base.{
  ℕ, ◌+◌, ◌≡◌, refl, ap, ◌∙◌, subst, inl, inr, Bool-cases, List, [], ◌∷◌, ◌++◌, map, Option, some,
  Option-cases, replicate, replicate-append, append-nil,
}
use open_chat.ClientItem.{ClientItem}
use open_chat.Platform.{Winsock}
use open_chat.Platform.ListCtrl.{ListCtrl}
use open_chat.Server.State.{App, start, with_list}
use open_chat.Server.Tcp.{init, set_port}
use open_chat.Server.Threads.{start_server}
use open_chat.Server.Threads.Steps.{at_head}
use open_chat.Server.Buttons.{on_btn_open, is_enabled, id_button_1}
use open_chat.Server.Buttons.Outcome.{at_dialog_port}
use open_chat.Server.System
use open_chat.Server.System.{opened_dialog}
use open_chat.Server.System.Kept.{
  Framed, on_btn_close-Framed, on_timer-Framed, on_btn_file-Framed, message-Framed,
}
use open_chat.Server.Calls.{fresh}
use open_chat.Server.Process.{
  Event, opens, closes, presses, picks_file, ticks, checks, press_open, handler, step, run, shown,
}
use open_chat.Server.Process.Embedding.{run-append, other_count, same_count}
use open_chat.Server.Process.Turns.{resting, Rests, accepts-Rests, serves-Rests}

module _ (os : Winsock) {lc : ListCtrl} (n : ℕ) (all : List ClientItem) where
  press_open-Rests :
      (a : App lc) → Rests (System.step os System.opens a) (some (press_open os (resting n all a)))
  unfolding System.step press_open on_btn_open start_server set_port
  press_open-Rests a = elim (Bool-cases (is_enabled id_button_1 a.log)) [
    | inr shut ↦ (n, all, rw shut refl)
    | inl e ↦ elim (Bool-cases (init os (at_dialog_port a) a.log).0) [
      | inl done ↦
          (n + 1, all, rw (e, done, other_count n, replicate-append a.accept_threads at_head) refl)
      | inr failed ↦ (
        n,
        all,
        rw (e, failed, same_count n, append-nil (replicate a.accept_threads at_head)) refl,
      )
    ]
  ]

  by_handler :
      (e : Event) (f : App lc → App lc) (a : App lc)
      → Framed f a
      → let s = resting n all a in
        step os e s ≡ some (record s { app = f s.app })
        → (fs : List Event) × Rests (some (f a)) (run os fs s)
  unfolding run
  by_handler e f a k does = (
    e ∷ [],
    (
      n,
      all,
      rw does (
          ap
            (λ (b : App lc). some (record {
              app = b;
              places = replicate a.accept_threads at_head;
              threads = map fresh a.client_threads;
            }))
            (k.commutes n all)
          ∙ rw (k.kept.0, k.kept.1) refl),
    ),
  )

  step-Rests :
      (e : System.Event) (a : App lc)
      → (fs : List Event) × Rests (System.step os e a) (run os fs (resting n all a))
  unfolding System.step run step handler
  step-Rests System.accepts a = accepts-Rests os n all a
  step-Rests (System.serves i) a = serves-Rests os n all i a
  step-Rests System.opens a = (opens ∷ [], press_open-Rests a)
  step-Rests System.closes a = by_handler closes _ a (on_btn_close-Framed os a) refl
  step-Rests (System.presses m) a = by_handler (presses m) _ a (message-Framed os m a) refl
  step-Rests (System.picks_file f) a = by_handler (picks_file f) _ a (on_btn_file-Framed f a) refl
  step-Rests (System.ticks id now) a = by_handler (ticks id now) _ a (on_timer-Framed id now a) refl
  step-Rests (System.checks row b) a =
      by_handler (checks row b) (λ (b' : App lc). with_list b' (lc.set_check b'.client_list row b))
        a (record { commutes = λ n all. refl; kept = (refl, refl) }) refl

module _ (os : Winsock) {lc : ListCtrl} where
  run-Rests :
      (es : List System.Event) (n : ℕ) (all : List ClientItem) (a : App lc)
      → (fs : List Event) × Rests (System.run os es a) (run os fs (resting n all a))
  unfolding System.run run
  run-Rests [] n all a = ([], (n, all, refl))
  run-Rests (e ∷ es) n all a =
      let s = resting n all a in
      let (fs, left) = step-Rests os n all e a in
      let Left : Option (App lc) → Type 0 = λ o. Rests o (run os fs s) in
      elim (Option-cases (System.step os e a)) [
        | inl failed ↦ (fs, rw failed (subst Left failed left))
        | inr (b, does) ↦
            let (m, more, ran) = subst Left does left in
            let (gs, rest) = run-Rests es m more b in
            (fs ++ gs, rw (does, run-append os fs gs s, ran) rest)
      ]

-- Every schedule of whole turns and of handlers, the open and the close button included, is a schedule of
-- single calls of the whole process: from the dialog once it is shown, some sequence of calls and
-- handlers ends in an exception or an undefined read if the turns do, and otherwise in the state that the
-- turns leave, up to the numbers of threads that it records, with as many accept threads and the same
-- clients' threads as after the turns, each at the head of its loop.
process_run_by_calls :
    (os : Winsock) (lc : ListCtrl) (ctrl : lc.Ctrl) (es : List System.Event)
    → (fs : List Event) × Rests
        (System.run os es (opened_dialog os lc ctrl))
        (run os fs (shown os lc ctrl))
unfolding opened_dialog start
process_run_by_calls os lc ctrl es =
    let a = opened_dialog os lc ctrl in run-Rests os es a.accept_threads a.client_threads a
