-- ===== src/Server/Process/Turns.antt =====
-- A turn of a thread as calls of the whole process (winSockServer/src/TcpServer.cpp).
use open_chat.Base.{
  ℕ, zero, suc, ◌-◌, ◌≡◌, refl, sym, ap, ◌∙◌, subst, List, [], map, arith, Option, none, some,
  get_elem?, modify, replicate, and_then, modify-same, erase_at-map, get_elem?-map,
}
use open_chat.ClientItem.{ClientItem}
use open_chat.Platform.{Winsock}
use open_chat.Platform.ListCtrl.{ListCtrl}
use open_chat.Server.State.{App}
use open_chat.Server.Threads.{Turn, goes_on, ends, fault, accept_turn, client_turn}
use open_chat.Server.Threads.Steps.{Place, at_head, returned}
use open_chat.Server.Threads.Steps.Whole
use open_chat.Server.Threads.Steps.Whole.{accept_turn_steps}
use open_chat.Server.System
use open_chat.Server.System.Turns.{OnTurn}
use open_chat.Server.System.Kept.{Kept, accept_threads-accept_turn, client_turn-Kept}
use open_chat.Server.Calls
use open_chat.Server.Calls.{Stage, Thread, watching, fresh}
use open_chat.Server.Calls.Whole.{client_turn_calls, outcome}
use open_chat.Server.Calls.Turns.{
  keep, between, inside, Arrives, accept_calls-Arrives, client_calls,
}
use open_chat.Server.Process.{Process, Event, run}
use open_chat.Server.Process.Embedding.{beside, run-Embeds}

-- The process between two turns: each accept thread and each client thread stands at the head of its
-- loop. The numbers of threads that the state records besides are `n` and `all`, which no call reads.
abbrev pub resting : {lc : ListCtrl} → ℕ → List ClientItem → App lc → Process lc
resting n all a = record {
  app = keep n all a;
  places = replicate a.accept_threads at_head;
  threads = map fresh a.client_threads;
}

-- The outcome of calls where that of turns is known: an exception, or the state that the turns leave, but
-- for the numbers of threads that it records, with each thread at the head of its loop.
abbrev pub Rests : {lc : ListCtrl} → Option (App lc) → Option (Process lc) → Type 0
Rests none r = r ≡ none
Rests (some b) r = (n : ℕ) × (all : List ClientItem) × (r ≡ some (resting n all b))

-- The outcome of calls of one accept thread, beside others.
abbrev emb : {lc : ListCtrl} → List Place → Option (Calls.Process lc) → Option (Process lc)
emb ps o = and_then o (λ (t : Calls.Process _). some (beside ps t))

module _ (os : Winsock) {lc : ListCtrl} where
  after_accept-Rests :
      (n k : ℕ) (t : Turn (App lc)) (r : Option (Calls.Process lc))
      → OnTurn (λ (b : App lc). b.accept_threads ≡ suc k) t
      → Arrives n (Whole.outcome t) r
      → Rests (System.after_accept os t) (emb (replicate k at_head) r)
  unfolding System.after_accept
  after_accept-Rests n k (goes_on b) r kept (more, e) =
      (n, more, ap (emb (replicate k at_head)) e ∙ rw kept refl)
  after_accept-Rests n k (ends b) r kept (more, e) =
      let fewer : b.accept_threads - 1 ≡ k = omega (arith, kept) in
      (n, more, ap (emb (replicate k at_head)) e ∙ rw fewer refl)
  after_accept-Rests n k fault r kept e = ap (emb (replicate k at_head)) e

  module _ (n : ℕ) (all : List ClientItem) where
    accept_step-Rests :
        (k : ℕ) (a : App lc)
        → a.accept_threads ≡ k
        → (fs : List Event) × Rests (System.accept_step os k a) (run os fs (resting n all a))
    unfolding System.accept_step run
    accept_step-Rests zero a e = ([], (n, all, refl))
    accept_step-Rests (suc k) a e =
        let (m, some_calls, few, turn) = accept_turn_steps os a in
        let es = replicate m Calls.accept_call in
        let arrives =
          subst
            (λ (o : Option (Place × App lc)).
              Arrives n o (Calls.run os es (between n all at_head a)))
            turn (accept_calls-Arrives os m n all at_head a) in
        let (fs, ran) = run-Embeds os (replicate k at_head) es (between n all at_head a) in
        let began : run os fs (resting n all a)
            ≡ run os fs (beside (replicate k at_head) (between n all at_head a)) =
          ap
            (λ (j : ℕ). run os fs (record {
              app = keep n all a;
              places = replicate j at_head;
              threads = map fresh a.client_threads;
            }))
            e in
        (
          fs,
          subst (Rests (System.after_accept os (accept_turn os a))) (sym (began ∙ ran)) (
              after_accept-Rests n k (accept_turn os a) _
                (subst (λ (j : ℕ). OnTurn (λ (b : App lc). b.accept_threads ≡ j) (accept_turn os a))
                  e (accept_threads-accept_turn os a))
                arrives),
        )

    module _ (i : ℕ) (c : ClientItem) (a : App lc)
        (there : get_elem? a.client_threads i ≡ some c) where
      ts : List Thread
      ts = map fresh a.client_threads

      ps : List Place
      ps = replicate a.accept_threads at_head

      watched : modify ts i (λ (t : Thread). record t { stage = watching }) ≡ ts
      unfolding ts
      watched =
          modify-same (map fresh a.client_threads) i _ (fresh c)
            (get_elem?-map fresh a.client_threads i c there) refl

      after_serve-Rests :
          (t : Turn (App lc)) (r : Option (Calls.Process lc))
          → OnTurn (Kept a) t
          → r
            ≡ and_then
                (outcome t)
                (λ (s : Option Stage × App lc). some (inside n all returned ts i s))
          → Rests (System.after_serve os i t) (emb ps r)
      unfolding System.after_serve ts ps
      after_serve-Rests (goes_on b) r kept e =
          (n, all, ap (emb ps) e ∙ rw (watched, kept.0, kept.1) refl)
      after_serve-Rests (ends b) r kept e =
          (n, all, ap (emb ps) e ∙ rw (kept.0, kept.1, erase_at-map fresh a.client_threads i) refl)
      after_serve-Rests fault r kept e = ap (emb ps) e

      served-Rests :
          (fs : List Event) × Rests
            (System.after_serve os i (client_turn os c a))
            (run os fs (resting n all a))
      unfolding ts ps
      served-Rests =
          let (k, some_calls, few, turn) = client_turn_calls os c a in
          let (es, called) =
            client_calls os n all returned ts i c (get_elem?-map fresh a.client_threads i c there) k
              (some watching, a) in
          let (fs, ran) = run-Embeds os ps es (inside n all returned ts i (some watching, a)) in
          let began =
            ap
              (λ (l : List Thread).
                run os fs (record { app = keep n all a; places = ps; threads = l }))
              watched in
          (
            fs,
            subst (Rests (System.after_serve os i (client_turn os c a))) (sym (sym began ∙ ran)) (
                after_serve-Rests (client_turn os c a) _ (client_turn-Kept os c a) (
                  called
                  ∙ ap
                      (λ (o : Option (Option Stage × App lc)).
                        and_then o
                          (λ (s : Option Stage × App lc). some (inside n all returned ts i s)))
                      turn)),
          )

    serve_step-Rests :
        (i : ℕ) (o : Option ClientItem) (a : App lc)
        → get_elem? a.client_threads i ≡ o
        → (fs : List Event) × Rests (System.serve_step os i o a) (run os fs (resting n all a))
    unfolding System.serve_step run
    serve_step-Rests i none a there = ([], (n, all, refl))
    serve_step-Rests i (some c) a there = served-Rests i c a there

    pub accepts-Rests :
        (a : App lc)
        → (fs : List Event) × Rests (System.step os System.accepts a) (run os fs (resting n all a))
    unfolding System.step
    accepts-Rests a = accept_step-Rests a.accept_threads a refl

    pub serves-Rests :
        (i : ℕ) (a : App lc)
        → (fs : List Event) × Rests
            (System.step os (System.serves i) a)
            (run os fs (resting n all a))
    unfolding System.step
    serves-Rests i a = serve_step-Rests i (get_elem? a.client_threads i) a refl
