-- ===== src/Server/Process/Alone.antt =====
-- The process without a close: at most one accept thread, beside which the rows and the client threads
-- go with TcpServer's vector (winSockServer/).
pub mod Stepping
use open_chat.Base.{
  ℕ, zero, suc, ◌-◌, ◌<◌, ◌^◌, ◌≡◌, ◌≢◌, ◌⊎◌, refl, sym, ap, ◌∙◌, true, false, List, [], ◌∷◌, ◌++◌,
  map, arith, Bool-cases, inl, inr, Option, none, some, and_then, get_elem?, OnSome,
}
use open_chat.ClientItem.{ClientItem}
use open_chat.Platform.{Winsock}
use open_chat.Platform.ListCtrl.{ListCtrl}
use open_chat.Server.State.{App, TcpServer}
use open_chat.Server.Tcp.{init}
use open_chat.Server.Threads.Effects.{clients-init}
use open_chat.Server.Threads.Steps.{
  Place, at_head, selecting, accepting, inserting, notifying, adding, counting, getting, returned,
  advance,
}
use open_chat.Server.Buttons.{on_btn_open, is_enabled, id_button_1}
use open_chat.Server.Buttons.Outcome.{on_btn_open_lem, on_btn_open_keeps, at_dialog_port, init-run}
use open_chat.Server.System.InSync.{entry, Documented}
use open_chat.Server.System.Guard.{Guarded}
use open_chat.Server.Calls
use open_chat.Server.Calls.{Stage, Thread, moved, started, serve}
use open_chat.Server.Tcp.Ports.{SamePorts}
use open_chat.Server.Calls.InStep.{InStep, InStep-frame, InStep-suc, coming, Spawned}
use open_chat.Server.Calls.Stepping.{step-InStep}
use open_chat.Server.Calls.Running.{SameRun, advance-SameRun, serve-SameRun, handler-SameRun}
use open_chat.Server.Process.{
  Process, Event, accept_call, client_call, opens, closes, presses, picks_file, ticks, checks,
  stood, spawned, accept_step, client_step, press_open, handler, step,
}
use open_chat.Server.Process.Embedding.{front, front_cases, stood-front, same_count, other_count}

-- The process as one with a single accept thread, at that place.
abbrev pub single : {lc : ListCtrl} → Place → Process lc → Calls.Process lc
single p s = record { app = s.app; place = p; threads = s.threads }

-- There is no accept thread, or one, and then the server runs; and the rows, the vector and the client
-- threads go together.
pub record Alone (os : Winsock) {lc : ListCtrl} (n : ℕ) (s : Process lc) : Type 0 where
  pub place : Place
  pub alone : s.places ≡ front place []
  pub runs : (place ≡ returned) ⊎ (s.app.server.run ≡ true)
  pub in_step : InStep os n (single place s)

-- A list of one accept thread at most.
one_place : (p q : Place) (i : ℕ) → get_elem? (p ∷ []) i ≡ some q → (i ≡ 0) × (p ≡ q)
one_place p q zero e = (refl, cc)
one_place p q (suc i) e = absurd (cc)

none_there : {p : Place} → none ≡ some p → ⊥
none_there e = cc

front_place :
    (p q : Place) (i : ℕ)
    → get_elem? (front p []) i ≡ some q
    → (i ≡ 0) × (p ≡ q) × (front p [] ≡ p ∷ [])
front_place p q i e = elim (front_cases p []) [
  | inl gone ↦ absurd (none_there (ap (λ (p : Place). get_elem? (front p []) i) (sym gone) ∙ e))
  | inr whole ↦
      let (first, same) =
        one_place p q i (ap (λ (l : List Place). get_elem? l i) (sym whole) ∙ e) in
      (first, same, whole)
]

not_empty : {p : Place} {ps : List Place} → [] ≡ p ∷ ps → ⊥
not_empty e = cc

module _ (os : Winsock) {lc : ListCtrl} {n : ℕ} where
  pub Alone-suc : (s : Process lc) → Alone os n s → Alone os (suc n) s
  Alone-suc s k = record {
    place = k.place;
    alone = k.alone;
    runs = k.runs;
    in_step = InStep-suc os k.in_step;
  }

  pub accept_step-Alone :
      (i : ℕ) (o : Option Place) (s : Process lc)
      → get_elem? s.places i ≡ o
      → Documented os
      → n < 2 ^ 32 - 1
      → Alone os n s
      → OnSome (Alone os (suc n)) (accept_step os i o s)
  unfolding accept_step Calls.step
  accept_step-Alone i none s e d lt k = Alone-suc s k
  accept_step-Alone i (some q) s e d lt k =
      let (first, same, whole) =
        front_place k.place q i (ap (λ (l : List Place). get_elem? l i) (sym k.alone) ∙ e) in
      go (advance os q s.app)
        (rw (← same) (step-InStep os Calls.accept_call (single k.place s) d lt k.in_step))
        (advance-SameRun os q s.app) first (k.alone ∙ whole ∙ ap (λ (p : Place). p ∷ []) same)
        (elim k.runs [
          | inl gone ↦ absurd (not_empty (sym (ap (λ (p : Place). front p []) gone) ∙ whole))
          | inr up ↦ up
        ])
    where
      go :
          (o : Option (Place × App lc))
          → OnSome (InStep os (suc n)) (
              and_then o (λ (r : Place × App lc).
                some (record { app = r.1; place = r.0; threads = s.threads ++ started s.app r.1 })))
          → OnSome (λ (r : Place × App lc). SameRun s.app r.1) o
          → i ≡ 0
          → s.places ≡ q ∷ []
          → s.app.server.run ≡ true
          → OnSome (Alone os (suc n)) (
              and_then o (λ (r : Place × App lc). some (record {
                app = r.1;
                places = stood s.places i r.0;
                threads = s.threads ++ started s.app r.1;
              })))
      go none kept same first whole up = tt
      go (some (p, b)) kept same first whole up = record {
        place = p;
        alone = rw (first, whole) (stood-front q [] p);
        runs = inr (same ∙ up);
        in_step = kept;
      }

  pub client_step-Alone :
      (i : ℕ) (s : Process lc)
      → Documented os
      → n < 2 ^ 32 - 1
      → Alone os n s
      → OnSome (Alone os (suc n)) (client_step os i (get_elem? s.threads i) s)
  unfolding client_step Calls.step
  client_step-Alone i s d lt k =
      go (get_elem? s.threads i)
        (step-InStep os (Calls.client_call i) (single k.place s) d lt k.in_step)
    where
      served :
          (o : Option (Option Stage × App lc))
          → OnSome (InStep os (suc n)) (
              and_then o (λ (r : Option Stage × App lc).
                some (record (single k.place s) { app = r.1; threads = moved s.threads i r.0 })))
          → OnSome (λ (r : Option Stage × App lc). SameRun s.app r.1) o
          → OnSome (Alone os (suc n)) (
              and_then o (λ (r : Option Stage × App lc).
                some (record s { app = r.1; threads = moved s.threads i r.0 })))
      served none kept same = tt
      served (some (stage, b)) kept same = record {
        place = k.place;
        alone = k.alone;
        runs = elim k.runs [ inl gone ↦ inl gone | inr up ↦ inr (same ∙ up) ];
        in_step = kept;
      }

      go :
          (o : Option Thread)
          → OnSome (InStep os (suc n)) (Calls.client_step os i o (single k.place s))
          → OnSome (Alone os (suc n)) (client_step os i o s)
      go none kept = Alone-suc s k
      go (some t) kept =
          served (serve os t.client t.stage s.app) kept (serve-SameRun os t.client t.stage s.app)
