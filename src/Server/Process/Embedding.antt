-- ===== src/Server/Process/Embedding.antt =====
-- The process with one accept thread inside the whole process (winSockServer/).
use open_chat.Base.{
  ℕ, ◌+◌, ◌==◌, true, false, arith, ◌≡◌, ◌⊎◌, refl, ap, ◌∙◌, List, [], ◌∷◌, ◌++◌, Option, none,
  some, Option-cases, inl, inr, get_elem?, and_then,
}
use open_chat.Platform.{Winsock}
use open_chat.Platform.ListCtrl.{ListCtrl}
use open_chat.Server.State.{App}
use open_chat.Server.Threads.Steps.{
  Place, at_head, selecting, accepting, inserting, notifying, adding, counting, getting, returned,
  advance,
}
use open_chat.Server.Calls
use open_chat.Server.Calls.{Stage, Thread, moved, started, serve}
use open_chat.Server.Calls.Turns.{none_started}
use open_chat.Server.Process.{
  Process, Event, accept_call, client_call, presses, picks_file, ticks, checks, stood, accept_step,
  client_step, handler, step, run,
}

-- An accept thread in front of others, unless it has returned.
abbrev pub front : Place → List Place → List Place
front returned ps = ps
front p ps = p ∷ ps

-- The process with one accept thread, beside other accept threads.
abbrev pub beside : {lc : ListCtrl} → List Place → Calls.Process lc → Process lc
beside ps s = record { app = s.app; places = front s.place ps; threads = s.threads }

pub front_cases : (p : Place) (ps : List Place) → (p ≡ returned) ⊎ (front p ps ≡ p ∷ ps)
front_cases at_head ps = inr refl
front_cases selecting ps = inr refl
front_cases accepting ps = inr refl
front_cases (inserting addr sock) ps = inr refl
front_cases (notifying addr sock) ps = inr refl
front_cases (adding addr sock) ps = inr refl
front_cases counting ps = inr refl
front_cases (getting i) ps = inr refl
front_cases returned ps = inl refl

pub stood-front : (p : Place) (ps : List Place) (q : Place) → stood (p ∷ ps) 0 q ≡ front q ps
stood-front p ps at_head = refl
stood-front p ps selecting = refl
stood-front p ps accepting = refl
stood-front p ps (inserting addr sock) = refl
stood-front p ps (notifying addr sock) = refl
stood-front p ps (adding addr sock) = refl
stood-front p ps counting = refl
stood-front p ps (getting i) = refl
stood-front p ps returned = refl

-- Whether a thread has been started.
pub other_count : (n : ℕ) → (n + 1 == n) ≡ false
other_count n = ground arith

pub same_count : (n : ℕ) → (n == n) ≡ true
same_count n = ground arith

module _ (os : Winsock) {lc : ListCtrl} where
  pub run-append :
      (fs gs : List Event) (s : Process lc)
      → run os (fs ++ gs) s ≡ and_then (run os fs s) (run os gs)
  unfolding run
  run-append [] gs s = refl
  run-append (f ∷ fs) gs s = elim (Option-cases (step os f s)) [
    | inl e ↦ rw e refl
    | inr (t, e) ↦ rw e (run-append fs gs t)
  ]

  run-one : (e : Event) (s : Process lc) → run os (e ∷ []) s ≡ step os e s
  unfolding run
  run-one e s = elim (Option-cases (step os e s)) [
    | inl failed ↦ rw failed refl
    | inr (t, does) ↦ rw does refl
  ]

  module _ (ps : List Place) where
    abbrev Embeds : Process lc → Option (Calls.Process lc) → Type 0
    Embeds s o =
        (fs : List Event) × (run os fs s
          ≡ and_then o (λ (t : Calls.Process lc). some (beside ps t)))

    -- A call of an accept thread that stands somewhere.
    front_call :
        (p : Place) (a : App lc) (ts : List Thread)
        → step os (accept_call 0) (record { app = a; places = p ∷ ps; threads = ts })
          ≡ and_then
              (Calls.step os Calls.accept_call (record { app = a; place = p; threads = ts }))
              (λ (t : Calls.Process lc). some (beside ps t))
    unfolding step accept_step Calls.step
    front_call p a ts = go (advance os p a)
      where
        go :
            (o : Option (Place × App lc))
            → and_then o (λ (r : Place × App lc).
              some (record {
                app = r.1;
                places = stood (p ∷ ps) 0 r.0;
                threads = ts ++ started a r.1;
              }))
              ≡ and_then
                  (and_then o (λ (r : Place × App lc).
                    some (record { app = r.1; place = r.0; threads = ts ++ started a r.1 })))
                  (λ (t : Calls.Process lc). some (beside ps t))
        go none = refl
        go (some (q, b)) =
            ap
              (λ (l : List Place).
                some (record { app = b; places = l; threads = ts ++ started a b }))
              (stood-front p ps q)

    returned_call :
        (a : App lc) (ts : List Thread)
        → Calls.step os Calls.accept_call (record { app = a; place = returned; threads = ts })
          ≡ some (record { app = a; place = returned; threads = ts })
    unfolding Calls.step advance
    returned_call a ts =
        ap (λ (l : List Thread). some (record { app = a; place = returned; threads = l }))
          (none_started ts a.client_threads)

    standing_call :
        (p : Place) (a : App lc) (ts : List Thread)
        → front p ps ≡ p ∷ ps
        → let s : Calls.Process lc = record { app = a; place = p; threads = ts } in
          Embeds (beside ps s) (Calls.step os Calls.accept_call s)
    standing_call p a ts e = (
      accept_call 0 ∷ [],
      ap
            (λ (l : List Place).
              run os (accept_call 0 ∷ []) (record { app = a; places = l; threads = ts }))
            e
          ∙ run-one (accept_call 0) (record { app = a; places = p ∷ ps; threads = ts })
          ∙ front_call p a ts,
    )

    accept_call-Embeds :
        (p : Place) (a : App lc) (ts : List Thread)
        → let s : Calls.Process lc = record { app = a; place = p; threads = ts } in
          Embeds (beside ps s) (Calls.step os Calls.accept_call s)
    unfolding run
    accept_call-Embeds p a ts = elim (front_cases p ps) [
      | inl gone ↦ rw gone ([], rw (returned_call a ts) refl)
      | inr whole ↦ standing_call p a ts whole
    ]

    client_call-Embeds :
        (i : ℕ) (s : Calls.Process lc)
        → step os (client_call i) (beside ps s)
          ≡ and_then
              (Calls.step os (Calls.client_call i) s)
              (λ (t : Calls.Process lc). some (beside ps t))
    unfolding step client_step Calls.step
    client_call-Embeds i s = elim (Option-cases (get_elem? s.threads i)) [
      | inl e ↦ rw e refl
      | inr (t, e) ↦ rw e (go t (serve os t.client t.stage s.app))
    ]
      where
        go :
            (t : Thread) (o : Option (Option Stage × App lc))
            → and_then o (λ (r : Option Stage × App lc).
              some (record (beside ps s) { app = r.1; threads = moved s.threads i r.0 }))
              ≡ and_then
                  (and_then o (λ (r : Option Stage × App lc).
                    some (record s { app = r.1; threads = moved s.threads i r.0 })))
                  (λ (t : Calls.Process lc). some (beside ps t))
        go t none = refl
        go t (some r) = refl

    -- A step of the process with one accept thread is a step of the whole process, or none where that
    -- thread has returned.
    step-Embeds :
        (e : Calls.Event) (s : Calls.Process lc) → Embeds (beside ps s) (Calls.step os e s)
    unfolding run step handler Calls.step
    step-Embeds Calls.accept_call s = accept_call-Embeds s.place s.app s.threads
    step-Embeds (Calls.client_call i) s =
        (client_call i ∷ [], run-one (client_call i) (beside ps s) ∙ client_call-Embeds i s)
    step-Embeds (Calls.presses m) s = (presses m ∷ [], refl)
    step-Embeds (Calls.picks_file f) s = (picks_file f ∷ [], refl)
    step-Embeds (Calls.ticks id now) s = (ticks id now ∷ [], refl)
    step-Embeds (Calls.checks row b) s = (checks row b ∷ [], refl)

    pub run-Embeds :
        (es : List Calls.Event) (s : Calls.Process lc)
        → (fs : List Event) × (run os fs (beside ps s)
            ≡ and_then (Calls.run os es s) (λ (t : Calls.Process lc). some (beside ps t)))
    unfolding run Calls.run
    run-Embeds [] s = ([], refl)
    run-Embeds (e ∷ es) s =
        let (fs, first) = step-Embeds e s in
        elim (Option-cases (Calls.step os e s)) [
          | inl failed ↦ (fs, rw failed (first ∙ rw failed refl))
          | inr (t, does) ↦
              let (gs, later) = run-Embeds es t in
              let there : run os fs (beside ps s) ≡ some (beside ps t) = first ∙ rw does refl in
              (fs ++ gs, rw (run-append fs gs (beside ps s), there, does) later)
        ]
