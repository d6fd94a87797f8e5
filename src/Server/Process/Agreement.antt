-- ===== src/Server/Process/Agreement.antt =====
-- The list of clients, TcpServer's vector and the client threads over all interleavings of the process
-- without a close (winSockServer/).
use open_chat.Base.{
  ℕ, suc, true, ◌+◌, ◌-◌, ◌<◌, ◌≤◌, ◌^◌, ◌≡◌, ◌≢◌, ◌⊎◌, refl, ap, ◌∙◌, inl, List, [], ◌∷◌, length,
  All, arith, Option, none, some, inr, OnSome, OnSome-then, OnSome-some,
}
use open_chat.Platform.{Winsock}
use open_chat.Platform.ListCtrl.{ListCtrl}
use open_chat.Server.State.{start, server_dlg, tcp_server}
use open_chat.Server.System.InSync.{Documented}
use open_chat.Server.System.{opened_dialog}
use open_chat.Server.System.Guard.{Guarded}
use open_chat.Server.Threads.Steps.{Place, returned}
use open_chat.Server.Calls.Agreement.{AgreesUpTo}
use open_chat.Server.Process.{Process, Event, closes, step, run, shown}
use open_chat.Server.Process.Embedding.{front, front_cases}
use open_chat.Server.Process.Listening.{step-Guarded}
use open_chat.Server.Process.Alone.{Alone, single}
use open_chat.Server.Process.Alone.Stepping.{step-Alone}

-- Where the accept thread stands: a process without one is as one whose accept thread has returned.
abbrev pub first_place : List Place → Place
first_place [] = returned
first_place (p ∷ ps) = p

-- There is one accept thread at most, and then the server runs; and the rows and the client threads go with the vector, by the place
-- where it stands.
abbrev pub Agrees : Winsock → {lc : ListCtrl} → Process lc → Type 0
Agrees os s =
    (length s.places ≤ 1)
    × ((s.places ≡ []) ⊎ (s.app.server.run ≡ true))
    × AgreesUpTo os (single (first_place s.places) s)

front_lem : (p : Place) → (length (front p []) ≤ 1) × (first_place (front p []) ≡ p)
front_lem p = elim (front_cases p []) [
  | inl gone ↦ rw gone (omega arith, refl)
  | inr whole ↦ rw whole (omega arith, refl)
]

both {ℓ κ μ} :
    {A : Type ℓ} (P : A → Type κ) (Q : A → Type μ) (o : Option A)
    → OnSome P o
    → OnSome Q o
    → OnSome (λ (a : A). P a × Q a) o
both P Q none p q = tt
both P Q (some a) p q = (p, q)

module _ (os : Winsock) {lc : ListCtrl} where
  Alone-Agrees : {n : ℕ} (s : Process lc) → Alone os n s → Agrees os s
  Alone-Agrees s k =
      let (few, same) = front_lem k.place in
      let there : first_place s.places ≡ k.place = ap first_place k.alone ∙ same in
      (
        omega (arith, few, ap length k.alone),
        elim k.runs [
          | inl gone ↦ inl (k.alone ∙ ap (λ (p : Place). front p []) gone)
          | inr up ↦ inr up
        ],
        rw there (k.in_step.shows, k.in_step.spawned),
      )

  run-Agrees_from :
      {n : ℕ} (es : List Event) (s : Process lc)
      → All (λ e. e ≢ closes) es
      → Documented os
      → length es + n < 2 ^ 32
      → Guarded os s.app
      → Alone os n s
      → OnSome (Agrees os) (run os es s)
  unfolding run
  run-Agrees_from [] s up d lt g k = Alone-Agrees s k
  run-Agrees_from {n} (e ∷ es) s up d lt g k =
      let Next : Process lc → Type 0 = λ t. Guarded os t.app × Alone os (suc n) t in
      OnSome-then Next (Agrees os) (step os e s) (run os es)
        (both (λ (t : Process lc). Guarded os t.app) (Alone os (suc n)) (step os e s)
          (step-Guarded os e s g) (step-Alone os e s up.0 d (omega arith) g k))
        (λ t h. run-Agrees_from es t up.1 d (omega arith) h.0 h.1)

  -- However the calls of all threads and the handlers but OnBtn_Close interleave, from the dialog before any
  -- button is pressed, and whatever the network answers (ports of 16 bits, and one text for an address from
  -- inet_ntop and from inet_ntoa), before 2^32 - 1 steps: there is one accept thread at most, and while there is one the server runs; the rows show
  -- exactly the clients in TcpServer's vector, in its order, but for those whose thread stands between
  -- RemoveClient and DeleteClient, and with the one that the accept thread has shown and not yet added; and
  -- the vector has the ports of the clients that threads serve, each as often, with one client more at its
  -- end exactly while the accept thread stands between AddClient and the start of its thread.
  pub run-Agrees :
      Documented os
      → (ctrl : lc.Ctrl) (es : List Event) {s : Process lc} → lc.rows ctrl ≡ []
      → All (λ e. e ≢ closes) es
      → length es < 2 ^ 32 - 1
      → run os es (shown os lc ctrl) ≡ some s
      → Agrees os s
  unfolding opened_dialog start server_dlg tcp_server
  run-Agrees d ctrl es empty up lt e =
      OnSome-some (Agrees os) (run os es (shown os lc ctrl))
        (run-Agrees_from {n = 0} es (shown os lc ctrl) up d (omega arith)
          (record { guard = inl refl; listens = refl })
          (record {
            place = returned;
            alone = refl;
            runs = inl refl;
            in_step = record {
              shows = rw empty refl;
              ports = tt;
              few = omega arith;
              spawned = λ p. refl;
            };
          }))
        e
