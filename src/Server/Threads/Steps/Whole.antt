-- ===== src/Server/Threads/Steps/Whole.antt =====
-- A turn of SelectFunc as its calls, with nothing harmful in between (winSockServer/src/TcpServer.cpp).
use open_chat.Base.{
  All, ◌≢◌, ◌==◌, ℕ, ◌+◌, ◌-◌, ◌%◌, ◌^◌, ◌≡◌, ◌<◌, ◌≤◌, refl, Bool-cases, inl, inr, [], ◌∷◌, ◌++◌,
  length, some, none, Option, arith, and_then, List, get_elem?, get_elem?-middle, ap, ◌∙◌,
  length-append, false, ◌==◌,
}
use open_chat.Platform.{Winsock, SockAddr, read}
use open_chat.Platform.ListCtrl.{ListCtrl}
use open_chat.ClientItem.{ClientItem}
use open_chat.Server.System.InSync.{length-delete_client-le}
use open_chat.Server.State.{App, with_server}
use open_chat.Server.Threads.Effects.{clients-disconnect}
use open_chat.Server.Tcp.{add_client, delete_client, item_of, select_socket, get_client, client_num}
use open_chat.Server.Threads.{
  Turn, goes_on, ends, fault, disconnect, accept_turn, accept_body, admit, spawn_client,
  spawn_thread,
}
use open_chat.Server.Threads.Steps.{
  Place, at_head, adding, counting, getting, returned, advance, advances, after_spawn,
}

-- Where a whole turn leaves the thread.
abbrev pub outcome : {lc : ListCtrl} → Turn (App lc) → Option (Place × App lc)
outcome (goes_on a) = some (at_head, a)
outcome (ends a) = some (returned, a)
outcome fault = none

module _ (os : Winsock) {lc : ListCtrl} where
  -- Some number of steps leads from the head of the loop to where the turn leaves the thread.
  abbrev pub StepsTo : App lc → Turn (App lc) → Type 0
  StepsTo a t = (k : ℕ) × (1 ≤ k) × (k ≤ 8) × (advances os k (at_head, a) ≡ outcome t)

  spawned : (t : Turn (App lc)) → and_then (after_spawn os t) (advances os 0) ≡ outcome t
  unfolding advances after_spawn
  spawned (goes_on a) = refl
  spawned (ends a) = refl
  spawned fault = refl

  -- A turn of SelectFunc that is not interrupted is one to eight of its calls in a row: they lead back to
  -- the head of the loop, or to the end of the thread, or to an exception, exactly as the turn does and
  -- with the same state.
  pub accept_turn_steps : (a : App lc) → StepsTo a (accept_turn os a)
  unfolding accept_turn accept_body admit spawn_client advances advance
  accept_turn_steps a =
      let (ready, h) = select_socket os a.server.lis_sock 100 read a.log in
      let r = os.accept_ret h a.server.lis_sock in
      elim (Bool-cases a.server.run) [
        | inr off ↦ (1, omega arith, omega arith, rw off refl)
        | inl on ↦ elim (Bool-cases ready) [
          | inr idle ↦ (2, omega arith, omega arith, rw (on, idle) refl)
          | inl there ↦ elim (Bool-cases (r.sock == os.invalid_socket)) [
            | inl invalid ↦ (3, omega arith, omega arith, rw (on, there, invalid) refl)
            | inr valid ↦ (8, omega arith, omega arith, rw (on, there, valid) (spawned _))
          ]
        ]
      ]

  -- The state with that vector of clients, and that thread more.
  abbrev pub with_clients : List ClientItem → App lc → App lc
  with_clients cs a = with_server a (record (a.server) { clients = cs })

  abbrev pub with_thread : ClientItem → App lc → App lc
  with_thread c a = record a { client_threads = a.client_threads ++ c ∷ [] }

  pub getting-found :
      (a : App lc) (i : ℕ) (c : ClientItem)
      → get_elem? a.server.clients i ≡ some c
      → advance os (getting i) a ≡ some (at_head, with_thread c a)
  unfolding advance after_spawn spawn_thread get_client
  getting-found a i c found = rw found refl

delete_client-last :
    (p : ℕ) (xs : List ClientItem) (y : ClientItem)
    → y.c_port ≢ p
    → delete_client p (xs ++ y ∷ []) ≡ delete_client p xs ++ y ∷ []
unfolding delete_client
delete_client-last p [] y other =
    let e : (y.c_port == p) ≡ false = ground (arith, other) in rw e refl
delete_client-last p (x ∷ xs) y other = elim (Bool-cases (x.c_port == p)) [
  | inl same ↦ rw same refl
  | inr differs ↦ rw differs (ap (◌∷◌ x) (delete_client-last p xs y other))
]

module _ (os : Winsock) {lc : ListCtrl} where
  -- Clients that leave one after the other.
  abbrev pub depart : List ClientItem → App lc → App lc
  depart [] a = a
  depart (c ∷ cs) a = depart cs (disconnect os c a)

  clients-depart :
      (cs : List ClientItem) (a : App lc) (xs : List ClientItem) (y : ClientItem)
      → All (λ c. y.c_port ≢ c.c_port) cs
      → a.server.clients ≡ xs ++ y ∷ []
      → (zs : List ClientItem) × ((depart cs a).server.clients ≡ zs ++ y ∷ [])
        × (length zs ≤ length xs)
  clients-depart [] a xs y others e = (xs, e, omega arith)
  clients-depart (c ∷ cs) a xs y others e =
      let (zs, left, few) =
        clients-depart cs (disconnect os c a) (delete_client c.c_port xs) y others.1 (
          clients-disconnect os c a
          ∙ ap (delete_client c.c_port) e
          ∙ delete_client-last c.c_port xs y others.0) in
      (zs, left, omega (arith, few, length-delete_client-le c.c_port xs))

  spawns-last :
      (b : App lc) (zs : List ClientItem) (y : ClientItem)
      → b.server.clients ≡ zs ++ y ∷ []
      → length zs < 2 ^ 32 - 1
      → advances os 2 (counting, b) ≡ some (at_head, with_thread os y b)
  unfolding advances advance client_num
  spawns-last b zs y e few =
      let i = (length b.server.clients % 2 ^ 32 + 2 ^ 32 - 1) % 2 ^ 32 in
      let at : i ≡ length zs = omega (arith, ap length e, length-append zs (y ∷ [])) in
      let found : get_elem? b.server.clients i ≡ some y =
        ap (get_elem? b.server.clients) at
        ∙ ap (λ (t : List ClientItem). get_elem? t (length zs)) e
        ∙ get_elem?-middle zs y [] in
      ap (λ (o : Option (Place × App lc)). and_then o (advances os 0))
        (getting-found os b i y found)

  -- Clients with other ports that leave between AddClient and ClientNum, however many and in whatever
  -- order, do no harm: with fewer than 2^32 - 1 clients before, the new client still gets its own thread.
  undisturbed_turn :
      (addr : SockAddr) (sock : ℕ) (cs : List ClientItem) (a : App lc)
      → All (λ c. (item_of os addr sock).c_port ≢ c.c_port) cs
      → length a.server.clients < 2 ^ 32 - 1
      → let item = item_of os addr sock in
        let b = depart cs (with_clients os (a.server.clients ++ item ∷ []) a) in
        (advance os (adding addr sock) a
          ≡ some (counting, with_clients os (a.server.clients ++ item ∷ []) a))
        × (advances os 2 (counting, b) ≡ some (at_head, with_thread os item b))
  unfolding advance add_client
  undisturbed_turn addr sock cs a others few =
      let item = item_of os addr sock in
      let b = depart cs (with_clients os (a.server.clients ++ item ∷ []) a) in
      let (zs, e, less) =
        clients-depart cs (with_clients os (a.server.clients ++ item ∷ []) a) a.server.clients item
          others refl in
      (refl, spawns-last b zs item e (omega (arith, less)))
