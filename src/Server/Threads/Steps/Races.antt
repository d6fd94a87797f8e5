-- ===== src/Server/Threads/Steps/Races.antt =====
-- What other threads and the buttons can do to a turn of SelectFunc from inside
-- (winSockServer/src/TcpServer.cpp).
use open_chat.Base.{
  ℕ, zero, suc, ◌+◌, ◌-◌, ◌%◌, ◌^◌, ◌≡◌, ◌<◌, ◌≤◌, refl, [], ◌∷◌, ◌++◌, length, some, none, arith,
  and_then, List, get_elem?, get_elem?-middle, append_assoc, modify, ap, ◌∙◌, length-append, false,
}
use open_chat.Platform.{Winsock, SockAddr}
use open_chat.Platform.ListCtrl.{ListCtrl}
use open_chat.ClientItem.{ClientItem}
use open_chat.Server.State.{App}
use open_chat.Server.Buttons.{on_btn_close}
use open_chat.Server.Threads.Effects.{clients-disconnect}
use open_chat.Server.Tcp.{add_client, uninit, delete_client, item_of, get_client, client_num}
use open_chat.Server.Threads.{disconnect, stop_server, spawn_thread}
use open_chat.Server.Threads.Steps.{
  Place, at_head, adding, counting, getting, thread_step, put_place, advance, advances, interleave,
  after_spawn,
}
use open_chat.Server.Threads.Steps.Whole.{with_clients, with_thread, getting-found}

get_elem?-past {ℓ} : {A : Type ℓ} (xs : List A) (i : ℕ) → length xs ≤ i → get_elem? xs i ≡ none
get_elem?-past [] i past = refl
get_elem?-past (x ∷ xs) zero past = absurd (omega arith)
get_elem?-past (x ∷ xs) (suc i) past = get_elem?-past xs i (omega arith)

length-delete_client :
    (c : ClientItem) (xs ys : List ClientItem)
    → length (delete_client c.c_port (xs ++ c ∷ ys)) ≡ length xs + length ys
unfolding delete_client
length-delete_client c [] ys = ground arith
length-delete_client c (x ∷ xs) ys =
    ground (arith, length-delete_client c xs ys, length-append xs (c ∷ ys))

module _ (os : Winsock) {lc : ListCtrl} where
  getting-past :
      (a : App lc) (i : ℕ) → length a.server.clients ≤ i → advance os (getting i) a ≡ none
  unfolding advance after_spawn spawn_thread get_client
  getting-past a i past = rw (get_elem?-past a.server.clients i past) refl

  -- What other threads and the buttons do to a turn from inside. The close button between AddClient and
  -- GetClient makes GetClient throw. The close button before AddClient leaves a server that does not run
  -- but has the client in its vector and a thread that serves it. A listed client that leaves between
  -- ClientNum and GetClient, with fewer than 2^32 clients, makes GetClient throw.
  pub interrupted_turn :
      (addr : SockAddr) (sock : ℕ) (c : ClientItem) (a : App lc) (xs ys : List ClientItem)
      → a.server.clients ≡ xs ++ c ∷ ys
      → length a.server.clients < 2 ^ 32
      → let closed = on_btn_close os a in
        let item = item_of os addr sock in
        (advances os 2 (counting, closed) ≡ none)
        × (advances os 3 (adding addr sock, closed)
            ≡ some (at_head, with_thread os item (with_clients os (item ∷ []) closed)))
        × (closed.server.run ≡ false)
        × (and_then
              (advance os counting a)
              (λ (s : Place × App lc). advance os s.0 (disconnect os c s.1))
            ≡ none)
  unfolding advances advance on_btn_close stop_server uninit client_num get_client spawn_thread
      after_spawn add_client
  interrupted_turn addr sock c a xs ys e few =
      let size : length a.server.clients ≡ suc (length xs + length ys) =
        omega (arith, ap length e, length-append xs (c ∷ ys)) in
      let left : length (disconnect os c a).server.clients ≡ length xs + length ys =
        ap length (clients-disconnect os c a ∙ ap (delete_client c.c_port) e)
        ∙ length-delete_client c xs ys in
      (refl, refl, refl, getting-past (disconnect os c a) _ (omega (arith, size, left)))

module _ (os : Winsock) {lc : ListCtrl} where
  interleave-advance :
      (i : ℕ) (is : List ℕ) (ps : List Place) (p q : Place) (a b : App lc)
      → get_elem? ps i ≡ some p
      → advance os p a ≡ some (q, b)
      → interleave os (i ∷ is) (ps, a) ≡ interleave os is (modify ps i (λ _. q), b)
  unfolding interleave thread_step put_place
  interleave-advance i is ps p q a b here step = rw here (rw step refl)

  -- Two threads of SelectFunc, which closing and opening the server leaves, each with a connection to
  -- add: if the second one adds its client between AddClient and ClientNum of the first one, and there
  -- were fewer than 2^32 - 2 clients, the second client gets two threads and the first one none.
  pub two_accept_threads :
      (addr1 addr2 : SockAddr) (sock1 sock2 : ℕ) (a : App lc)
      → length a.server.clients < 2 ^ 32 - 2
      → let x = item_of os addr1 sock1 in
        let y = item_of os addr2 sock2 in
        interleave os (0 ∷ 1 ∷ 0 ∷ 0 ∷ 1 ∷ 1 ∷ []) (adding addr1 sock1 ∷ adding addr2 sock2 ∷ [], a)
        ≡ some (
          at_head ∷ at_head ∷ [],
          with_thread os y (with_thread os y (with_clients os (a.server.clients ++ x ∷ y ∷ []) a)),
        )
  unfolding advance add_client client_num
  two_accept_threads addr1 addr2 sock1 sock2 a few =
      let x = item_of os addr1 sock1 in
      let y = item_of os addr2 sock2 in
      let front = a.server.clients ++ x ∷ [] in
      let all = front ++ y ∷ [] in
      let i = (length all % 2 ^ 32 + 2 ^ 32 - 1) % 2 ^ 32 in
      let at : i ≡ length front =
        omega (arith, length-append a.server.clients (x ∷ []), length-append front (y ∷ [])) in
      let found : get_elem? all i ≡ some y = ap (get_elem? all) at ∙ get_elem?-middle front y [] in
      let b1 = with_clients os front a in
      let b2 = with_clients os all a in
      let b3 = with_thread os y b2 in
      let p1 = adding addr1 sock1 in
      let p2 = adding addr2 sock2 in
      interleave-advance 0 _ (p1 ∷ p2 ∷ []) p1 counting a b1 refl refl
      ∙ interleave-advance 1 _ (counting ∷ p2 ∷ []) p2 counting b1 b2 refl refl
      ∙ interleave-advance 0 _ (counting ∷ counting ∷ []) counting (getting i) b2 b2 refl refl
      ∙ interleave-advance 0 _ (getting i ∷ counting ∷ []) (getting i) at_head b2 b3 refl
          (getting-found os b2 i y found)
      ∙ interleave-advance 1 _ (at_head ∷ counting ∷ []) counting (getting i) b3 b3 refl refl
      ∙ interleave-advance 1 [] (at_head ∷ getting i ∷ []) (getting i) at_head b3
          (with_thread os y b3) refl (getting-found os b3 i y found)
      ∙ unfold interleave in rw (append_assoc a.server.clients (x ∷ []) (y ∷ [])) refl
