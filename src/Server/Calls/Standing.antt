-- ===== src/Server/Calls/Standing.antt =====
-- The clients of the threads by the call that each thread makes next (ClientFunc of
-- winSockServer/src/TcpServer.cpp).
use open_chat.Base.{
  ℕ, ◌+◌, ◌≤◌, ◌<◌, ◌≡◌, refl, sym, ap, ◌∙◌, Bool, true, false, List, [], ◌∷◌, ◌++◌, arith,
  if◌then◌else◌, ◌==◌, modify, erase_at, SplitAt,
}
use open_chat.ClientItem.{ClientItem}
use open_chat.Server.Tcp.Ports.{count_port, count_port-append}
use open_chat.Server.Calls.{Stage, deleting, leaving, Thread}
use open_chat.Server.Calls.Leaving.{Within, without, without-middle, without-delete_client}
use open_chat.Server.Tcp.{delete_client}

-- The row has been removed and the client is still in the vector.
abbrev pub is_gone : Stage → Bool
is_gone deleting = true
is_gone other = false

-- The client is still in the vector.
abbrev pub is_served : Stage → Bool
is_served leaving = false
is_served other = true

-- The clients of the threads whose stage passes a test.
abbrev pub clients_at : (Stage → Bool) → List Thread → List ClientItem
clients_at p [] = []
clients_at p (t ∷ ts) = let rest = clients_at p ts in if p t.stage then t.client ∷ rest else rest

pub clients_at-append :
    (p : Stage → Bool) (xs ys : List Thread)
    → clients_at p (xs ++ ys) ≡ clients_at p xs ++ clients_at p ys
clients_at-append p [] ys = refl
clients_at-append p (x ∷ xs) ys = ground (arith, clients_at-append p xs ys)

gone-served :
    (stage : Stage) (c : ClientItem) (xs ys : List ClientItem)
    → Within xs ys
    → Within (if is_gone stage then c ∷ xs else xs) (if is_served stage then c ∷ ys else ys)
gone-served stage c xs ys h p = ground (arith, h p)

pub gone-Within-served :
    (ts : List Thread) → Within (clients_at is_gone ts) (clients_at is_served ts)
gone-Within-served [] p = omega arith
gone-Within-served (t ∷ ts) p =
    gone-served t.stage t.client (clients_at is_gone ts) (clients_at is_served ts)
      (gone-Within-served ts) p

gone-lt-served :
    (stage : Stage) (c : ClientItem) (xs ys : List ClientItem) (p : ℕ)
    → count_port p xs < count_port p ys
    → count_port p (if is_gone stage then c ∷ xs else xs)
      < count_port p (if is_served stage then c ∷ ys else ys)
gone-lt-served stage c xs ys p h = ground arith

served-first :
    (stage : Stage) (c : ClientItem) (xs ys : List ClientItem)
    → is_served stage ≡ true
    → is_gone stage ≡ false
    → count_port c.c_port xs ≤ count_port c.c_port ys
    → count_port c.c_port (if is_gone stage then c ∷ xs else xs)
      < count_port c.c_port (if is_served stage then c ∷ ys else ys)
served-first stage c xs ys s g h = rw (s, g) (ground arith)

-- A client that is served and not gone is counted among the served ones once more.
served-middle :
    (xs : List Thread) (t : Thread) (ys : List Thread)
    → is_served t.stage ≡ true
    → is_gone t.stage ≡ false
    → count_port t.client.c_port (clients_at is_gone (xs ++ t ∷ ys))
      < count_port t.client.c_port (clients_at is_served (xs ++ t ∷ ys))
served-middle [] t ys s g =
    served-first t.stage t.client (clients_at is_gone ys) (clients_at is_served ys) s g
      (gone-Within-served ys t.client.c_port)
served-middle (x ∷ xs) t ys s g =
    gone-lt-served x.stage x.client (clients_at is_gone (xs ++ t ∷ ys))
      (clients_at is_served (xs ++ t ∷ ys)) t.client.c_port (served-middle xs t ys s g)

-- The clients of the other threads, and of this one if it passes the test.
clients_at-middle :
    (p : Stage → Bool) (xs : List Thread) (t : Thread) (ys : List Thread)
    → clients_at p (xs ++ t ∷ ys)
      ≡ clients_at p xs ++ (if p t.stage then t.client ∷ clients_at p ys else clients_at p ys)
clients_at-middle p xs t ys = clients_at-append p xs (t ∷ ys)

-- The clients at a stage, but for one thread.
abbrev others : (Stage → Bool) → List Thread → List Thread → List ClientItem
others p xs ys = clients_at p xs ++ clients_at p ys

module _ (xs : List Thread) (t : Thread) (ys : List Thread) where
  without-gone :
      (cs : List ClientItem)
      → is_gone t.stage ≡ true
      → without (clients_at is_gone (xs ++ t ∷ ys)) cs
        ≡ delete_client t.client.c_port (without (others is_gone xs ys) cs)
  without-gone cs g =
      rw (clients_at-middle is_gone xs t ys, g)
        (without-middle (clients_at is_gone xs) t.client (clients_at is_gone ys) cs)

  without-there :
      (cs : List ClientItem)
      → is_gone t.stage ≡ false
      → without (clients_at is_gone (xs ++ t ∷ ys)) cs ≡ without (others is_gone xs ys) cs
  without-there cs g = rw (clients_at-middle is_gone xs t ys, g) refl

  count_port-served :
      (q : ℕ)
      → is_served t.stage ≡ true
      → count_port q (clients_at is_served (xs ++ t ∷ ys))
        ≡ (if t.client.c_port == q then 1 else 0) + count_port q (others is_served xs ys)
  count_port-served q e =
      rw (clients_at-middle is_served xs t ys, e)
        (omega (
          arith,
          count_port-append q (clients_at is_served xs) (t.client ∷ clients_at is_served ys),
          count_port-append q (clients_at is_served xs) (clients_at is_served ys),
        ))

  served-others :
      is_served t.stage ≡ false → clients_at is_served (xs ++ t ∷ ys) ≡ others is_served xs ys
  served-others e = rw (clients_at-middle is_served xs t ys, e) refl

abbrev pub at_stage : Stage → Thread → Thread
at_stage stage t = record t { stage = stage }

-- What a move of one thread does to the clients at the two stages.
module _ {ts : List Thread} {i : ℕ} {t : Thread} (at : SplitAt ts i t) where
  pub without-removed :
      (cs : List ClientItem)
      → is_gone t.stage ≡ false
      → without (clients_at is_gone (modify ts i (at_stage deleting))) cs
        ≡ delete_client t.client.c_port (without (clients_at is_gone ts) cs)
  without-removed cs g =
      ap (λ (l : List Thread). without (clients_at is_gone l) cs) (at.modified (at_stage deleting))
      ∙ without-gone at.before (at_stage deleting t) at.behind cs refl
      ∙ ap (delete_client t.client.c_port) (
          sym (without-there at.before t at.behind cs g)
          ∙ sym (ap (λ (l : List Thread). without (clients_at is_gone l) cs) at.whole))

  pub without-deleted :
      (cs : List ClientItem)
      → is_gone t.stage ≡ true
      → without (clients_at is_gone ts) cs
        ≡ without
            (clients_at is_gone (modify ts i (at_stage leaving)))
            (delete_client t.client.c_port cs)
  without-deleted cs g =
      let rest = others is_gone at.before at.behind in
      let p = t.client.c_port in
      ap (λ (l : List Thread). without (clients_at is_gone l) cs) at.whole
      ∙ without-gone at.before t at.behind cs g
      ∙ sym (without-delete_client rest p cs)
      ∙ sym (
          ap (λ (l : List Thread). without (clients_at is_gone l) (delete_client p cs))
            (at.modified (at_stage leaving))
          ∙ without-there at.before (at_stage leaving t) at.behind (delete_client p cs) refl)

  -- A move between two stages that agree in a test.
  pub clients_at-moved :
      (p : Stage → Bool) (stage : Stage)
      → p stage ≡ p t.stage
      → clients_at p (modify ts i (at_stage stage)) ≡ clients_at p ts
  clients_at-moved p stage e =
      ap (clients_at p) (at.modified (at_stage stage))
      ∙ clients_at-middle p at.before (at_stage stage t) at.behind
      ∙ ap
          (λ (b : Bool).
            clients_at p at.before
            ++ (if b then t.client ∷ clients_at p at.behind else clients_at p at.behind))
          e
      ∙ sym (clients_at-middle p at.before t at.behind)
      ∙ sym (ap (clients_at p) at.whole)

  pub served-deleted :
      (q : ℕ)
      → is_served t.stage ≡ true
      → count_port q (clients_at is_served ts)
        ≡ (if t.client.c_port == q then 1 else 0)
          + count_port q (clients_at is_served (modify ts i (at_stage leaving)))
  served-deleted q e =
      let left : clients_at is_served (modify ts i (at_stage leaving))
          ≡ others is_served at.before at.behind =
        ap (clients_at is_served) (at.modified (at_stage leaving))
        ∙ served-others at.before (at_stage leaving t) at.behind refl in
      ap (λ (l : List Thread). count_port q (clients_at is_served l)) at.whole
      ∙ count_port-served at.before t at.behind q e
      ∙ sym (
          ap (λ (l : List ClientItem). (if t.client.c_port == q then 1 else 0) + count_port q l)
            left)

  -- A thread that ends.
  pub clients_at-erased :
      (p : Stage → Bool) → p t.stage ≡ false → clients_at p (erase_at ts i) ≡ clients_at p ts
  clients_at-erased p e =
      ap (clients_at p) at.erased
      ∙ clients_at-append p at.before at.behind
      ∙ ap
          (λ (b : Bool).
            clients_at p at.before
            ++ (if b then t.client ∷ clients_at p at.behind else clients_at p at.behind))
          (sym e)
      ∙ sym (clients_at-middle p at.before t at.behind)
      ∙ sym (ap (clients_at p) at.whole)

  pub gone-lt-served_at :
      is_served t.stage ≡ true
      → is_gone t.stage ≡ false
      → count_port t.client.c_port (clients_at is_gone ts)
        < count_port t.client.c_port (clients_at is_served ts)
  gone-lt-served_at s g = rw at.whole (served-middle at.before t at.behind s g)
