-- ===== src/Server/Calls/Leaving.antt =====
-- Clients that leave the vector one after the other (DeleteClient of winSockServer/src/TcpServer.cpp),
-- and the clients of threads by where they stand.
use open_chat.Base.{ℕ, ◌+◌, ◌≤◌, ◌<◌, ◌≡◌, refl, ap, ◌∙◌, List, [], ◌∷◌, ◌++◌, length, All, arith}
use open_chat.ClientItem.{ClientItem}
use open_chat.Server.Tcp.{delete_client}
use open_chat.Server.Tcp.Ports.{count_port, count_port-delete_client}
use open_chat.Server.System.InSync.{HasPort, delete_client-HasPort, length-delete_client-le}

-- Without one client for each of the list, found by its port.
abbrev pub without : List ClientItem → List ClientItem → List ClientItem
without [] cs = cs
without (d ∷ ds) cs = delete_client d.c_port (without ds cs)

-- No port stands more often in the first list than in the second.
abbrev pub Within : List ClientItem → List ClientItem → Type 0
Within ds cs = (p : ℕ) → count_port p ds ≤ count_port p cs

delete_client_comm :
    (p q : ℕ) (cs : List ClientItem)
    → delete_client p (delete_client q cs) ≡ delete_client q (delete_client p cs)
unfolding delete_client
delete_client_comm p q [] = refl
delete_client_comm p q (c ∷ cs) = ground (arith, delete_client_comm p q cs)

pub without-delete_client :
    (ds : List ClientItem) (p : ℕ) (cs : List ClientItem)
    → without ds (delete_client p cs) ≡ delete_client p (without ds cs)
without-delete_client [] p cs = refl
without-delete_client (d ∷ ds) p cs =
    ap (delete_client d.c_port) (without-delete_client ds p cs)
    ∙ delete_client_comm d.c_port p (without ds cs)

-- Where in the list a client stands does not matter.
pub without-middle :
    (xs : List ClientItem) (d : ClientItem) (ys cs : List ClientItem)
    → without (xs ++ d ∷ ys) cs ≡ delete_client d.c_port (without (xs ++ ys) cs)
without-middle [] d ys cs = refl
without-middle (x ∷ xs) d ys cs =
    ap (delete_client x.c_port) (without-middle xs d ys cs)
    ∙ delete_client_comm x.c_port d.c_port (without (xs ++ ys) cs)

pub count_port-without :
    (ds cs : List ClientItem)
    → Within ds cs
    → (p : ℕ) → count_port p (without ds cs) + count_port p ds ≡ count_port p cs
count_port-without [] cs h p = omega arith
count_port-without (d ∷ ds) cs h p =
    let rest = count_port-without ds cs (λ q. omega (arith, h q)) in
    let own : 0 < count_port d.c_port (without ds cs) = ground (arith, rest d.c_port, h d.c_port) in
    omega (arith, rest p, count_port-delete_client d.c_port p (without ds cs) own)

-- A client that is found in the first part is taken out of it.
pub delete_client-append :
    (p : ℕ) (xs ys : List ClientItem)
    → 0 < count_port p xs
    → delete_client p (xs ++ ys) ≡ delete_client p xs ++ ys
unfolding delete_client
delete_client-append p [] ys h = absurd (omega arith)
delete_client-append p (x ∷ xs) ys h = ground (arith, delete_client-append p xs ys)

pub without-append :
    (ds xs ys : List ClientItem) → Within ds xs → without ds (xs ++ ys) ≡ without ds xs ++ ys
without-append [] xs ys h = refl
without-append (d ∷ ds) xs ys h =
    let fewer : Within ds xs = λ q. omega (arith, h q) in
    let own : 0 < count_port d.c_port (without ds xs) =
      ground (arith, count_port-without ds xs fewer d.c_port, h d.c_port) in
    ap (delete_client d.c_port) (without-append ds xs ys fewer)
    ∙ delete_client-append d.c_port (without ds xs) ys own

pub without-HasPort : (ds cs : List ClientItem) → All HasPort cs → All HasPort (without ds cs)
without-HasPort [] cs h = h
without-HasPort (d ∷ ds) cs h =
    delete_client-HasPort d.c_port (without ds cs) (without-HasPort ds cs h)

pub length-without-le : (ds cs : List ClientItem) → length (without ds cs) ≤ length cs
length-without-le [] cs = omega arith
length-without-le (d ∷ ds) cs =
    omega (arith, length-without-le ds cs, length-delete_client-le d.c_port (without ds cs))
