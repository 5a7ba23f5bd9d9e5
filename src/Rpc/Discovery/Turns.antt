-- ===== src/Rpc/Discovery/Turns.antt =====
-- Servers taken in turn.
use native.Mathlib.Nat.{mod-add-mod}
use go_im_system.Prelude.{ℕ, zero, suc, ◌+◌, ◌%◌, ◌<◌, ◌≡◌, ap, ◌∙◌, [], length, get_elem?, arith}
use go_im_system.Rpc.Discovery.{MultiServersDiscovery, round_robin_select, get}

-- The discovery after `k` calls.
unfoldable pub after : ℕ → (ℕ → ℕ) → MultiServersDiscovery → MultiServersDiscovery
after zero intn d = d
after (suc k) intn d = after k intn (get round_robin_select intn [] d).1

-- One turn of a discovery that has servers.
turn_lem :
    (intn : ℕ → ℕ) (d : MultiServersDiscovery)
    → 0 < length d.servers
    → get round_robin_select intn [] d ≡ (
      get_elem? d.servers (d.index % length d.servers),
      record d { index = (d.index + 1) % length d.servers },
    )
unfolding get
turn_lem intn d some_server = ground arith

-- After k calls in turn on a discovery with n > 0 servers, the next call gives the server at
-- position (index + k) mod n, where index is the one before the k calls.
pub after-get :
    (k : ℕ) (intn : ℕ → ℕ) (d : MultiServersDiscovery)
    → 0 < length d.servers
    → (get round_robin_select intn [] (after k intn d)).0
      ≡ get_elem? d.servers ((d.index + k) % length d.servers)
unfolding after
after-get zero intn d some_server =
    let start : d.index ≡ d.index + 0 = omega arith in
    ap (λ r. r.0) (turn_lem intn d some_server)
    ∙ ap (λ i. get_elem? d.servers (i % length d.servers)) start
after-get (suc k) intn d some_server =
    let n = length d.servers in
    let next = record d { index = (d.index + 1) % n } in
    let moved : (get round_robin_select intn [] d).1 ≡ next =
      ap (λ r. r.1) (turn_lem intn d some_server) in
    let sum : d.index + 1 + k ≡ d.index + suc k = omega arith in
    ap (λ e. (get round_robin_select intn [] (after k intn e)).0) moved
    ∙ after-get k intn next some_server
    ∙ ap (get_elem? d.servers) (mod-add-mod (d.index + 1) n k ∙ ap (λ i. i % n) sum)
