-- ===== src/Rpc/Registry/Listing.antt =====
-- What a listing shows.
use go_im_system.Prelude.{
  ℕ, ◌≤◌, ◌≡◌, refl, ap, Bool, true, List, [], ◌∷◌, map, keep, insert, sort_by, In, In-sort, ◌⊎◌,
  inl, inr, ◌↔◌, nat_eq, list_Eq, list_eq_iff, arith,
}
use go_im_system.Text.{Text}
use go_im_system.Rpc.Registry.{
  GeeRegistry, get_method, post_method, servers_name, send_heartbeat, server_error, servers_header,
  is_alive, text_le, put_server, alive_servers, serve_http,
}

keep-keep :
    (limit : ℕ) (now later : Text → ℕ) (m : List (Text × ℕ))
    → ((a : Text) → now a ≤ later a)
    → keep (is_alive limit later) (keep (is_alive limit now) m) ≡ keep (is_alive limit later) m
keep-keep limit now later [] older = refl
keep-keep limit now later ((a, t) ∷ m) older =
    ground (arith, older a, keep-keep limit now later m older)

-- A listing in between changes no later listing: where no clock reading of the later one is
-- before that of the earlier one, the answer and the table are those without the earlier one.
pub listing-listing :
    (now later : Text → ℕ) (r : GeeRegistry)
    → ((a : Text) → now a ≤ later a)
    → serve_http get_method [] later (serve_http get_method [] now r).1
      ≡ serve_http get_method [] later r
unfolding serve_http alive_servers
listing-listing now later r older =
    ap (λ m. (servers_header (sort_by text_le (map (λ s. s.0) m)), record r { servers = m }))
      (keep-keep r.timeout now later r.servers older)

listed-insert :
    (p : Text × ℕ → Bool) (a b : Text) (t : ℕ) (m : List (Text × ℕ))
    → p (a, t) ≡ true
    → In b (map (λ s. s.0) (keep p (insert a t m))) ↔ ((b ≡ a) ⊎ In b (map (λ s. s.0) (keep p m)))
listed-insert p a b t [] live = ground arith
listed-insert p a b t ((c, u) ∷ m) live =
    ground (arith, list_eq_iff c a, listed-insert p a b t m live)

-- After a POST that names a server, while that heartbeat is alive, a listing shows exactly that
-- server and what it would have shown without the POST.
pub heartbeat-listed :
    (c : ℕ) (addr b : Text) (now later : Text → ℕ) (r : GeeRegistry)
    → is_alive r.timeout later (c ∷ addr, now (c ∷ addr)) ≡ true
    → let r' = (serve_http post_method ((servers_name, c ∷ addr) ∷ []) now r).1 in
      In b (alive_servers later r').0 ↔ ((b ≡ c ∷ addr) ⊎ In b (alive_servers later r).0)
unfolding serve_http alive_servers put_server
heartbeat-listed c addr b now later r live =
    let m = insert (c ∷ addr) (now (c ∷ addr)) r.servers in
    let p = is_alive r.timeout later in
    let after = In-sort text_le b (map (λ s. s.0) (keep p m)) in
    let before = In-sort text_le b (map (λ s. s.0) (keep p r.servers)) in
    let step = listed-insert p (c ∷ addr) b (now (c ∷ addr)) r.servers live in
    (
      λ i. elim (step.0 (after.0 i)) [ inl e ↦ inl e | inr j ↦ inr (before.1 j) ],
      λ i. after.1 (step.1 (elim i [ inl e ↦ inl e | inr j ↦ inr (before.0 j) ])),
    )

-- The request that a server sends as its heartbeat is answered with an error and registers
-- nothing, in every state of the registry.
pub heartbeat_refused :
    (addr : Text) (now : Text → ℕ) (r : GeeRegistry)
    → serve_http post_method (send_heartbeat addr) now r ≡ (server_error, r)
unfolding serve_http send_heartbeat
heartbeat_refused addr now r = refl
