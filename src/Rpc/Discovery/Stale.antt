-- ===== src/Rpc/Discovery/Stale.antt =====
-- A discovery by the registry and its ring.
use go_im_system.Prelude.{
  ◌⊎◌, ◌==◌, ℕ, ◌≡◌, refl, List, [], ◌∷◌, Option, none, some, arith, true, false, Bool-cases, inl,
  inr, length, Bool, ap, ◌∙◌,
}
use go_im_system.Text.{Text}
use go_im_system.Rpc.Ring
use go_im_system.Rpc.Ring.Consistent.{get_none}
use go_im_system.Rpc.Discovery.{
  GeeRegistryDiscovery, consistent_hash, round_robin_select, random_select, SelectMode,
  new_gee_registry_discovery, update_gee, refresh, get_gee, get, then_get,
}

-- What a client does with its discovery.
pub data Use : Type 0 where
  updated : List Text → ℕ → Use
  asked : SelectMode → (ℕ → ℕ) → Text → Option Text → ℕ → Use

abbrev pub step : Use → GeeRegistryDiscovery → GeeRegistryDiscovery
step (updated servers now) d = update_gee servers now d
step (asked mode intn key answer now) d = (get_gee mode intn key answer now d).1

unfoldable pub steps : List Use → GeeRegistryDiscovery → GeeRegistryDiscovery
steps [] d = d
steps (u ∷ us) d = steps us (step u d)

get_ring :
    (mode : SelectMode) (intn : ℕ → ℕ) (key : Text) (d : GeeRegistryDiscovery)
    → (get mode intn key d.multi).1.hash_map ≡ d.multi.hash_map
unfolding get
get_ring random_select intn key d = ground arith
get_ring round_robin_select intn key d = ground arith
get_ring consistent_hash intn [] d = ground arith
get_ring consistent_hash intn (c ∷ key) d = ground arith
get_ring SelectMode.unsupported intn key d = ground arith

refresh_ring :
    (answer : Option Text) (now : ℕ) (d : GeeRegistryDiscovery)
    → (refresh answer now d).1.multi.hash_map ≡ d.multi.hash_map
unfolding refresh
refresh_ring none now d = ground arith
refresh_ring (some header) now d = ground arith

-- The ring is the one of the start.
step_ring : (u : Use) (d : GeeRegistryDiscovery) → (step u d).multi.hash_map ≡ d.multi.hash_map
unfolding update_gee get_gee
step_ring (updated servers now) d = refl
step_ring (asked mode intn key answer now) d =
    ground (arith, refresh_ring answer now d, get_ring mode intn key (refresh answer now d).1)

steps_ring :
    (us : List Use) (d : GeeRegistryDiscovery) → (steps us d).multi.hash_map ≡ d.multi.hash_map
unfolding steps
steps_ring [] d = refl
steps_ring (u ∷ us) d = steps_ring us (step u d) ∙ step_ring u d

get_empty :
    (c : ℕ) (key : Text) (intn : ℕ → ℕ) (r : Bool × GeeRegistryDiscovery)
    → r.1.multi.hash_map.keys ≡ []
    → ((then_get consistent_hash intn (c ∷ key) r).0 ≡ none)
      ⊎ ((then_get consistent_hash intn (c ∷ key) r).0 ≡ some [])
unfolding get
get_empty c key intn (true, d) empty = inl refl
get_empty c key intn (false, d) empty = elim (Bool-cases (length d.multi.servers == 0)) [
  | inl nobody ↦ inl (ground arith)
  | inr servers ↦ inr (ground (arith, get_none (c ∷ key) d.multi.hash_map empty))
]

-- A discovery by the registry, after any updates and calls: a call by consistent hash, for a
-- key that is not empty, gives an error or the empty address, whatever servers are known.
pub stale_ring :
    (crc : Text → ℕ) (start timeout : ℕ) (us : List Use) (c : ℕ) (key : Text) (intn : ℕ → ℕ)
    (answer : Option Text) (now : ℕ)
    → let d = steps us (new_gee_registry_discovery crc start timeout) in
      ((get_gee consistent_hash intn (c ∷ key) answer now d).0 ≡ none)
      ⊎ ((get_gee consistent_hash intn (c ∷ key) answer now d).0 ≡ some [])
unfolding get_gee Ring.add Ring.add_all
stale_ring crc start timeout us c key intn answer now =
    let d = new_gee_registry_discovery crc start timeout in
    let same = refresh_ring answer now (steps us d) ∙ steps_ring us d in
    get_empty c key intn (refresh answer now (steps us d)) (ap (λ m. m.keys) same)
