-- ===== src/Prelude/Heap.antt =====
-- Objects under handles: a function from handles, written at one of them.
use Prim.Native.Nat.{ℕ}
use go_im_system.Prelude.Tests.{◌==◌, if◌then◌else◌}

abbrev pub write_at {ℓ} : {A : Type ℓ} → ℕ → A → (ℕ → A) → ℕ → A
write_at h a heap i = if h == i then a else heap i
