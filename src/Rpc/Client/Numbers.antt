-- ===== src/Rpc/Client/Numbers.antt =====
-- The numbers of the calls, while there are fewer than 2 ^ 64 of them.
use go_im_system.Prelude.{
  ℕ, suc, ◌+◌, ◌%◌, ◌^◌, ◌≤◌, ◌<◌, ◌≡◌, ◌∙◌, true, false, List, some, lookup, insert, delete,
  lookup-insert, lookup-delete, nat_eq, write_at, ◌==◌, arith, inl, inr, Bool-cases,
}
use go_im_system.Rpc.Client.Table.{
  used, Numbered, used-insert, insert-Numbered, used-deleted, delete-Numbered,
}

-- `next` calls have been made, `f` gives their numbers, and `seq` is the next number.
pub record Numbers (seq next : ℕ) (p : List (ℕ × ℕ)) (f : ℕ → ℕ) : Type 0 where
  pub numbered : Numbered p
  pub in_use : (n : ℕ) → used n p ≡ true → (0 < n) × (n < seq)
  pub starts : 0 < seq
  pub fits : seq ≤ next + 1
  pub lower : (h : ℕ) → f h < seq
  pub differ : (h k : ℕ) → f h ≡ f k → 0 < f h → h ≡ k
  pub filed : (n h : ℕ) → lookup n p ≡ some h → f h ≡ n

pub Numbers-ext :
    {s nx : ℕ} {p : List (ℕ × ℕ)} (f g : ℕ → ℕ)
    → ((h : ℕ) → g h ≡ f h)
    → Numbers s nx p f
    → Numbers s nx p g
Numbers-ext f g same n = record {
  numbered = n.numbered;
  in_use = n.in_use;
  starts = n.starts;
  fits = n.fits;
  lower = λ h. ground (arith, n.lower h, same h);
  differ = λ h k e z. ground (arith, n.differ h k, same h, same k);
  filed = λ m h e. same h ∙ n.filed m h e;
}

pub Numbers-delete :
    {s nx : ℕ} {p : List (ℕ × ℕ)} {f : ℕ → ℕ} (m : ℕ)
    → Numbers s nx p f
    → Numbers s nx (delete m p) f
Numbers-delete {p = p} m n = record {
  numbered = delete-Numbered m p n.numbered;
  in_use = λ k u. elim (Bool-cases (used k p)) [
    | inl there ↦ n.in_use k there
    | inr missing ↦ absurd (ground (arith, used-deleted m k p missing))
  ];
  starts = n.starts;
  fits = n.fits;
  lower = n.lower;
  differ = n.differ;
  filed = λ k h e. ground (arith, n.filed k h, lookup-delete m k p);
}

pub unused_seq : {s nx : ℕ} {p : List (ℕ × ℕ)} {f : ℕ → ℕ} → Numbers s nx p f → used s p ≡ false
unused_seq {s} {p = p} n = elim (Bool-cases (used s p)) [
  | inl there ↦ absurd (omega (arith, (n.in_use s there).1))
  | inr missing ↦ missing
]

-- A new call takes the next number.
pub Numbers-insert :
    {s nx : ℕ} {p : List (ℕ × ℕ)} {f : ℕ → ℕ} (h : ℕ)
    → nx + 2 < 2 ^ 64
    → ((k : ℕ) (m : ℕ) → lookup m p ≡ some k → (k == h) ≡ false)
    → Numbers s nx p f
    → Numbers ((s + 1) % 2 ^ 64) (suc nx) (insert s h p) (write_at h s f)
Numbers-insert {s} {nx} {p} {f} h small fresh n =
    let next : (s + 1) % 2 ^ 64 ≡ s + 1 = omega (arith, n.fits) in
    rw next (record {
      numbered = insert-Numbered s h p (unused_seq n) n.numbered;
      in_use = λ k u. ground (arith, n.in_use k, used-insert s h k p, n.starts);
      starts = omega arith;
      fits = omega (arith, n.fits);
      lower = λ k. ground (arith, n.lower k);
      differ = λ k l e z. ground (arith, n.differ k l, n.lower k, n.lower l);
      filed = λ k l e. ground (arith, n.filed k l, lookup-insert s k h p, fresh l k);
    })

-- A call that gets no number.
pub Numbers-unnumbered :
    {s nx : ℕ} {p : List (ℕ × ℕ)} {f : ℕ → ℕ} (h : ℕ)
    → ((k : ℕ) (m : ℕ) → lookup m p ≡ some k → (k == h) ≡ false)
    → Numbers s nx p f
    → Numbers s (suc nx) p (write_at h 0 f)
Numbers-unnumbered {s} {nx} {p} {f} h fresh n = record {
  numbered = n.numbered;
  in_use = n.in_use;
  starts = n.starts;
  fits = omega (arith, n.fits);
  lower = λ k. ground (arith, n.lower k, n.starts);
  differ = λ k l e z. ground (arith, n.differ k l);
  filed = λ k l e. ground (arith, n.filed k l, fresh l k);
}
