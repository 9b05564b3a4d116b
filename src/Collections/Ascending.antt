-- ===== src/Collections/Ascending.antt =====
-- Lists by ascending keys: two of them with the same elements are the same.
use mathlib.Core.Logic.Or
use mathlib.Core.Path.{ap₂}
use mathlib.Core.List.{
  Perm, Mem, mem-cons, mem-cons_self, not-mem-nil, Nodup, Nodup-nil, Nodup-cons,
}
use native.Mathlib.Bridge.{le_prop}
use native.Mathlib.Nat.{le_refl}
use mathlib.Core.List.Perm
use multipath_proxy.Prelude.{ℕ, suc, ◌+◌, ◌≤◌, ◌≡◌, List, [], ◌∷◌, map, length, arith}

module _ {ℓ} {A : Type ℓ} (key : A → ℕ) where
  -- Keys ascend strictly, from `n` on.
  abbrev pub Ascending : ℕ → List A → Type 0
  Ascending n [] = Unit {0}
  Ascending n (x ∷ xs) = (n ≤ key x) × Ascending (suc (key x)) xs

  -- Keys follow one another from `n` on.
  abbrev pub Follows : ℕ → List A → Type 0
  Follows n [] = Unit {0}
  Follows n (x ∷ xs) = (key x ≡ n) × Follows (n + 1) xs

  Ascending-mono : (m n : ℕ) (xs : List A) → m ≤ n → Ascending n xs → Ascending m xs
  Ascending-mono m n [] h a = tt
  Ascending-mono m n (x ∷ xs) h a = (omega arith, a.1)

  pub Follows-Ascending : (n : ℕ) (xs : List A) → Follows n xs → Ascending n xs
  Follows-Ascending n [] s = tt
  Follows-Ascending n (x ∷ xs) s = (
    omega arith,
    Ascending-mono (suc (key x)) (n + 1) xs (omega arith) (Follows-Ascending (n + 1) xs s.1),
  )

  Ascending-mem : {a : A} (n : ℕ) (xs : List A) → Ascending n xs → Mem a xs → n ≤ key a
  Ascending-mem n [] up m = absurd (not-mem-nil m)
  Ascending-mem n (x ∷ xs) up m =
      Or.elim le_prop (mem-cons.0 m) (λ e. rw e up.0)
        (λ later. let far = Ascending-mem (suc (key x)) xs up.1 later in omega arith)

  module _ (set : IsSet A) where
    head_eq :
        (n : ℕ) (x y : A) (xs ys : List A)
        → Ascending n (x ∷ xs)
        → Ascending n (y ∷ ys)
        → Perm (x ∷ xs) (y ∷ ys)
        → x ≡ y
    head_eq n x y xs ys a b p =
        Or.elim (set x y) (mem-cons.0 ((Perm.mem_iff p).0 mem-cons_self)) (λ e. e)
          (λ later.
            let far = Ascending-mem (suc (key y)) ys b.1 later in
            let near =
              Ascending-mem {a = y} (key x) (x ∷ xs) (le_refl (key x), a.1)
                ((Perm.mem_iff p).1 mem-cons_self) in
            absurd (omega arith))

    pub Ascending-perm-eq :
        (n : ℕ) (xs ys : List A) → Ascending n xs → Ascending n ys → Perm xs ys → xs ≡ ys
    Ascending-perm-eq n [] ys a b p = Perm.nil-eq p
    Ascending-perm-eq n (x ∷ xs) [] a b p = Perm.eq-nil p
    Ascending-perm-eq n (x ∷ xs) (y ∷ ys) a b p =
        let e = head_eq n x y xs ys a b p in
        ap₂ ◌∷◌ e
          (Ascending-perm-eq (suc (key x)) xs ys a.1 (rw e b.1) (Perm.cons_inv (rw (← e) at p)))

  Follows-mem : {k : ℕ} (n : ℕ) (xs : List A) → Follows n xs → Mem k (map key xs) → n ≤ k
  Follows-mem n [] f m = absurd (not-mem-nil m)
  Follows-mem {k} n (x ∷ xs) f m =
      Or.elim le_prop (mem-cons.0 m) (λ e. omega arith)
        (λ later. let far = Follows-mem (n + 1) xs f.1 later in omega arith)

  -- No element has a key behind the last one.
  pub Follows-below :
      {k : ℕ} (n : ℕ) (xs : List A) → Follows n xs → Mem k (map key xs) → suc k ≤ n + length xs
  Follows-below n [] f m = absurd (not-mem-nil m)
  Follows-below {k} n (x ∷ xs) f m =
      Or.elim le_prop (mem-cons.0 m) (λ e. omega arith)
        (λ later. let far = Follows-below (n + 1) xs f.1 later in omega arith)

  pub Follows-Nodup : (n : ℕ) (xs : List A) → Follows n xs → Nodup (map key xs)
  Follows-Nodup n [] f = Nodup-nil
  Follows-Nodup n (x ∷ xs) f =
      Nodup-cons.1
        (λ m. let far = Follows-mem (n + 1) xs f.1 m in omega arith, Follows-Nodup (n + 1) xs f.1)
