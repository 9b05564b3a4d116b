-- ===== src/Memory.antt =====
-- Bytes in memory: little-endian words, reads and writes at an offset. A byte is a number below 256.
-- The source copies structs by memcpy and casts; its hosts (docker/) are little-endian.
use mathlib.Core.List.{append_assoc, tail}
use mathlib.Core.Path.{ap₂}
use multipath_proxy.Prelude.{
  sym, ◌∙◌, take-append-drop, ℕ, zero, suc, ◌+◌, ◌*◌, ◌/◌, ◌%◌, ◌^◌, ◌≤◌, ◌<◌, ◌≡◌, refl, ap, List,
  [], ◌∷◌, ◌++◌, Option, none, some, arith, leb, if◌then◌else◌, length, take, drop, length-append,
  length-take, length-drop, take-append, drop-append,
}

-- The `w` low bytes of `v`, lowest first.
abbrev pub le_bytes : ℕ → ℕ → List ℕ
le_bytes zero v = []
le_bytes (suc w) v = (v % 256) ∷ le_bytes w (v / 256)

abbrev pub le_value : List ℕ → ℕ
le_value [] = 0
le_value (b ∷ bs) = b + 256 * le_value bs

pub length-le_bytes : (w v : ℕ) → length (le_bytes w v) ≡ w
length-le_bytes zero v = refl
length-le_bytes (suc w) v = ap suc (length-le_bytes w (v / 256))

-- A word that fits its width is read back from its bytes.
pub le_value-le_bytes : (w v : ℕ) → v < 256 ^ w → le_value (le_bytes w v) ≡ v
le_value-le_bytes zero v h = omega arith
le_value-le_bytes (suc w) v h = omega (arith, le_value-le_bytes w (v / 256) (grind arith))

-- `n` bytes from offset `i` on.
abbrev pub load : ℕ → ℕ → List ℕ → List ℕ
load i n mem = take n (drop i mem)

-- memcpy(mem + i, bs, |bs|); `none` where it would run past the end.
abbrev pub store : ℕ → List ℕ → List ℕ → Option (List ℕ)
store i bs mem =
    if leb (i + length bs) (length mem)
    then some (take i mem ++ (bs ++ drop (i + length bs) mem))
    else none

pub length-store :
    (i : ℕ) (bs mem : List ℕ) {mem' : List ℕ}
    → store i bs mem ≡ some mem'
    → length mem' ≡ length mem
length-store i bs mem h = ground (
  arith,
  length-append (take i mem) (bs ++ drop (i + length bs) mem),
  length-append bs (drop (i + length bs) mem),
  length-take i mem,
  length-drop (i + length bs) mem,
)

-- A read that ends before the cut does not see what lies behind it.
pub load-take : (i n k : ℕ) (mem : List ℕ) → i + n ≤ k → load i n (take k mem) ≡ load i n mem
load-take zero zero k mem h = refl
load-take zero (suc n) zero mem h = absurd (omega arith)
load-take zero (suc n) (suc k) [] h = refl
load-take zero (suc n) (suc k) (b ∷ mem) h = rw (load-take zero n k mem (omega arith))
load-take (suc i) n zero mem h = absurd (omega arith)
load-take (suc i) n (suc k) [] h = refl
load-take (suc i) n (suc k) (b ∷ mem) h = load-take i n k mem (omega arith)

-- So two memories that agree up to `k` give the same bytes there.
pub load_agree :
    (i n k : ℕ) (mem mem' : List ℕ)
    → i + n ≤ k
    → take k mem ≡ take k mem'
    → load i n mem ≡ load i n mem'
load_agree i n k mem mem' h e =
    sym (load-take i n k mem h) ∙ ap (load i n) e ∙ load-take i n k mem' h

-- A write leaves what stands before it, holds its bytes, and leaves what stands behind it.
module _ (i : ℕ) (bs mem : List ℕ) {mem' : List ℕ} (stored : store i bs mem ≡ some mem') where
  store_fits : i + length bs ≤ length mem
  store_fits = ground arith

  store_shape : mem' ≡ take i mem ++ (bs ++ drop (i + length bs) mem)
  store_shape = ground arith

  length-before : length (take i mem) ≡ i
  length-before = omega (arith, length-take i mem, store_fits)

  pub take-store : take i mem' ≡ take i mem
  take-store = rw store_shape (take-append i (take i mem) _ length-before)

  pub load-store : load i (length bs) mem' ≡ bs
  load-store =
      rw (store_shape, drop-append i (take i mem) (bs ++ drop (i + length bs) mem) length-before)
        (take-append (length bs) bs _ refl)

  pub drop-store : drop (i + length bs) mem' ≡ drop (i + length bs) mem
  drop-store =
      rw (store_shape, ← append_assoc (take i mem) bs (drop (i + length bs) mem))
        (drop-append (i + length bs) (take i mem ++ bs) _
          (omega (arith, length-append (take i mem) bs, length-before)))

-- A write that fits succeeds.
pub store_succeeds :
    (i : ℕ) (bs mem : List ℕ)
    → i + length bs ≤ length mem
    → store i bs mem ≡ some (take i mem ++ (bs ++ drop (i + length bs) mem))
store_succeeds i bs mem h = ground arith

pub store_fails : (i : ℕ) (bs mem : List ℕ) → length mem < i + length bs → store i bs mem ≡ none
store_fails i bs mem h = ground arith

-- The memory after a write that fits.
abbrev pub overwrite : ℕ → List ℕ → List ℕ → List ℕ
overwrite i bs mem = take i mem ++ (bs ++ drop (i + length bs) mem)

pub length-overwrite :
    (i : ℕ) (bs mem : List ℕ)
    → i + length bs ≤ length mem
    → length (overwrite i bs mem) ≡ length mem
length-overwrite i bs mem h = length-store i bs mem (store_succeeds i bs mem h)

pub overwrite-nil : (i : ℕ) (mem : List ℕ) → overwrite i [] mem ≡ mem
overwrite-nil i mem = ap (λ k. take i mem ++ drop k mem) (omega arith) ∙ take-append-drop i mem

-- The prefix that ends with a write.
take-overwrite :
    (i : ℕ) (bs mem : List ℕ)
    → i + length bs ≤ length mem
    → take (i + length bs) (overwrite i bs mem) ≡ take i mem ++ bs
take-overwrite i bs mem h = rw (← append_assoc (take i mem) bs (drop (i + length bs) mem)) (
    take-append (i + length bs) (take i mem ++ bs) _
      (omega (arith, length-append (take i mem) bs, length-take i mem)))

drop-nil : (n : ℕ) → drop {A = ℕ} n [] ≡ []
drop-nil zero = refl
drop-nil (suc n) = refl

pub drop-drop : (m n : ℕ) (xs : List ℕ) → drop m (drop n xs) ≡ drop (n + m) xs
drop-drop m zero xs = let e : m ≡ 0 + m = omega arith in ap (λ k. drop k xs) e
drop-drop m (suc n) [] = drop-nil m ∙ sym (drop-nil (suc n + m))
drop-drop m (suc n) (x ∷ xs) =
    let e : suc (n + m) ≡ suc n + m = omega arith in drop-drop m n xs ∙ ap (λ k. drop k (x ∷ xs)) e

-- Two writes one behind the other are one.
pub overwrite-overwrite :
    (i : ℕ) (cs bs mem : List ℕ)
    → i + length cs + length bs ≤ length mem
    → overwrite (i + length cs) bs (overwrite i cs mem) ≡ overwrite i (cs ++ bs) mem
overwrite-overwrite i cs bs mem h =
    let stored = store_succeeds i cs mem (omega arith) in
    rw
      (
        take-overwrite i cs mem (omega arith),
        ← drop-drop (length bs) (i + length cs) (overwrite i cs mem),
        drop-store i cs mem stored,
        drop-drop,
        append_assoc (take i mem) cs (bs ++ drop (i + length cs + length bs) mem),
        append_assoc cs bs (drop (i + length (cs ++ bs)) mem),
        length-append,
      )
      (ap (λ k. take i mem ++ (cs ++ (bs ++ drop k mem))) (omega arith))

-- A list that two splits share.
pub split_prefix :
    (xs ys zs ws : List ℕ)
    → xs ++ ys ≡ zs ++ ws
    → length zs ≤ length xs
    → (xs ≡ zs ++ drop (length zs) xs) × (ws ≡ drop (length zs) xs ++ ys)
split_prefix xs ys [] ws e h = (refl, sym e)
split_prefix [] ys (z ∷ zs) ws e h = absurd (omega arith)
split_prefix (x ∷ xs) ys (z ∷ zs) ws e h =
    let (p, q) = split_prefix xs ys zs ws (ap tail e) (omega arith) in (ap₂ ◌∷◌ (cc e) p, q)
