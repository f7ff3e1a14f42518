-- ===== src/Socket/Whole.antt =====
-- whole_iovec of shared/mtr-socket.c transfers all bytes in order, however many each call takes.
use Prim.Native.Nat.{min}
use mathlib.Core.List.{append_assoc}
use ngnfs_progs.Prelude.{
  ℕ, zero, suc, ◌+◌, ◌-◌, ◌≤◌, ◌<◌, ◌≡◌, ◌⊎◌, ◌==◌, true, false, List, [], ◌∷◌, ◌++◌, length, take,
  length-append, length-take, refl, ap, subst, sym, ◌∙◌, arith, inl, inr,
}
use ngnfs_progs.Prelude.Errno.{Ret, ok}
use ngnfs_progs.Prelude.Run.{Returns, Returns-map}
use ngnfs_progs.Socket.Iovec.{
  Place, Iovec, SysRet, got, advance, whole_iovec, range, places, IsFull, length-range, take_append,
  take_prefix, range_split,
}

count_cases : (n len : ℕ) → (n ≡ 0) ⊎ (((0 < n) × (len ≤ n)) ⊎ ((0 < n) × (n < len)))
count_cases n len = ground arith

-- The three ways the inner loop goes on.
module _ (v : Iovec) (rest : List Iovec) (n : ℕ) where
  advance-none : n ≡ 0 → advance n (v ∷ rest) ≡ v ∷ rest
  unfolding advance
  advance-none z = let e : (n == 0) ≡ true = ground arith in rw (e, advance) refl

  advance-past : 0 < n → v.len ≤ n → advance n (v ∷ rest) ≡ advance (n - v.len) rest
  unfolding advance
  advance-past p h =
      let e : (n == 0) ≡ false = ground arith in
      let m : min v.len n ≡ v.len = omega (arith, h) in
      let f : (v.len - v.len == 0) ≡ true = ground arith in rw (e, m, f, advance) refl

  advance-within :
      0 < n
      → n < v.len
      → advance n (v ∷ rest) ≡ record v { off = v.off + n; len = v.len - n } ∷ rest
  unfolding advance
  advance-within p h =
      let e : (n == 0) ≡ false = ground arith in
      let m : min v.len n ≡ n = omega (arith, h) in
      let f : (v.len - n == 0) ≡ false = ground (arith, h) in rw (e, m, f, advance) refl

pub places-advance :
    (n : ℕ) (iov : List Iovec)
    → n ≤ length (places iov)
    → places iov ≡ take n (places iov) ++ places (advance n iov)
unfolding advance
places-advance zero [] h = refl
places-advance (suc n) [] h = absurd (omega (arith, h))
places-advance n (v ∷ rest) h = elim (count_cases n v.len) [
  | inl z ↦ rw (advance-none v rest n z, z) refl
  | inr (inl (p, q)) ↦ past p q (places-advance (n - v.len) rest (fits q))
  | inr (inr (p, q)) ↦ within p q
]
  where
    bytes : List Place
    bytes = range v.buf v.off v.len

    fits : v.len ≤ n → n - v.len ≤ length (places rest)
    fits q = omega (arith, q, h, length-range v.buf v.off v.len, length-append bytes (places rest))

    past :
        0 < n
        → v.len ≤ n
        → places rest ≡ take (n - v.len) (places rest) ++ places (advance (n - v.len) rest)
        → places (v ∷ rest) ≡ take n (places (v ∷ rest)) ++ places (advance n (v ∷ rest))
    past p q split =
        let size = length-range v.buf v.off v.len in
        let sum : n ≡ length bytes + (n - v.len) = omega (arith, q, size) in
        let cut : take n (bytes ++ places rest) ≡ bytes ++ take (n - v.len) (places rest) =
          ap (λ k. take k (bytes ++ places rest)) sum
          ∙ take_append (n - v.len) bytes (places rest) in
        rw (advance-past v rest n p q, cut)
          (ap (λ ys. bytes ++ ys) split
            ∙ sym (append_assoc bytes (take (n - v.len) (places rest)) _))

    within :
        0 < n
        → n < v.len
        → places (v ∷ rest) ≡ take n (places (v ∷ rest)) ++ places (advance n (v ∷ rest))
    within p q =
        let size = length-range v.buf v.off v.len in
        let cut : take n (bytes ++ places rest) ≡ take n bytes =
          take_prefix n bytes (places rest) (omega (arith, q, size)) in
        rw (advance-within v rest n p q, cut)
          (ap (λ xs. xs ++ places rest) (range_split v.buf v.off n v.len (omega (arith, q)))
            ∙ append_assoc (take n bytes) (range v.buf (v.off + n) (v.len - n)) (places rest))

advance-IsFull : (n : ℕ) (iov : List Iovec) → IsFull iov → IsFull (advance n iov)
unfolding advance
advance-IsFull n [] f = tt
advance-IsFull n (v ∷ rest) f = elim (count_cases n v.len) [
  | inl z ↦ rw (advance-none v rest n z) f
  | inr (inl (p, q)) ↦ rw (advance-past v rest n p q) (advance-IsFull (n - v.len) rest f.1)
  | inr (inr (p, q)) ↦ rw (advance-within v rest n p q) (omega (arith, q), f.1)
]

-- What is asked of readv and writev. `Moved` says that the bytes at some places were transferred,
-- in order, and `Able` how many can be: a call then transfers at least one byte, and those at the
-- first places.
pub record IsTransfer {S : Type 0} (func : S → List Iovec → SysRet × S)
    (Moved : List Place → S → S → Type 0) (Able : ℕ → S → Type 0) : Type 0 where
  pub step :
      (s : S) (iov : List Iovec) (m : ℕ)
      → 0 < length (places iov)
      → length (places iov) ≤ m
      → Able m s
      → (n : ℕ) × ((func s iov).0 ≡ got (suc n))
        × (suc n ≤ length (places iov))
        × Moved (take (suc n) (places iov)) s (func s iov).1
        × Able (m - suc n) (func s iov).1

module _ {S : Type 0} (func : S → List Iovec → SysRet × S) (Moved : List Place → S → S → Type 0)
    (Able : ℕ → S → Type 0) (transfer : IsTransfer func Moved Able)
    (none_moved : (s : S) → Moved [] s s)
    (both_moved : (xs ys : List Place) (s t u : S)
      → Moved xs s t
      → Moved ys t u
      → Moved (xs ++ ys) s u) where
  abbrev pub Whole : List Iovec → ℕ → S → Ret × S → Type 0
  Whole iov m s r = (r.0 ≡ ok 0) × Moved (places iov) s r.1 × Able (m - length (places iov)) r.1

  size : (v : Iovec) (rest : List Iovec) → length (places (v ∷ rest)) ≡ v.len + length (places rest)
  size v rest =
      omega (
        arith,
        length-range v.buf v.off v.len,
        length-append (range v.buf v.off v.len) (places rest),
      )

  -- Fuel for the number of bytes is enough for all of them to be transferred in order.
  pub whole_iovec-Whole :
      (fuel : ℕ) (iov : List Iovec) (m : ℕ) (s : S)
      → length (places iov) ≤ fuel
      → IsFull iov
      → length (places iov) ≤ m
      → Able m s
      → Returns (whole_iovec func fuel iov s) (Whole iov m s)
  unfolding whole_iovec
  whole_iovec-Whole fuel [] m s h f k able =
      let e : m - 0 ≡ m = omega arith in (refl, none_moved s, rw e able)
  whole_iovec-Whole zero (v ∷ rest) m s h f k able = absurd (omega (arith, h, f.0, size v rest))
  whole_iovec-Whole (suc fuel) (v ∷ rest) m s h f k able =
      let iov = v ∷ rest in
      let some_byte : 0 < length (places iov) = omega (arith, f.0, size v rest) in
      let (n, run, inside, moved, able2) = transfer.step s iov m some_byte k able in
      let t = (func s iov).1 in
      let left = advance (suc n) iov in
      let split = places-advance (suc n) iov inside in
      let first = take (suc n) (places iov) in
      let parts : length (places iov) ≡ length first + length (places left) =
        ap length split ∙ length-append first (places left) in
      let taken : length first ≡ suc n = omega (arith, length-take (suc n) (places iov), inside) in
      let fewer : length (places left) ≡ length (places iov) - suc n =
        omega (arith, parts, taken) in
      rw (run, whole_iovec)
        (Returns-map (Whole left (m - suc n) t) (Whole iov m s) (whole_iovec func fuel left t)
          (whole_iovec-Whole fuel left (m - suc n) t (omega (arith, fewer, h))
            (advance-IsFull (suc n) iov f) (omega (arith, fewer, k, inside)) able2)
          (λ r w. (
            w.0,
            subst (λ ps. Moved ps s r.1) (sym split)
                (both_moved first (places left) s t r.1 moved w.1),
            subst (λ j. Able j r.1) (omega (arith, fewer, inside)) w.2,
          )))
