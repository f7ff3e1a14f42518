-- ===== src/Socket/Iovec.antt =====
-- whole_iovec and iov_append of shared/mtr-socket.c: vectors of buffers that are read or written
-- whole. A pointer is the number of a buffer and an offset in it.
use Prim.Native.Nat.{min}
use ngnfs_progs.Prelude.{
  ℕ, zero, suc, ◌+◌, ◌-◌, ◌≤◌, ◌<◌, ◌≡◌, ◌==◌, if◌then◌else◌, List, [], ◌∷◌, ◌++◌, length, take,
  refl, ap, arith,
}
use ngnfs_progs.Prelude.Errno.{Ret, ok, err, Errno, eshutdown}
use ngnfs_progs.Prelude.Run.{Run, done, hang}

abbrev pub Place : Type 0
Place = ℕ × ℕ

pub record Iovec : Type 0 where
  pub buf : ℕ
  pub off : ℕ
  pub len : ℕ

-- What readv and writev return: a count, or -1 with an errno.
pub data SysRet : Type 0 where
  got : ℕ → SysRet
  failed : Errno → SysRet

-- The inner loop: an element that keeps a part has taken all that was left of the count.
unfoldable pub advance : ℕ → List Iovec → List Iovec
advance n [] = []
advance n (v ∷ rest) =
    let part = min v.len n in
    let more = advance (n - part) rest in
    if n == 0
    then v ∷ rest
    else if v.len - part == 0
    then more
    else record v { off = v.off + part; len = v.len - part } ∷ rest

module _ {S : Type 0} (func : S → List Iovec → SysRet × S) where
  unfoldable pub whole_iovec : ℕ → List Iovec → S → Run (Ret × S)
  whole_iovec fuel [] s = done (ok 0, s)
  whole_iovec zero (v ∷ rest) s = hang
  whole_iovec (suc fuel) (v ∷ rest) s =
      let (r, t) = func s (v ∷ rest) in
      elim r [
        | failed e ↦ done (err e, t)
        | got n ↦ elim n [
          | ℕ.zero ↦ done (err eshutdown, t)
          | ℕ.suc m ↦ whole_iovec fuel (advance (suc m) (v ∷ rest)) t
        ]
      ]

abbrev pub iov_append : List Iovec → ℕ → ℕ → List Iovec
iov_append iov buf len =
    if len == 0 then iov else iov ++ (record { buf = buf; off = 0; len = len } ∷ [])

-- The bytes of a vector by their places, in order.
abbrev pub range : ℕ → ℕ → ℕ → List Place
range buf off zero = []
range buf off (suc n) = (buf, off) ∷ range buf (off + 1) n

abbrev pub places : List Iovec → List Place
places [] = []
places (v ∷ rest) = range v.buf v.off v.len ++ places rest

-- All elements have bytes.
abbrev pub IsFull : List Iovec → Type 0
IsFull [] = Unit {0}
IsFull (v ∷ rest) = (0 < v.len) × IsFull rest

pub length-range : (buf off n : ℕ) → length (range buf off n) ≡ n
length-range buf off zero = refl
length-range buf off (suc n) = omega (arith, length-range buf (off + 1) n)

pub take_append :
    {A : Type 0} (n : ℕ) (xs ys : List A) → take (length xs + n) (xs ++ ys) ≡ xs ++ take n ys
take_append n [] ys = let e : 0 + n ≡ n = omega arith in rw e refl
take_append n (x ∷ xs) ys =
    let e : suc (length xs) + n ≡ suc (length xs + n) = omega arith in
    rw e (ap (◌∷◌ x) (take_append n xs ys))

pub take_prefix :
    {A : Type 0} (n : ℕ) (xs ys : List A) → n ≤ length xs → take n (xs ++ ys) ≡ take n xs
take_prefix zero xs ys h = refl
take_prefix (suc n) [] ys h = absurd (omega (arith, h))
take_prefix (suc n) (x ∷ xs) ys h = ap (◌∷◌ x) (take_prefix n xs ys (omega (arith, h)))

pub range_split :
    (buf off n k : ℕ)
    → n ≤ k
    → range buf off k ≡ take n (range buf off k) ++ range buf (off + n) (k - n)
range_split buf off zero k h =
    let e : off + 0 ≡ off = omega arith in let f : k - 0 ≡ k = omega arith in rw (e, f) refl
range_split buf off (suc n) zero h = absurd (omega (arith, h))
range_split buf off (suc n) (suc k) h =
    let e : off + suc n ≡ off + 1 + n = omega arith in
    let f : suc k - suc n ≡ k - n = omega arith in
    rw (e, f) (ap (◌∷◌ (buf, off)) (range_split buf (off + 1) n k (omega (arith, h))))
