-- ===== src/Aio/Bitmap.antt =====
-- The bitmaps of iocbs of devd/btr-aio.c.
use ngnfs_progs.Prelude.{
  ℕ, zero, suc, ◌+◌, ◌≤◌, ◌<◌, ◌≡◌, ◌⊎◌, ◌==◌, if◌then◌else◌, Bool, true, false, Option, none, some,
  refl, arith, inl, inr, Bool-cases,
}
use ngnfs_progs.Prelude.Run.{Run, done, hang, Returns, Returns-map}

-- The bits of an unsigned long.
abbrev pub Bmap : Type 0
Bmap = ℕ → Bool

abbrev pub bits_per_long : ℕ
bits_per_long = 64

abbrev pub set_bit : ℕ → Bmap → Bmap
set_bit nr bmap i = if i == nr then true else bmap i

abbrev pub clear_bit : ℕ → Bmap → Bmap
clear_bit nr bmap i = if i == nr then false else bmap i

-- The first of the `n` bits from `start` on that is set: __ffs, or `none` where all are 0.
abbrev pub ffs : ℕ → ℕ → Bmap → Option ℕ
ffs zero start bmap = none
ffs (suc n) start bmap =
    let later = ffs n (start + 1) bmap in if bmap start then some start else later

-- The loop, as it runs where no other thread touches the bits that are set: the number of the iocb
-- that it has, if any. The fuel bounds the rounds.
unfoldable pub take_loop : ℕ → Bmap → Option ℕ → Run (Option ℕ × Bmap)
take_loop zero bmap iocb = hang
take_loop (suc fuel) bmap iocb = elim (ffs bits_per_long 0 bmap) [
  | none ↦ done (iocb, bmap)
  | some nr ↦ take_loop fuel (clear_bit nr bmap) (some nr)
]

abbrev pub get_and_clear_iocb_bit : Bmap → Run (Option ℕ × Bmap)
get_and_clear_iocb_bit bmap = take_loop (bits_per_long + 1) bmap none

-- What a search finds.
abbrev FirstSet : ℕ → ℕ → Bmap → Option ℕ → Type 0
FirstSet n start bmap none = (i : ℕ) → start ≤ i → i < start + n → bmap i ≡ false
FirstSet n start bmap (some nr) =
    (start ≤ nr)
    × (nr < start + n)
    × (bmap nr ≡ true)
    × ((i : ℕ) → start ≤ i → i < nr → bmap i ≡ false)

ffs-FirstSet : (n start : ℕ) (bmap : Bmap) → FirstSet n start bmap (ffs n start bmap)
ffs-FirstSet zero start bmap = λ i h k. absurd (omega (arith, h, k))
ffs-FirstSet (suc n) start bmap = elim (Bool-cases (bmap start)) [
  | inl e ↦ rw e (omega arith, omega arith, e, λ i h k. absurd (omega (arith, h, k)))
  | inr e ↦ rw e (widen (ffs n (start + 1) bmap) e (ffs-FirstSet n (start + 1) bmap))
]
  where
    widen :
        (o : Option ℕ)
        → bmap start ≡ false
        → FirstSet n (start + 1) bmap o
        → FirstSet (suc n) start bmap o
    widen none e f = λ i h k. ground (arith, f i, e, h, k)
    widen (some nr) e (a, b, c, d) =
        (omega (arith, a), omega (arith, b), c, λ i h k. ground (arith, d i, e, h, k))

-- All bits are 0.
abbrev pub IsClear : Bmap → Type 0
IsClear bmap = (i : ℕ) → i < bits_per_long → bmap i ≡ false

-- What the loop leaves: an empty bitmap, and the highest of the bits that were set, or else what it
-- had.
abbrev pub Highest : Bmap → Option ℕ → Option ℕ → Type 0
Highest bmap before none = IsClear bmap × (before ≡ none)
Highest bmap before (some nr) =
    (IsClear bmap × (before ≡ some nr))
    ⊎ ((nr < bits_per_long)
        × (bmap nr ≡ true)
        × ((i : ℕ) → nr < i → i < bits_per_long → bmap i ≡ false))

-- The loop's rounds take the bits in rising order.
later-Highest :
    (bmap : Bmap) (before : Option ℕ) (nr : ℕ) (o : Option ℕ)
    → FirstSet bits_per_long 0 bmap (some nr)
    → Highest (clear_bit nr bmap) (some nr) o
    → Highest bmap before o
later-Highest bmap before nr none first h = absurd (ground (arith, h.1))
later-Highest bmap before nr (some m) (a, b, c, d) (inl (clear, same)) =
    let e : nr ≡ m = ground (arith, same) in
    inr (ground (arith, b, e), ground (arith, c, e), λ i h k. ground (arith, clear i, e, h, k))
later-Highest bmap before nr (some m) (a, b, c, d) (inr (inside, on, above)) =
    inr (inside, ground (arith, on), λ i h k. ground (arith, above i, d m, on, h, k))

pub take_loop-Highest :
    (fuel : ℕ) (k : ℕ) (bmap : Bmap) (before : Option ℕ)
    → bits_per_long < fuel + k
    → ((i : ℕ) → i < k → bmap i ≡ false)
    → k ≤ bits_per_long
    → Returns (take_loop fuel bmap before) (λ r. IsClear r.1 × Highest bmap before r.0)
unfolding take_loop
take_loop-Highest zero k bmap before h low le = absurd (omega (arith, h, le))
take_loop-Highest (suc fuel) k bmap before h low le =
    go (ffs bits_per_long 0 bmap) (ffs-FirstSet bits_per_long 0 bmap)
      (λ nr. take_loop-Highest fuel (suc nr) (clear_bit nr bmap) (some nr))
  where
    itself : (o : Option ℕ) → IsClear bmap → Highest bmap o o
    itself none c = (c, refl)
    itself (some nr) c = inl (c, refl)

    go :
        (o : Option ℕ)
        → FirstSet bits_per_long 0 bmap o
        → ((nr : ℕ)
            → bits_per_long < fuel + suc nr
            → ((i : ℕ) → i < suc nr → clear_bit nr bmap i ≡ false)
            → suc nr ≤ bits_per_long
            → Returns
                (take_loop fuel (clear_bit nr bmap) (some nr))
                (λ r. IsClear r.1 × Highest (clear_bit nr bmap) (some nr) r.0))
        → Returns {A = Option ℕ × Bmap}
            (elim o [
              | none ↦ done (before, bmap)
              | some nr ↦ take_loop fuel (clear_bit nr bmap) (some nr)
            ])
            (λ r. IsClear r.1 × Highest bmap before r.0)
    go none f rest =
        let clear : IsClear bmap = λ i h. f i (omega arith) (omega (arith, h)) in
        (clear, itself before clear)
    go (some nr) f rest =
        let above : k ≤ nr = ground (arith, low nr, f.2) in
        Returns-map _ _ (take_loop fuel (clear_bit nr bmap) (some nr))
          (rest nr (omega (arith, h, above)) (λ i q. ground (arith, f.3 i, q)) (omega (arith, f.1)))
          (λ r g. (g.0, later-Highest bmap before nr r.0 f g.1))

-- The loop ends. It empties the bitmap, whatever it was, and returns the highest iocb that was in
-- it, or none where the bitmap was empty.
pub take_bit-Highest :
    (bmap : Bmap) → Returns (get_and_clear_iocb_bit bmap) (λ r. IsClear r.1 × Highest bmap none r.0)
take_bit-Highest bmap =
    take_loop-Highest (bits_per_long + 1) 0 bmap none (omega arith)
      (λ i h. absurd (omega (arith, h))) (omega arith)
