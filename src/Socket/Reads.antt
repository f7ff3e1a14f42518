-- ===== src/Socket/Reads.antt =====
-- What readv does for the receive thread of shared/mtr-socket.c: it takes bytes off the stream and
-- puts them at the places of the vector.
use ngnfs_progs.Prelude.{
  ℕ, zero, suc, ◌+◌, ◌≤◌, ◌<◌, ◌≡◌, ◌≢◌, ◌==◌, ◌&&◌, if◌then◌else◌, List, [], ◌∷◌, ◌++◌, length,
  get_or, length-append, refl, ap, sym, ◌∙◌, arith,
}
use mathlib.Core.List.{append_assoc}
use ngnfs_progs.Prelude.Memory.{Mem, read_bytes}
use ngnfs_progs.Socket.Iovec.{Place, range}

-- The memory after bytes are put at places.
abbrev pub fill : List Place → List ℕ → (ℕ → Mem) → ℕ → Mem
fill [] bs m = m
fill (p ∷ ps) [] m = m
fill (p ∷ ps) (b ∷ bs) m = fill ps bs (λ i j. if i == p.0 && j == p.1 then b else m i j)

pub fill-append :
    (ps qs : List Place) (bs cs : List ℕ) (m : ℕ → Mem)
    → length bs ≡ length ps
    → fill (ps ++ qs) (bs ++ cs) m ≡ fill qs cs (fill ps bs m)
fill-append [] qs [] cs m e = refl
fill-append [] qs (b ∷ bs) cs m e = absurd (omega (arith, e))
fill-append (p ∷ ps) qs [] cs m e = absurd (omega (arith, e))
fill-append (p ∷ ps) qs (b ∷ bs) cs m e = fill-append ps qs bs cs _ (omega (arith, e))

pub fill-other :
    (buf off n : ℕ) (bs : List ℕ) (m : ℕ → Mem) (b j : ℕ)
    → b ≢ buf
    → fill (range buf off n) bs m b j ≡ m b j
fill-other buf off zero bs m b j ne = refl
fill-other buf off (suc n) [] m b j ne = refl
fill-other buf off (suc n) (x ∷ bs) m b j ne =
    fill-other buf (off + 1) n bs (λ i k. if i == buf && k == off then x else m i k) b j ne
    ∙ ground arith

fill-before :
    (buf off n : ℕ) (bs : List ℕ) (m : ℕ → Mem) (j : ℕ)
    → j < off
    → fill (range buf off n) bs m buf j ≡ m buf j
fill-before buf off zero bs m j h = refl
fill-before buf off (suc n) [] m j h = refl
fill-before buf off (suc n) (x ∷ bs) m j h =
    fill-before buf (off + 1) n bs (λ i k. if i == buf && k == off then x else m i k) j
      (omega (arith, h))
    ∙ ground arith

fill-range :
    (buf off n : ℕ) (bs : List ℕ) (m : ℕ → Mem) (i : ℕ)
    → length bs ≡ n
    → i < n
    → fill (range buf off n) bs m buf (off + i) ≡ get_or bs i 0
fill-range buf off zero bs m i e h = absurd (omega (arith, h))
fill-range buf off (suc n) [] m i e h = absurd (omega (arith, e))
fill-range buf off (suc n) (x ∷ bs) m zero e h =
    let at : off + 0 ≡ off = omega arith in
    rw at (
      fill-before buf (off + 1) n bs (λ k l. if k == buf && l == off then x else m k l) off
        (omega arith)
      ∙ ground arith)
fill-range buf off (suc n) (x ∷ bs) m (suc i) e h =
    let at : off + suc i ≡ off + 1 + i = omega arith in
    rw at (fill-range buf (off + 1) n bs _ i (omega (arith, e)) (omega (arith, h)))

get_or-read_bytes : (m : Mem) (a n i : ℕ) → i < n → get_or (read_bytes m a n) i 0 ≡ m (a + i)
unfolding read_bytes
get_or-read_bytes m a zero i h = absurd (omega (arith, h))
get_or-read_bytes m a (suc n) zero h = let e : a + 0 ≡ a = omega arith in rw e refl
get_or-read_bytes m a (suc n) (suc i) h =
    let e : a + suc i ≡ a + 1 + i = omega arith in
    rw e (get_or-read_bytes m (a + 1) n i (omega (arith, h)))

-- Both from the start of a buffer.
pub fill-start :
    (buf n : ℕ) (bs : List ℕ) (m : ℕ → Mem) (i : ℕ)
    → length bs ≡ n
    → i < n
    → fill (range buf 0 n) bs m buf i ≡ get_or bs i 0
fill-start buf n bs m i e h =
    ap (fill (range buf 0 n) bs m buf) (omega arith) ∙ fill-range buf 0 n bs m i e h

pub get_or-read_start : (m : Mem) (n i : ℕ) → i < n → get_or (read_bytes m 0 n) i 0 ≡ m i
get_or-read_start m n i h = get_or-read_bytes m 0 n i h ∙ ap m (omega arith)

module _ {S L : Type 0} (input : S → List ℕ) (mem : S → ℕ → Mem) (log : S → L) where
  -- The bytes at some places were read, and no message was received.
  pub record Reads (ps : List Place) (s t : S) : Type 0 where
    pub bytes : List ℕ
    pub count : length bytes ≡ length ps
    pub taken : input s ≡ bytes ++ input t
    pub filled : mem t ≡ fill ps bytes (mem s)
    pub kept : log t ≡ log s

  pub Reads-nil : (s : S) → Reads [] s s
  Reads-nil s = record { bytes = []; count = refl; taken = refl; filled = refl; kept = refl }

  pub Reads-append :
      (ps qs : List Place) (s t u : S) → Reads ps s t → Reads qs t u → Reads (ps ++ qs) s u
  Reads-append ps qs s t u r q = record {
    bytes = r.bytes ++ q.bytes;
    count = omega (arith, r.count, q.count, length-append r.bytes q.bytes, length-append ps qs);
    taken =
        r.taken ∙ ap (λ xs. r.bytes ++ xs) q.taken ∙ sym (append_assoc r.bytes q.bytes (input u));
    filled =
        q.filled
        ∙ ap (λ m. fill qs q.bytes m) r.filled
        ∙ sym (fill-append ps qs r.bytes q.bytes (mem s) r.count);
    kept = q.kept ∙ r.kept;
  }

  -- At least so many bytes are on the stream.
  abbrev pub Holds : ℕ → S → Type 0
  Holds m s = m ≤ length (input s)
