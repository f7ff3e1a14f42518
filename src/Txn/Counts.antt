-- ===== src/Txn/Counts.antt =====
-- The references that the transactions of shared/txn.c hold on their blocks, and what is asked of the
-- block cache and the callers' functions to count them.
use ngnfs_progs.Prelude.{
  ℕ, ◌+◌, ◌≤◌, ◌<◌, ◌≡◌, ◌==◌, if◌then◌else◌, Option, none, some, List, [], ◌∷◌, ◌++◌, arith, refl,
}
use ngnfs_progs.Prelude.Run.{Returns}
use ngnfs_progs.Txn.State.{block, err_ptr, BlockOps, TransactionBlock, Callbacks}

abbrev pub one : ℕ → ℕ → ℕ
one b c = if c == b then 1 else 0

abbrev pub weight_of {ℓ} : {P : Type ℓ} → (P → ℕ) → Option P → ℕ
weight_of weight none = 0
weight_of weight (some p) = weight p

module _ {Prepare Commit : Type 0} where
  -- How many references on the block `c` the structs hold.
  abbrev pub held : List (TransactionBlock Prepare Commit) → ℕ → ℕ
  held [] c = 0
  held (t ∷ ts) c = elim t.bl [ none ↦ held ts c | some b ↦ one b c + held ts c ]

  -- Blocks that have only been added.
  abbrev pub IsFresh : List (TransactionBlock Prepare Commit) → Type 0
  IsFresh [] = Unit {0}
  IsFresh (t ∷ ts) = (t.bl ≡ none) × IsFresh ts

  abbrev pub IsAcquired : List (TransactionBlock Prepare Commit) → Type 0
  IsAcquired [] = Unit {0}
  IsAcquired (t ∷ ts) = ((b : ℕ) × (t.bl ≡ some b)) × IsAcquired ts

  -- How many blocks there can be in the end, if a prepare function `p` and those that it adds add
  -- at most `weight p`.
  abbrev pub total : (Prepare → ℕ) → List (TransactionBlock Prepare Commit) → ℕ
  total weight [] = 0
  total weight (t ∷ ts) = 1 + weight_of weight t.prepare + total weight ts

  pub held-append :
      (ts us : List (TransactionBlock Prepare Commit)) (c : ℕ)
      → held (ts ++ us) c ≡ held ts c + held us c
  held-append [] us c = omega arith
  held-append (t ∷ ts) us c = ground (arith, held-append ts us c)

  pub held-IsFresh :
      (ts : List (TransactionBlock Prepare Commit)) (c : ℕ) → IsFresh ts → held ts c ≡ 0
  held-IsFresh [] c f = refl
  held-IsFresh (t ∷ ts) c f = rw f.0 (held-IsFresh ts c f.1)

  pub IsFresh-append :
      (ts us : List (TransactionBlock Prepare Commit))
      → IsFresh ts
      → IsFresh us
      → IsFresh (ts ++ us)
  IsFresh-append [] us f g = g
  IsFresh-append (t ∷ ts) us f g = (f.0, IsFresh-append ts us f.1 g)

  pub IsAcquired-append :
      (ts us : List (TransactionBlock Prepare Commit))
      → IsAcquired ts
      → IsAcquired us
      → IsAcquired (ts ++ us)
  IsAcquired-append [] us f g = g
  IsAcquired-append (t ∷ ts) us f g = (f.0, IsAcquired-append ts us f.1 g)

  pub total-append :
      (weight : Prepare → ℕ) (ts us : List (TransactionBlock Prepare Commit))
      → total weight (ts ++ us) ≡ total weight ts + total weight us
  total-append weight [] us = omega arith
  total-append weight (t ∷ ts) us = omega (arith, total-append weight ts us)

-- A cache that counts references: only `get` and `put` change a count, and the callers' functions
-- neither change one nor fail, and add a bounded number of blocks.
pub record CountsRefs {S Prepare Commit : Type 0} (ops : BlockOps S)
    (callbacks : Callbacks S Prepare Commit) (refs : S → ℕ → ℕ) (weight : Prepare → ℕ)
    : Type 0 where
  pub get_found :
      (s : S) (bnr nbf b c : ℕ)
      → (ops.get s bnr nbf).0 ≡ block b
      → refs (ops.get s bnr nbf).1 c ≡ refs s c + one b c
  pub get_failed :
      (s : S) (bnr nbf c : ℕ)
      → (e : _) → (ops.get s bnr nbf).0 ≡ err_ptr e
      → refs (ops.get s bnr nbf).1 c ≡ refs s c
  pub put_held : (s : S) (b c : ℕ) → 0 < refs s b → refs (ops.put s (some b)) c + one b c ≡ refs s c
  pub put_null : (s : S) (c : ℕ) → refs (ops.put s none) c ≡ refs s c
  pub begin : (s : S) (bs : List ℕ) (c : ℕ) → refs (ops.dirty_begin s bs).1 c ≡ refs s c
  pub end : (s : S) (bs : List ℕ) (c : ℕ) → refs (ops.dirty_end s bs) c ≡ refs s c
  pub prepare :
      (p : Prepare) (s : S) (b : ℕ)
      → Returns
          (callbacks.prepare p s b)
          (λ r. IsFresh r.1 × (total weight r.1 ≤ weight p) × ((c : ℕ) → refs r.2 c ≡ refs s c))
  pub commit :
      (f : Commit) (s : S) (b : ℕ)
      → Returns (callbacks.commit f s b) (λ t. (c : ℕ) → refs t c ≡ refs s c)
