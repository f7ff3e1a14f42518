-- ===== src/Txn/State.antt =====
-- The types of shared/txn.c, and the functions of shared/block.h that it calls. A function
-- pointer together with its `arg` is an element of the types `Prepare` and `Commit`; a
-- block pointer is a number, NULL is `none`.
use ngnfs_progs.Prelude.{ℕ, ◌/◌, ◌%◌, ◌==◌, Bool, Option, List, ◌≡◌, ◌⊎◌, inl, inr, refl}
use ngnfs_progs.Prelude.Run.{Run}
use ngnfs_progs.Prelude.Errno.{Ret, Errno}

-- nbf_t is a set of these bits.
abbrev pub nbf_new : ℕ
nbf_new = 1

abbrev pub nbf_read : ℕ
nbf_read = 2

abbrev pub nbf_write : ℕ
nbf_write = 4

abbrev pub is_write : ℕ → Bool
is_write nbf = nbf / nbf_write % 2 == 1

pub data BlockOrErr : Type 0 where
  block : ℕ → BlockOrErr
  err_ptr : Errno → BlockOrErr

-- The block cache on a state `S`: ngnfs_block_get, _put, _dirty_begin and _dirty_end.
pub record BlockOps (S : Type 0) : Type 0 where
  pub get : S → ℕ → ℕ → BlockOrErr × S
  pub put : S → Option ℕ → S
  pub dirty_begin : S → List ℕ → Ret × S
  pub dirty_end : S → List ℕ → S

-- `id` is the address of the struct.
pub record TransactionBlock (Prepare Commit : Type 0) : Type 0 where
  pub id : ℕ
  pub bl : Option ℕ
  pub bnr : ℕ
  pub nbf : ℕ
  pub prepare : Option Prepare
  pub commit : Option Commit

pub record Transaction (Prepare Commit : Type 0) : Type 0 where
  pub blocks : List (TransactionBlock Prepare Commit)
  pub writes : List (TransactionBlock Prepare Commit)

-- What the callers' functions do: `prepare` may add blocks to the end of the transaction.
pub record Callbacks (S Prepare Commit : Type 0) : Type 0 where
  pub prepare : Prepare → S → ℕ → Run (Ret × List (TransactionBlock Prepare Commit) × S)
  pub commit : Commit → S → ℕ → Run S

pub BlockOrErr-cases :
    (r : BlockOrErr) → ((e : Errno) × (r ≡ err_ptr e)) ⊎ ((b : ℕ) × (r ≡ block b))
BlockOrErr-cases (err_ptr e) = inl (e, refl)
BlockOrErr-cases (block b) = inr (b, refl)
