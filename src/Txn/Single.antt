-- ===== src/Txn/Single.antt =====
-- Transactions of shared/txn.c over one block.
use ngnfs_progs.Prelude.{ℕ, ◌≡◌, ◌∙◌, true, inl, inr, Option, some, none, [], ◌∷◌, refl}
use ngnfs_progs.Prelude.Run.{Run, done, bug, hang, ◌>>=◌}
use ngnfs_progs.Prelude.Errno.{Ret, ok, err, Ret-cases}
use ngnfs_progs.Txn.State.{
  BlockOps, BlockOrErr, block, err_ptr, is_write, TransactionBlock, Transaction, Callbacks,
  nbf_read, nbf_write, BlockOrErr-cases,
}
use ngnfs_progs.Txn.Execute.{prepare_loop, commit_loop, write_all, ngnfs_txn_execute}

bind-done : {A B : Type 0} (m : Run A) (f : A → Run B) → ((m >>= λ a. done a) >>= f) ≡ (m >>= f)
bind-done (done a) f = refl
bind-done bug f = refl
bind-done hang f = refl

module _ {S Prepare Commit : Type 0} (ops : BlockOps S) (callbacks : Callbacks S Prepare Commit)
    (id bnr : ℕ) where
  abbrev pub single :
      Option ℕ → ℕ → Option Prepare → Option Commit → TransactionBlock Prepare Commit
  single bl nbf prepare commit = record {
    id = id;
    bl = bl;
    bnr = bnr;
    nbf = nbf;
    prepare = prepare;
    commit = commit;
  }

  abbrev pub only : TransactionBlock Prepare Commit → Transaction Prepare Commit
  only t = record { blocks = t ∷ []; writes = [] }

  abbrev pub written : TransactionBlock Prepare Commit → Transaction Prepare Commit
  written t = record { blocks = t ∷ []; writes = t ∷ [] }

  -- How an execution for writing one block goes on from what dirty_begin returned.
  abbrev pub dirtied : Commit → ℕ → ℕ → Ret × S → Run (Ret × Transaction Prepare Commit × S)
  dirtied c nbf b (err e, s) = done (err e, written (single (some b) nbf none (some c)), s)
  dirtied c nbf b (ok n, s) = callbacks.commit c s b >>= λ t.
      done (ok n, written (single (some b) nbf none (some c)), ops.dirty_end t (b ∷ []))

  -- And from what the cache's get returned.
  abbrev pub gotten : Commit → ℕ → BlockOrErr × S → Run (Ret × Transaction Prepare Commit × S)
  gotten c nbf (err_ptr e, s) = done (err e, only (single none nbf none (some c)), s)
  gotten c nbf (block b, s) = dirtied c nbf b (ops.dirty_begin s (b ∷ []))

  write_all-dirtied :
      (c : Commit) (nbf b : ℕ) (s : S)
      → write_all ops callbacks (ok 0, written (single (some b) nbf none (some c)), s)
        ≡ dirtied c nbf b (ops.dirty_begin s (b ∷ []))
  unfolding write_all commit_loop
  write_all-dirtied c nbf b s = elim (Ret-cases (ops.dirty_begin s (b ∷ [])).0) [
    | inl (e, q) ↦ rw (q, write_all) refl
    | inr (n, q) ↦
        rw (q, write_all, commit_loop)
          (bind-done (callbacks.commit c (ops.dirty_begin s (b ∷ [])).1 b) _)
  ]

  -- The whole execution, errors included.
  pub execute-gotten :
      (c : Commit) (nbf : ℕ) (s : S)
      → is_write nbf ≡ true
      → ngnfs_txn_execute ops callbacks 1 (only (single none nbf none (some c))) s
        ≡ gotten c nbf (ops.get s bnr nbf)
  unfolding ngnfs_txn_execute prepare_loop write_all
  execute-gotten c nbf s w = elim (BlockOrErr-cases (ops.get s bnr nbf).0) [
    | inl (e, q) ↦ rw (q, prepare_loop) refl
    | inr (b, q) ↦ rw (q, w, prepare_loop) (write_all-dirtied c nbf b (ops.get s bnr nbf).1)
  ]

  -- One block is written: what its commit function leaves is the result.
  pub execute-write :
      (c : Commit) (s t : S) (b : ℕ)
      → (ops.get s bnr nbf_write).0 ≡ block b
      → (ops.dirty_begin (ops.get s bnr nbf_write).1 (b ∷ [])).0 ≡ ok 0
      → callbacks.commit c (ops.dirty_begin (ops.get s bnr nbf_write).1 (b ∷ [])).1 b ≡ done t
      → ngnfs_txn_execute ops callbacks 1 (only (single none nbf_write none (some c))) s
        ≡ done (ok 0, written (single (some b) nbf_write none (some c)), ops.dirty_end t (b ∷ []))
  execute-write c s t b found begun run =
      execute-gotten c nbf_write s refl ∙ rw (found, begun, run) refl

  read-loop :
      (p : Prepare) (s t : S) (b n : ℕ)
      → (ops.get s bnr nbf_read).0 ≡ block b
      → callbacks.prepare p (ops.get s bnr nbf_read).1 b ≡ done (ok n, [], t)
      → prepare_loop ops callbacks 1 [] (single none nbf_read (some p) none ∷ []) [] 0 s
        ≡ done (ok n, only (single (some b) nbf_read (some p) none), t)
  unfolding prepare_loop
  read-loop p s t b n found run = rw (found, run, prepare_loop) refl

  -- One block is read: its prepare function gives the result.
  pub execute-read :
      (p : Prepare) (s t : S) (b n : ℕ)
      → (ops.get s bnr nbf_read).0 ≡ block b
      → callbacks.prepare p (ops.get s bnr nbf_read).1 b ≡ done (ok n, [], t)
      → ngnfs_txn_execute ops callbacks 1 (only (single none nbf_read (some p) none)) s
        ≡ done (ok n, only (single (some b) nbf_read (some p) none), t)
  unfolding ngnfs_txn_execute write_all
  execute-read p s t b n found run = rw (read-loop p s t b n found run) refl
