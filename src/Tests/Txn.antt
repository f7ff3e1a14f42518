-- ===== src/Tests/Txn.antt =====
-- shared/txn.c: a transaction over a cache that only counts references.
use ngnfs_progs.Prelude.{ℕ, ◌+◌, ◌-◌, ◌≡◌, ◌==◌, if◌then◌else◌, refl, some, none, arith, [], ◌∷◌}
use ngnfs_progs.Prelude.Run.{done, Returns}
use ngnfs_progs.Prelude.Errno.{ok, err, eio}
use ngnfs_progs.Txn.State.{
  BlockOps, block, TransactionBlock, Transaction, Callbacks, nbf_read, nbf_write,
}
use ngnfs_progs.Txn.Execute.{execute_destroy}
use ngnfs_progs.Txn.Counts.{one, CountsRefs}
use ngnfs_progs.Txn.Release.{execute-destroy-refs}

abbrev Refs : Type 0
Refs = ℕ → ℕ

-- Every block is in the cache, and dirtying fails where block 9 is asked for.
abbrev counting : BlockOps Refs
counting = record {
  get = λ s bnr nbf. (block bnr, λ c. s c + one bnr c);
  put = λ s bl. elim bl [ none ↦ s | some b ↦ λ c. s c - one b c ];
  dirty_begin = λ s bs. (elim bs [ [] ↦ ok 0 | b ∷ _ ↦ if b == 9 then err eio else ok 0 ], s);
  dirty_end = λ s bs. s;
}

-- A block that is only read.
abbrev read_block : TransactionBlock ℕ ℕ
read_block = record { id = 2; bl = none; bnr = 9; nbf = nbf_read; prepare = none; commit = none }

-- Every prepare function adds that block.
abbrev adding : Callbacks Refs ℕ ℕ
adding = record { prepare = λ p s b. done (ok 0, read_block ∷ [], s); commit = λ c s b. done s }

adding-CountsRefs : CountsRefs counting adding (λ s c. s c) (λ p. 1)
adding-CountsRefs = record {
  get_found = λ s bnr nbf b c e. ground (arith, e);
  get_failed = λ s bnr nbf c e q. absurd (ground (arith, q));
  put_held = λ s b c h. ground (arith, h);
  put_null = λ s c. refl;
  begin = λ s bs c. refl;
  end = λ s bs c. refl;
  prepare = λ p s b. ((refl, tt), omega arith, λ c. refl);
  commit = λ f s b c. refl;
}

abbrev txn : Transaction ℕ ℕ
txn = record {
  blocks =
      record { id = 1; bl = none; bnr = 5; nbf = nbf_write; prepare = some 0; commit = some 0 }
      ∷ [];
  writes = [];
}

execute-destroy-refs_example :
    Returns (execute_destroy counting adding 2 txn (λ c. 3)) (λ r. (c : ℕ) → r.2 c ≡ 3)
execute-destroy-refs_example =
    execute-destroy-refs counting adding (λ s c. s c) (λ p. 1) adding-CountsRefs 2 txn (λ c. 3)
      (refl, tt) tt (omega arith)
