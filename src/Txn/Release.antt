-- ===== src/Txn/Release.antt =====
-- Each reference that a transaction of shared/txn.c takes on a block is put when it is torn down.
use ngnfs_progs.Prelude.{
  ℕ, zero, suc, ◌+◌, ◌≤◌, ◌<◌, ◌≡◌, if◌then◌else◌, Bool, true, false, Option, none, some, List, [],
  ◌∷◌, ◌++◌, inl, inr, ◌∙◌, arith, refl, Option-cases,
}
use ngnfs_progs.Prelude.Run.{Returns, Returns-bind}
use ngnfs_progs.Prelude.Errno.{Ret, ok, err, Ret-cases}
use ngnfs_progs.Txn.State.{
  BlockOps, TransactionBlock, Transaction, Callbacks, BlockOrErr-cases, is_write,
}
use ngnfs_progs.Txn.Execute.{
  bls, call_prepare, prepare_loop, commit_loop, del_write, write_all, ngnfs_txn_execute,
  destroy_loop, ngnfs_txn_destroy, execute_destroy,
}
use ngnfs_progs.Txn.Counts.{
  one, held, IsFresh, IsAcquired, total, weight_of, held-append, held-IsFresh, IsFresh-append,
  IsAcquired-append, total-append, CountsRefs,
}

module _ {S Prepare Commit : Type 0} (ops : BlockOps S) (callbacks : Callbacks S Prepare Commit)
    (refs : S → ℕ → ℕ) (weight : Prepare → ℕ) (laws : CountsRefs ops callbacks refs weight) where
  destroy_loop-refs :
      (ts writes : List (TransactionBlock Prepare Commit)) (s : S)
      → ((c : ℕ) → held ts c ≤ refs s c)
      → (c : ℕ) → refs (destroy_loop ops callbacks ts writes s).1 c + held ts c ≡ refs s c
  unfolding destroy_loop
  destroy_loop-refs [] writes s h c = omega arith
  destroy_loop-refs (t ∷ ts) writes s h c = elim (Option-cases t.bl) [
    | inl e ↦
        let less : (d : ℕ) → held ts d ≤ refs (ops.put s none) d =
          λ d. ground (arith, h d, laws.put_null s d) in
        rw e (
          omega (
            arith,
            destroy_loop-refs ts (del_write t.id writes) (ops.put s none) less c,
            laws.put_null s c,
          ))
    | inr (b, e) ↦
        let full : (d : ℕ) → one b d + held ts d ≤ refs s d = λ d. simp e at h d in
        let some_ref : 0 < refs s b = ground (arith, full b) in
        let less : (d : ℕ) → held ts d ≤ refs (ops.put s (some b)) d =
          λ d. omega (arith, full d, laws.put_held s b d some_ref) in
        rw e (
          omega (
            arith,
            destroy_loop-refs ts (del_write t.id writes) (ops.put s (some b)) less c,
            laws.put_held s b c some_ref,
          ))
  ]

  -- Between the loops: the structs hold what was taken since `s`.
  record Holds (s : S) (r : Ret × Transaction Prepare Commit × S) : Type 0 where
    taken : (c : ℕ) → refs r.2 c ≡ refs s c + held r.1.blocks c
    acquired : IsAcquired r.1.writes

  abbrev Prepared : Option Prepare → S → Ret × List (TransactionBlock Prepare Commit) × S → Type 0
  Prepared p s r =
      IsFresh r.1 × (total weight r.1 ≤ weight_of weight p) × ((c : ℕ) → refs r.2 c ≡ refs s c)

  -- A prepare function, or none, leaves the counts and adds blocks within its weight.
  call_prepare-refs :
      (p : Option Prepare) (ret : ℕ) (s : S) (b : ℕ)
      → Returns (call_prepare ops callbacks p ret s b) (Prepared p s)
  call_prepare-refs none ret s b = (tt, omega arith, λ c. refl)
  call_prepare-refs (some p) ret s b = laws.prepare p s b

  grow :
      (write : Bool) (writes : List (TransactionBlock Prepare Commit))
      (t : TransactionBlock Prepare Commit) (b : ℕ)
      → t.bl ≡ some b
      → IsAcquired writes
      → IsAcquired (if write then writes ++ (t ∷ []) else writes)
  grow true writes t b e a = IsAcquired-append writes (t ∷ []) a ((b, e), tt)
  grow false writes t b e a = a

  prepare_loop-Holds :
      (start : S) (fuel : ℕ) (prev todo writes : List (TransactionBlock Prepare Commit)) (ret : ℕ)
      (s : S)
      → IsFresh todo
      → IsAcquired writes
      → total weight todo ≤ fuel
      → ((c : ℕ) → refs s c ≡ refs start c + held prev c)
      → Returns (prepare_loop ops callbacks fuel prev todo writes ret s) (Holds start)
  unfolding prepare_loop
  prepare_loop-Holds start fuel prev [] writes ret s f a w h = record { taken = h; acquired = a }
  prepare_loop-Holds start zero prev (t ∷ todo) writes ret s f a w h = absurd (omega (arith, w))
  prepare_loop-Holds start (suc fuel) prev (t ∷ todo) writes ret s f a w h =
      elim (BlockOrErr-cases (ops.get s t.bnr t.nbf).0) [
        | inl (e, q) ↦
            rw (q, prepare_loop)
              (record {
                taken = λ c. omega (
                  arith,
                  laws.get_failed s t.bnr t.nbf c e q,
                  h c,
                  held-append prev (t ∷ todo) c,
                  held-IsFresh (t ∷ todo) c f,
                );
                acquired = a;
              })
        | inr (b, q) ↦
            let s1 = (ops.get s t.bnr t.nbf).1 in
            let t1 : TransactionBlock Prepare Commit = record t { bl = some b } in
            rw (q, prepare_loop)
              (Returns-bind (Prepared t.prepare s1) (Holds start)
                (call_prepare ops callbacks t.prepare ret s1 b) _
                (call_prepare-refs t.prepare ret s1 b)
                (λ r prepared.
                  let (fresh, bound, same) = prepared in
                  elim (Ret-cases r.0) [
                    | inl (e, bad) ↦ rw bad (record {
                      taken = λ c. omega (
                        arith,
                        laws.get_found s t.bnr t.nbf b c q,
                        same c,
                        h c,
                        held-append prev (t1 ∷ (todo ++ r.1)) c,
                        held-append todo r.1 c,
                        held-IsFresh todo c f.1,
                        held-IsFresh r.1 c fresh,
                      );
                      acquired = a;
                    })
                    | inr (n, good) ↦ rw good (
                        prepare_loop-Holds start fuel (prev ++ (t1 ∷ [])) (todo ++ r.1)
                          (if is_write t.nbf then writes ++ (t1 ∷ []) else writes) n r.2
                          (IsFresh-append todo r.1 f.1 fresh)
                          (grow (is_write t.nbf) writes t1 b refl a)
                          (omega (arith, w, bound, total-append weight todo r.1))
                          (λ c. omega (
                            arith,
                            laws.get_found s t.bnr t.nbf b c q,
                            same c,
                            h c,
                            held-append prev (t1 ∷ []) c,
                          )))
                  ]))
      ]

  -- The commits leave the counts.
  commit_loop-refs :
      (start : S) (ts : List (TransactionBlock Prepare Commit)) (s : S)
      → IsAcquired ts
      → ((c : ℕ) → refs s c ≡ refs start c)
      → Returns (commit_loop ops callbacks ts s) (λ t. (c : ℕ) → refs t c ≡ refs start c)
  unfolding commit_loop
  commit_loop-refs start [] s a h = h
  commit_loop-refs start (t ∷ ts) s a h = elim (Option-cases t.commit) [
    | inl e ↦ rw (e, commit_loop) (commit_loop-refs start ts s a.1 h)
    | inr (f, e) ↦
        let (b, has) = a.0 in
        rw (e, has, commit_loop)
          (Returns-bind (λ t. (c : ℕ) → refs t c ≡ refs s c)
            (λ t. (c : ℕ) → refs t c ≡ refs start c) (callbacks.commit f s b) _ (laws.commit f s b)
            (λ s1 same. commit_loop-refs start ts s1 a.1 (λ c. same c ∙ h c)))
  ]

  write_all-Holds :
      (start : S) (r : Ret) (blocks writes : List (TransactionBlock Prepare Commit)) (s : S)
      → Holds start (r, record { blocks = blocks; writes = writes }, s)
      → Returns
          (write_all ops callbacks (r, record { blocks = blocks; writes = writes }, s))
          (Holds start)
  unfolding write_all
  write_all-Holds start (err e) blocks writes s h = h
  write_all-Holds start (ok n) blocks [] s h = h
  write_all-Holds start (ok n) blocks (t ∷ ts) s h =
      let bs = bls (t ∷ ts) in
      let s1 = (ops.dirty_begin s bs).1 in
      elim (Ret-cases (ops.dirty_begin s bs).0) [
        | inl (e, q) ↦
            rw (q, write_all)
              (record { taken = λ c. laws.begin s bs c ∙ h.taken c; acquired = h.acquired })
        | inr (m, q) ↦
            rw (q, write_all)
              (Returns-bind (λ t. (c : ℕ) → refs t c ≡ refs s c) (Holds start)
                (commit_loop ops callbacks (t ∷ ts) s1) _
                (commit_loop-refs s (t ∷ ts) s1 h.acquired (laws.begin s bs))
                (λ s2 same. record {
                  taken = λ c. laws.end s2 bs c ∙ same c ∙ h.taken c;
                  acquired = h.acquired;
                }))
      ]

  -- Where the cache counts references and the fuel is the number of blocks that there can be, an
  -- execution ends without a failed assertion, and to tear the transaction down afterwards leaves
  -- each block with as many references as before, whether the execution failed or not.
  pub execute-destroy-refs :
      (fuel : ℕ) (txn : Transaction Prepare Commit) (s : S)
      → IsFresh txn.blocks
      → IsAcquired txn.writes
      → total weight txn.blocks ≤ fuel
      → Returns (execute_destroy ops callbacks fuel txn s) (λ r. (c : ℕ) → refs r.2 c ≡ refs s c)
  unfolding ngnfs_txn_execute ngnfs_txn_destroy
  execute-destroy-refs fuel txn s f a w =
      Returns-bind (Holds s)
        (λ (r : Ret × Transaction Prepare Commit × S). (c : ℕ) → refs r.2 c ≡ refs s c)
        (ngnfs_txn_execute ops callbacks fuel txn s) _
        (Returns-bind (Holds s) (Holds s)
          (prepare_loop ops callbacks fuel [] txn.blocks txn.writes 0 s) _
          (prepare_loop-Holds s fuel [] txn.blocks txn.writes 0 s f a w (λ c. omega arith))
          (λ r h. write_all-Holds s r.0 r.1.blocks r.1.writes r.2 h))
        (λ r h c.
          let left =
            destroy_loop-refs r.1.blocks r.1.writes r.2 (λ d. omega (arith, h.taken d)) c in
          omega (arith, left, h.taken c))
