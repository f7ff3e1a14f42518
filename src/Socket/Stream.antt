-- ===== src/Socket/Stream.antt =====
-- The receive thread of shared/mtr-socket.c over a stream of framed messages.
use ngnfs_progs.Prelude.{
  ℕ, ◌+◌, ◌≡◌, leb, true, false, List, [], ◌∷◌, ◌++◌, length, length-append, refl, ap, sym, ◌∙◌,
  arith,
}
use mathlib.Core.List.{append_assoc, append-nil}
use ngnfs_progs.Prelude.Errno.{ok}
use ngnfs_progs.Prelude.Memory.{Mem}
use ngnfs_progs.Prelude.Run.{Returns, Returns-map, Returns-bind}
use ngnfs_progs.Protocol.Desc.{MsgDesc}
use ngnfs_progs.Socket.Threads.{SocketPeer, shutdown_peer}
use ngnfs_progs.Socket.Peer.{RecvEnv, header_bytes, recv_round, recv_loop, socket_recv_thread}
use ngnfs_progs.Socket.Message.{IsMessage, IsCopy, body_bytes}
use ngnfs_progs.Socket.Receive.{IsRecvEnv, Receives, round-Receives}

-- Messages, each with the memory that its packet was allocated in.
abbrev pub Packets : Type 0
Packets = List (Mem × MsgDesc Mem)

abbrev pub stream : Packets → List ℕ
stream [] = []
stream ((m, d) ∷ xs) = header_bytes m d ++ (body_bytes d ++ stream xs)

abbrev pub AreMessages : Packets → Type 0
AreMessages [] = Unit {0}
AreMessages ((m, d) ∷ xs) = IsMessage d × AreMessages xs

abbrev pub AreCopies : Packets → List (MsgDesc Mem) → Type 0
AreCopies [] [] = Unit {0}
AreCopies [] (c ∷ cs) = ⊥
AreCopies (x ∷ xs) [] = ⊥
AreCopies ((m, d) ∷ xs) (c ∷ cs) = IsCopy d c × AreCopies xs cs

module _ {S : Type 0} (input : S → List ℕ) (log : S → List (MsgDesc Mem)) where
  -- Copies of the messages are received in order, and the rest of the stream is left.
  abbrev pub ReceivesAll : Packets → List ℕ → S → S → Type 0
  ReceivesAll xs rest s t =
      (input t ≡ rest)
      × ((copies : List (MsgDesc Mem)) × AreCopies xs copies × (log t ≡ log s ++ copies))

module _ {S : Type 0} (env : RecvEnv S) (addr : ℕ) (input : S → List ℕ)
    (log : S → List (MsgDesc Mem)) (laws : IsRecvEnv env input log) (count : ℕ)
    (stops : (s : S) → env.stop s ≡ leb count (length (log s))) where
  loop-ReceivesAll :
      (xs : Packets) (rest : List ℕ) (s : S)
      → AreMessages xs
      → length (log s) + length xs ≡ count
      → input s ≡ stream xs ++ rest
      → Returns
          (recv_loop env addr (length xs) (ok 0) s)
          (λ r. (r.0 ≡ ok 0) × ReceivesAll input log xs rest s r.1)
  unfolding recv_loop
  loop-ReceivesAll [] rest s w e i =
      let stop : env.stop s ≡ true = stops s ∙ ground (arith, e) in
      rw (stop, recv_loop) (refl, (i, ([], tt, sym (append-nil (log s)))))
  loop-ReceivesAll ((m, d) ∷ xs) rest s w e i =
      let go : env.stop s ≡ false = stops s ∙ ground (arith, e) in
      let first : input s ≡ header_bytes m d ++ (body_bytes d ++ (stream xs ++ rest)) =
        i
        ∙ append_assoc (header_bytes m d) (body_bytes d ++ stream xs) rest
        ∙ ap (λ ys. header_bytes m d ++ ys) (append_assoc (body_bytes d) (stream xs) rest) in
      rw (go, recv_loop)
        (Returns-bind (Receives input log d (stream xs ++ rest) s) _ (recv_round env addr s) _
          (round-Receives env addr input log laws m d (stream xs ++ rest) s w.0 first)
          (λ r (o, left, (copy, same, logged)).
            let more : length (log r.1) + length xs ≡ count =
              omega (arith, e, ap length logged, length-append (log s) (copy ∷ [])) in
            rw o (
              Returns-map _ _ (recv_loop env addr (length xs) (ok 0) r.1)
                (loop-ReceivesAll xs rest r.1 w.1 more left)
                (λ u (done_, (rest_, (copies, same_, logged_))). (
                  done_,
                  (
                    rest_,
                    (
                      copy ∷ copies,
                      (same, same_),
                      logged_
                          ∙ ap (λ l. l ++ copies) logged
                          ∙ append_assoc (log s) (copy ∷ []) copies,
                    ),
                  ),
                )))))

  -- From a stream that starts with framed messages, which readv may deliver in any pieces, with
  -- memory for their pages, and where the thread is stopped once they are received: the receive
  -- thread hands a copy of each to ngnfs_msg_recv in order, leaves the rest of the stream, and shuts
  -- the peer down without an error.
  pub recv_thread-ReceivesAll :
      (xs : Packets) (rest : List ℕ) (pinf : SocketPeer) (s : S)
      → AreMessages xs
      → length (log s) + length xs ≡ count
      → input s ≡ stream xs ++ rest
      → Returns
          (socket_recv_thread env addr (length xs) true pinf s)
          (λ r. (r.0 ≡ shutdown_peer pinf (ok 0)) × ReceivesAll input log xs rest s r.1)
  unfolding socket_recv_thread
  recv_thread-ReceivesAll xs rest pinf s w e i =
      Returns-bind _ _ (recv_loop env addr (length xs) (ok 0) s) _
        (loop-ReceivesAll xs rest s w e i) (λ r h. (ap (shutdown_peer pinf) h.0, h.1))
