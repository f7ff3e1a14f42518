-- ===== src/Socket/Send.antt =====
-- The send thread of shared/mtr-socket.c writes the packets that socket_send queued.
use ngnfs_progs.Prelude.{
  ℕ, ◌+◌, ◌≡◌, ◌==◌, Bool, none, some, List, [], ◌∷◌, ◌++◌, length, get_or, refl, ap, sym, ◌∙◌,
  arith, inl, inr,
}
use mathlib.Core.List.{append_assoc, append-nil}
use ngnfs_progs.Prelude.Errno.{ok}
use ngnfs_progs.Prelude.Memory.{Mem}
use ngnfs_progs.Prelude.Run.{Run, done, ◌>>=◌, Returns, Returns-map, Returns-bind}
use ngnfs_progs.Protocol.Desc.{MsgDesc}
use ngnfs_progs.Socket.Iovec.{
  Place, Iovec, SysRet, whole_iovec, iov_append, range, places, length-range,
}
use ngnfs_progs.Socket.Whole.{IsTransfer, whole_iovec-Whole}
use ngnfs_progs.Socket.Threads.{SocketPeer, shutdown_peer-error}
use ngnfs_progs.Socket.Peer.{
  header_bytes, page_bytes, socket_send, send_packets, socket_send_thread,
}
use ngnfs_progs.Socket.Message.{
  IsMessage, places-iov_append, IsFull-iov_append, data_bytes, body_bytes,
}
use ngnfs_progs.Socket.Stream.{Packets, stream, AreMessages}

-- The bytes of a packet at some places.
abbrev pub gather : List ℕ → List Place → List ℕ
gather p [] = []
gather p (x ∷ xs) = get_or p x.1 0 ∷ gather p xs

gather-append : (p : List ℕ) (xs ys : List Place) → gather p (xs ++ ys) ≡ gather p xs ++ gather p ys
gather-append p [] ys = refl
gather-append p (x ∷ xs) ys = ap (◌∷◌ (get_or p x.1 0)) (gather-append p xs ys)

get_or-length : (xs : List ℕ) (y : ℕ) (ys : List ℕ) → get_or (xs ++ (y ∷ ys)) (length xs) 0 ≡ y
get_or-length [] y ys = refl
get_or-length (x ∷ xs) y ys = get_or-length xs y ys

length-snoc : (xs : List ℕ) (y : ℕ) → length (xs ++ (y ∷ [])) ≡ length xs + 1
length-snoc [] y = omega arith
length-snoc (x ∷ xs) y = omega (arith, length-snoc xs y)

gather-suffix :
    (buf : ℕ) (xs ys : List ℕ) → gather (xs ++ ys) (range buf (length xs) (length ys)) ≡ ys
gather-suffix buf xs [] = refl
gather-suffix buf xs (y ∷ ys) =
    let next : gather ((xs ++ (y ∷ [])) ++ ys) (range buf (length (xs ++ (y ∷ []))) (length ys))
        ≡ ys =
      gather-suffix buf (xs ++ (y ∷ [])) ys in
    rw (get_or-length xs y ys)
      (ap (◌∷◌ y) (rw (append_assoc xs (y ∷ []) ys, length-snoc xs y) at next))

abbrev pub concat : List (List ℕ) → List ℕ
concat [] = []
concat (p ∷ ps) = p ++ concat ps

concat-append : (ps qs : List (List ℕ)) → concat (ps ++ qs) ≡ concat ps ++ concat qs
concat-append [] qs = refl
concat-append (p ∷ ps) qs =
    ap (λ xs. p ++ xs) (concat-append ps qs) ∙ sym (append_assoc p (concat ps) (concat qs))

-- socket_send of each message, where the memory is there.
abbrev pub enqueue : Packets → SocketPeer → Run SocketPeer
enqueue [] pinf = done pinf
enqueue ((m, d) ∷ xs) pinf = socket_send (some m) d pinf >>= λ r. enqueue xs r.1

Queued : List ℕ → SocketPeer → SocketPeer → Type 0
Queued bs before after = (after.error ≡ none) × (concat after.send_q ≡ concat before.send_q ++ bs)

pub page_bytes-lem :
    (d : MsgDesc Mem)
    → IsMessage d
    → page_bytes d.data_page d.data_size ≡ done (data_bytes d.data_page d.data_size)
page_bytes-lem d w = elim w.paged [ inl (z, e) ↦ rw (e, z) refl | inr (page, e) ↦ rw e refl ]

socket_send-Queued :
    (m : Mem) (d : MsgDesc Mem) (pinf : SocketPeer)
    → IsMessage d
    → pinf.error ≡ none
    → Returns
        (socket_send (some m) d pinf)
        (λ r. Queued (header_bytes m d ++ body_bytes d) pinf r.1)
unfolding socket_send Queued
socket_send-Queued m d pinf w e =
    rw (e, page_bytes-lem d w, socket_send)
      (
        e,
        concat-append pinf.send_q _
            ∙ ap (λ l. concat pinf.send_q ++ l) (append-nil (header_bytes m d ++ body_bytes d)),
      )

enqueue-Queued :
    (xs : Packets) (pinf : SocketPeer)
    → AreMessages xs
    → pinf.error ≡ none
    → Returns (enqueue xs pinf) (Queued (stream xs) pinf)
unfolding Queued
enqueue-Queued [] pinf w e = (e, sym (append-nil (concat pinf.send_q)))
enqueue-Queued ((m, d) ∷ xs) pinf w e =
    Returns-bind _ _ (socket_send (some m) d pinf) _ (socket_send-Queued m d pinf w.0 e)
      (λ r (none_, first).
        Returns-map _ _ (enqueue xs r.1) (enqueue-Queued xs r.1 w.1 none_) (λ q (none2, more). (
          none2,
          more
              ∙ ap (λ l. l ++ stream xs) first
              ∙ append_assoc (concat pinf.send_q) (header_bytes m d ++ body_bytes d) (stream xs)
              ∙ ap (λ l. concat pinf.send_q ++ l)
                  (append_assoc (header_bytes m d) (body_bytes d) (stream xs)),
        )))

-- The send thread finds the queue after one wait, and is stopped at the next.
abbrev pub one_wait : ℕ → SocketPeer → Bool × SocketPeer
one_wait fuel pinf = (fuel == 0, pinf)

-- The bytes of the packet `p` at some places were written.
abbrev pub Writes : {S : Type 0} → (S → List ℕ) → List ℕ → List Place → S → S → Type 0
Writes output p ps s t = output t ≡ output s ++ gather p ps

abbrev pub Always : {S : Type 0} → ℕ → S → Type 0
Always m s = Unit {0}

module _ {S : Type 0} (writev : List ℕ → S → List Iovec → SysRet × S) (output : S → List ℕ)
    (writes : (p : List ℕ) → IsTransfer (writev p) (Writes output p) Always) where
  write_packet :
      (p : List ℕ) (s : S)
      → Returns
          (whole_iovec (writev p) (length p) (iov_append [] 0 (length p)) s)
          (λ r. (r.0 ≡ ok 0) × (output r.1 ≡ output s ++ p))
  write_packet p s =
      let iov = iov_append [] 0 (length p) in
      let at : places iov ≡ range 0 0 (length p) = places-iov_append [] 0 (length p) in
      let size : length (places iov) ≡ length p = ap length at ∙ length-range 0 0 (length p) in
      Returns-map _ _ (whole_iovec (writev p) (length p) iov s)
        (whole_iovec-Whole (writev p) (Writes output p) Always (writes p)
          (λ t. sym (append-nil (output t)))
          (λ xs ys t u v a b.
            b
            ∙ ap (λ l. l ++ gather p ys) a
            ∙ append_assoc (output t) (gather p xs) (gather p ys)
            ∙ ap (λ l. output t ++ l) (sym (gather-append p xs ys)))
          (length p) iov (length p) s (omega (arith, size)) (IsFull-iov_append [] 0 (length p) tt)
          (omega (arith, size)) tt)
        (λ r w. (
          w.0,
          w.1
              ∙ ap (λ ps. output s ++ gather p ps) at
              ∙ ap (λ l. output s ++ l) (gather-suffix 0 [] p),
        ))

  send_packets-concat :
      (ps : List (List ℕ)) (s : S)
      → Returns
          (send_packets writev ps s)
          (λ r. (r.0 ≡ ok 0) × (output r.1 ≡ output s ++ concat ps))
  unfolding send_packets
  send_packets-concat [] s = (refl, sym (append-nil (output s)))
  send_packets-concat (p ∷ ps) s =
      Returns-bind _ _ (whole_iovec (writev p) (length p) (iov_append [] 0 (length p)) s) _
        (write_packet p s)
        (λ r (o, wrote). rw o (
          Returns-map _ _ (send_packets writev ps r.1) (send_packets-concat ps r.1)
            (λ u (done_, more). (
              done_,
              more ∙ ap (λ l. l ++ concat ps) wrote ∙ append_assoc (output s) p (concat ps),
            ))))

  -- For a peer without an error and where the memory for the packets is there: messages that are sent
  -- one after the other are queued. A send thread that starts after that, finds the queue after its
  -- first wait and is told to return before a second, where writev never fails and takes at least a
  -- byte each time, however it cuts them, writes the framed messages to the stream in order, behind
  -- the packets that the queue had, and nothing else.
  pub send_thread-stream :
      (xs : Packets) (pinf : SocketPeer) (s : S)
      → AreMessages xs
      → pinf.error ≡ none
      → Returns
          (enqueue xs pinf >>= λ q. socket_send_thread writev 2 one_wait q s)
          (λ r. (r.0.error ≡ none) × (output r.1 ≡ output s ++ (concat pinf.send_q ++ stream xs)))
  unfolding socket_send_thread Queued
  send_thread-stream xs pinf s w e =
      Returns-bind _ _ (enqueue xs pinf) _ (enqueue-Queued xs pinf w e) (λ q (none_, all).
        Returns-bind _ _ (send_packets writev q.send_q s) _ (send_packets-concat q.send_q s)
          (λ r (o, wrote).
            rw o (shutdown_peer-error _ 0 ∙ none_, wrote ∙ ap (λ l. output s ++ l) all)))
