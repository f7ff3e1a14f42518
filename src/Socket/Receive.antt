-- ===== src/Socket/Receive.antt =====
-- The receive thread of shared/mtr-socket.c takes a message off the stream that socket_send framed.
use ngnfs_progs.Prelude.{
  ℕ, ◌+◌, ◌≤◌, ◌≡◌, ◌==◌, ◌&&◌, not, true, false, List, [], ◌∷◌, ◌++◌, length, length-append, refl,
  ap, subst, sym, ◌∙◌, arith,
}
use ngnfs_progs.Prelude.Errno.{Ret, ok}
use ngnfs_progs.Prelude.Memory.{Mem, read_bytes, length-read_bytes}
use ngnfs_progs.Prelude.Run.{Returns, Returns-map, Returns-bind}
use ngnfs_progs.Msg.Wire.{MsgHeader, ngnfs_msg_verify_header}
use ngnfs_progs.Protocol.Desc.{MsgDesc}
use ngnfs_progs.Socket.Iovec.{Iovec, whole_iovec, iov_append, range, places, IsFull, length-range}
use ngnfs_progs.Socket.Whole.{IsTransfer, whole_iovec-Whole}
use ngnfs_progs.Socket.Reads.{
  fill, fill-append, fill-other, fill-start, get_or-read_start, Reads, Reads-nil, Reads-append,
  Holds,
}
use ngnfs_progs.Socket.Peer.{
  RecvEnv, header_bytes, hdr_buf, ctl_page, data_page, header_of, body_iov, desc_of, recv_body,
  recv_header, recv_round,
}
use ngnfs_progs.Socket.Message.{
  append-cancel, IsMessage, IsCopy, places-iov_append, IsFull-iov_append, data_bytes, body_bytes,
  length-data_bytes, get_or-data_bytes,
}

-- What readv and ngnfs_msg_recv are asked: a read takes at least a byte where all that is asked
-- for will come, and a received message goes to the log and is no error.
pub record IsRecvEnv {S : Type 0} (env : RecvEnv S) (input : S → List ℕ)
    (log : S → List (MsgDesc Mem)) : Type 0 where
  pub reads : IsTransfer env.readv (Reads input env.mem log) (Holds input env.mem log)
  pub pages : (s : S) → env.page s ≡ true
  pub logged : (s : S) (d : MsgDesc Mem) → log (env.recv s d).1 ≡ log s ++ (d ∷ [])
  pub no_error : (s : S) (d : MsgDesc Mem) → (env.recv s d).0 ≡ ok 0
  pub input_kept : (s : S) (d : MsgDesc Mem) → input (env.recv s d).1 ≡ input s

module _ {S : Type 0} (input : S → List ℕ) (log : S → List (MsgDesc Mem)) where
  -- The message is received, and the rest of the stream is left.
  abbrev pub Receives : MsgDesc Mem → List ℕ → S → Ret × S → Type 0
  Receives d rest s r =
      (r.0 ≡ ok 0)
      × (input r.1 ≡ rest)
      × ((copy : MsgDesc Mem) × IsCopy d copy × (log r.1 ≡ log s ++ (copy ∷ [])))

module _ {S : Type 0} (env : RecvEnv S) (addr : ℕ) (input : S → List ℕ)
    (log : S → List (MsgDesc Mem)) (laws : IsRecvEnv env input log) where
  abbrev ReadAll : List Iovec → List ℕ → List ℕ → S → Ret × S → Type 0
  ReadAll iov bs rest s r =
      (r.0 ≡ ok 0)
      × (input r.1 ≡ rest)
      × (env.mem r.1 ≡ fill (places iov) bs (env.mem s))
      × (log r.1 ≡ log s)

  read_whole :
      (fuel : ℕ) (iov : List Iovec) (bs rest : List ℕ) (s : S)
      → length (places iov) ≤ fuel
      → IsFull iov
      → length bs ≡ length (places iov)
      → input s ≡ bs ++ rest
      → Returns (whole_iovec env.readv fuel iov s) (ReadAll iov bs rest s)
  read_whole fuel iov bs rest s h f e i =
      let total : length (input s) ≡ length bs + length rest =
        ap length i ∙ length-append bs rest in
      Returns-map _ (ReadAll iov bs rest s) (whole_iovec env.readv fuel iov s)
        (whole_iovec-Whole env.readv (Reads input env.mem log) (Holds input env.mem log) laws.reads
          (Reads-nil input env.mem log) (Reads-append input env.mem log) fuel iov
          (length (places iov)) s h f (omega arith) (omega (arith, total, e)))
        (λ r w.
          let (same, left) =
            append-cancel w.1.bytes bs (input r.1) rest (omega (arith, e, w.1.count))
              (sym w.1.taken ∙ i) in
          (w.0, left, w.1.filled ∙ ap (λ xs. fill (places iov) xs (env.mem s)) same, w.1.kept))

  -- The place of a byte in the memory after the body was read.
  body_mem : MsgDesc Mem → (ℕ → Mem) → ℕ → Mem
  body_mem d m =
      fill (range data_page 0 d.data_size) (data_bytes d.data_page d.data_size)
        (fill (range ctl_page 0 d.ctl_size) (read_bytes d.ctl_buf 0 d.ctl_size) m)

  body_iov-places :
      (d : MsgDesc Mem) (hdr : MsgHeader)
      → hdr.ctl_size ≡ d.ctl_size
      → hdr.data_size ≡ d.data_size
      → places (body_iov hdr) ≡ range ctl_page 0 d.ctl_size ++ range data_page 0 d.data_size
  body_iov-places d hdr c n =
      places-iov_append (iov_append [] ctl_page hdr.ctl_size) data_page hdr.data_size
      ∙ ap (λ ps. ps ++ range data_page 0 hdr.data_size)
          (places-iov_append [] ctl_page hdr.ctl_size)
      ∙ ap (λ k. range ctl_page 0 k ++ range data_page 0 hdr.data_size) c
      ∙ ap (λ k. range ctl_page 0 d.ctl_size ++ range data_page 0 k) n

  copied :
      (d : MsgDesc Mem) (hdr : MsgHeader) (m : ℕ → Mem)
      → IsMessage d
      → hdr.ctl_size ≡ d.ctl_size
      → hdr.data_size ≡ d.data_size
      → hdr.type ≡ d.type
      → IsCopy d (desc_of addr hdr (body_mem d m))
  unfolding body_mem
  copied d hdr m w c n t = record {
    same_ctl = λ i h.
        fill-other data_page 0 d.data_size (data_bytes d.data_page d.data_size) _ ctl_page i
          (λ e. omega (arith, e))
        ∙ fill-start ctl_page d.ctl_size (read_bytes d.ctl_buf 0 d.ctl_size) m i
            (length-read_bytes d.ctl_buf 0 d.ctl_size) h
        ∙ get_or-read_start d.ctl_buf d.ctl_size i h;
    same_data = λ i h.
        let some_data : (hdr.data_size == 0) ≡ false = ground (arith, n, h) in
        rw some_data (
          fill-start data_page d.data_size (data_bytes d.data_page d.data_size) _ i
            (length-data_bytes d w) h
          ∙ get_or-data_bytes d.data_page d.data_size i (length-data_bytes d w) h);
    same_ctl_size = c;
    same_data_size = n;
    same_type = t;
  }

  body-Receives :
      (d : MsgDesc Mem) (hdr : MsgHeader) (rest : List ℕ) (s : S)
      → IsMessage d
      → hdr.ctl_size ≡ d.ctl_size
      → hdr.data_size ≡ d.data_size
      → hdr.type ≡ d.type
      → input s ≡ body_bytes d ++ rest
      → Returns (recv_body env addr hdr s) (Receives input log d rest s)
  unfolding body_mem
  body-Receives d hdr rest s w c n t i =
      let iov = body_iov hdr in
      let at = body_iov-places d hdr c n in
      let size1 = length-range ctl_page 0 d.ctl_size in
      let size2 = length-range data_page 0 d.data_size in
      let total =
        ap length at
        ∙ length-append (range ctl_page 0 d.ctl_size) (range data_page 0 d.data_size) in
      let ctl = read_bytes d.ctl_buf 0 d.ctl_size in
      let data_ = data_bytes d.data_page d.data_size in
      let bytes = length-append ctl data_ in
      let cs = length-read_bytes d.ctl_buf 0 d.ctl_size in
      let ds = length-data_bytes d w in
      let full =
        IsFull-iov_append (iov_append [] ctl_page hdr.ctl_size) data_page hdr.data_size
          (IsFull-iov_append [] ctl_page hdr.ctl_size tt) in
      Returns-bind (ReadAll iov (body_bytes d) rest s) (Receives input log d rest s)
        (whole_iovec env.readv (hdr.ctl_size + hdr.data_size) iov s) _
        (read_whole (hdr.ctl_size + hdr.data_size) iov (body_bytes d) rest s
          (omega (arith, total, size1, size2, c, n)) full
          (omega (arith, total, size1, size2, bytes, cs, ds)) i)
        (λ r (o, left, m, kept).
          let mem : env.mem r.1 ≡ body_mem d (env.mem s) =
            m
            ∙ ap (λ ps. fill ps (body_bytes d) (env.mem s)) at
            ∙ fill-append (range ctl_page 0 d.ctl_size) (range data_page 0 d.data_size) ctl data_
                (env.mem s) (omega (arith, cs, size1)) in
          let got = desc_of addr hdr (env.mem r.1) in
          rw o (
            laws.no_error r.1 got,
            laws.input_kept r.1 got ∙ left,
            (
              got,
              subst (λ mm. IsCopy d (desc_of addr hdr mm)) (sym mem)
                  (copied d hdr (env.mem s) w c n t),
              laws.logged r.1 got ∙ ap (λ l. l ++ (got ∷ [])) kept,
            ),
          ))

  verify-IsMessage :
      (d : MsgDesc Mem) (hdr : MsgHeader)
      → IsMessage d
      → hdr.ctl_size ≡ d.ctl_size
      → hdr.data_size ≡ d.data_size
      → hdr.type ≡ d.type
      → ngnfs_msg_verify_header hdr ≡ ok 0
  unfolding ngnfs_msg_verify_header
  verify-IsMessage d hdr w c n t =
      ground (arith, w.ctl_bound, w.data_bound, w.some_bytes, w.known, c, n, t)

  header-Receives :
      (d : MsgDesc Mem) (hdr : MsgHeader) (rest : List ℕ) (s : S)
      → IsMessage d
      → hdr.ctl_size ≡ d.ctl_size
      → hdr.data_size ≡ d.data_size
      → hdr.type ≡ d.type
      → input s ≡ body_bytes d ++ rest
      → Returns (recv_header env addr hdr s) (Receives input log d rest s)
  header-Receives d hdr rest s w c n t i =
      let checked = verify-IsMessage d hdr w c n t in
      let page : (not (hdr.data_size == 0) && not (env.page s)) ≡ false =
        ground (arith, laws.pages s) in
      rw (checked, page, recv_header) (body-Receives d hdr rest s w c n t i)

  -- From a stream that starts with a framed message: a round of the receive loop hands a copy of it
  -- to ngnfs_msg_recv and leaves the rest of the stream.
  pub round-Receives :
      (memory : Mem) (d : MsgDesc Mem) (rest : List ℕ) (s : S)
      → IsMessage d
      → input s ≡ header_bytes memory d ++ (body_bytes d ++ rest)
      → Returns (recv_round env addr s) (Receives input log d rest s)
  unfolding recv_round
  round-Receives memory d rest s w i =
      let iov = iov_append [] hdr_buf 8 in
      Returns-bind (ReadAll iov (header_bytes memory d) (body_bytes d ++ rest) s)
        (Receives input log d rest s) (whole_iovec env.readv 8 iov s) _
        (read_whole 8 iov (header_bytes memory d) (body_bytes d ++ rest) s (omega arith)
          (omega arith, tt) refl i)
        (λ r (o, left, m, kept).
          let hdr = header_of (env.mem r.1 hdr_buf) in
          let mem = ap (λ mm. header_of (mm hdr_buf)) m in
          let c : hdr.ctl_size ≡ d.ctl_size = ap (λ h. h.ctl_size) mem in
          let t : hdr.type ≡ d.type = ap (λ h. h.type) mem in
          let n : hdr.data_size ≡ d.data_size =
            ap (λ h. h.data_size) mem ∙ omega (arith, w.data_bound) in
          rw o (
            Returns-map (Receives input log d rest r.1) (Receives input log d rest s)
              (recv_header env addr hdr r.1) (header-Receives d hdr rest r.1 w c n t left)
              (λ u h. (h.0, h.1, (h.2.0, h.2.1, h.2.2 ∙ ap (λ l. l ++ (h.2.0 ∷ [])) kept)))))
