-- ===== src/Tests/Protocol.antt =====
-- shared/btr-msg.c and devd/recv.c: a block is read and written at a daemon that has every block
-- in its cache, whose buffers are numbers.
use ngnfs_progs.Prelude.{
  ℕ, ◌+◌, ◌≡◌, ◌==◌, if◌then◌else◌, Option, none, some, refl, arith, List, [], ◌∷◌,
}
use ngnfs_progs.Prelude.Errno.{Ret, ok}
use ngnfs_progs.Prelude.Memory.{Mem}
use ngnfs_progs.Prelude.Run.{Run, done, ◌>>=◌}
use ngnfs_progs.Msg.Wire.{received}
use ngnfs_progs.Txn.State.{BlockOps, block, nbf_read}
use ngnfs_progs.Protocol.Desc.{MsgDesc, access_read}
use ngnfs_progs.Protocol.Client.{
  get_request, write_request, ngnfs_btr_msg_get_block_result, ngnfs_btr_msg_write_block_result,
}
use ngnfs_progs.Protocol.Server.{DevdOps, status, devd_get_block, devd_write_block}
use ngnfs_progs.Protocol.Exchange.{Delivered, page_got, get_answer, answer_get, get-answered}
use ngnfs_progs.Protocol.WriteExchange.{write_page, write_answer, write-answered}

-- The contents of the blocks; messages are sent without errors.
abbrev Disk : Type 0
Disk = ℕ → ℕ

abbrev disk_cache : BlockOps Disk
disk_cache = record {
  get = λ s bnr nbf. (block bnr, s);
  put = λ s b. s;
  dirty_begin = λ s bs. (ok 0, s);
  dirty_end = λ s bs. s;
}

abbrev daemon : DevdOps Disk ℕ
daemon = record {
  cache = disk_cache;
  page = λ s b. s b;
  copy = λ s b page. λ c. if c == b then page else s c;
  sync = λ s. (ok 0, s);
  send = λ s mdesc. (ok 0, s);
}

abbrev zeros : Mem
zeros = λ i. 0

abbrev disk : Disk
disk = λ b. b + 100

-- The completed block, its page and its result.
abbrev complete : List ℕ → ℕ → Option ℕ → Ret → Run (List ℕ)
complete t bnr page r = done (bnr ∷ t)

abbrev IsDeliveredWhole : {Page : Type 0} → MsgDesc Page → Type 0
IsDeliveredWhole m = Delivered m m

delivered : {Page : Type 0} → (m : MsgDesc Page) → IsDeliveredWhole m
delivered m = record {
  same_ctl = λ i h. refl;
  same_page = refl;
  same_data_size = refl;
  same_ctl_size = refl;
  same_type = refl;
}

abbrev read_7 : MsgDesc ℕ
read_7 = get_request zeros access_read 7 1

abbrev read_7_answer : MsgDesc ℕ
read_7_answer = get_answer daemon zeros read_7 7 disk

get-answered_example :
    (devd_get_block daemon zeros read_7 disk ≡ answer_get daemon zeros read_7 7 disk)
    × (read_7_answer.addr ≡ read_7.addr)
    × (ngnfs_btr_msg_get_block_result complete read_7_answer [] ≡ (
        complete [] 7
          (page_got daemon (disk_cache.get disk 7 nbf_read))
          (received (status (disk_cache.get disk 7 nbf_read).0))
        >>= λ u. done (ok 0, u)))
get-answered_example =
    get-answered daemon complete zeros zeros 7 (omega arith) 1 read_7 read_7_answer access_read disk
      [] (omega arith) (delivered read_7) (delivered read_7_answer)

abbrev write_7 : MsgDesc ℕ
write_7 = write_request zeros (some 55) 7 1

abbrev write_7_answer : MsgDesc ℕ
write_7_answer = write_answer daemon (some 9) zeros 7 55 write_7 disk

write-answered_example :
    (devd_write_block daemon zeros (some 9) write_7 disk
      ≡ done (daemon.send (write_page daemon (some 9) 7 55 disk).1 write_7_answer))
    × (ngnfs_btr_msg_write_block_result complete write_7_answer [] ≡ (
        complete [] 7 none (received (write_page daemon (some 9) 7 55 disk).0) >>= λ u.
        done (ok 0, u)))
write-answered_example =
    write-answered daemon complete (some 9) zeros zeros 7 (omega arith) 55 1 write_7 write_7_answer
      disk [] (delivered write_7) (delivered write_7_answer)
