-- ===== src/Tests.antt =====
-- Runs of the definitions on concrete inputs, and each result at an input that meets its
-- hypotheses.
mod Btree
mod Msg
mod Cache
mod Txn
mod Pfs
mod Protocol
mod Socket
mod Connect
mod Aio
mod Options
mod Balance
mod Trace
mod Workqueue
mod Debugfs
