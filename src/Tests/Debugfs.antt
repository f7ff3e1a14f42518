-- ===== src/Tests/Debugfs.antt =====
-- cli/debugfs.c: a session over a cache that is an array of blocks.
use ngnfs_progs.Prelude.{ltb, ◌==◌, if◌then◌else◌, Option, none, some, List, [], ◌∷◌, true}
use ngnfs_progs.Btree.Keys.{Sign, less, same, greater}
use ngnfs_progs.Options.Parse.{Str}
use ngnfs_progs.Options.Mount.{FsInfo}
use ngnfs_progs.Debugfs.{CommandEnv, Libc, Command}
use ngnfs_progs.Tests.Pfs.{Blocks, old_memory}

abbrev compare_strings : Str → Str → Sign
compare_strings [] [] = same
compare_strings [] (y ∷ b) = less
compare_strings (x ∷ a) [] = greater
compare_strings (x ∷ a) (y ∷ b) =
    let rest = compare_strings a b in if ltb x y then less else if ltb y x then greater else rest

abbrev or_first : {C : Type 0} → Sign → C → Option C → Option C
or_first same a rest = some a
or_first less a rest = rest
or_first greater a rest = rest

-- A search from the first element on.
abbrev find : {C : Type 0} → (Str → C → Sign) → Str → List C → Option C
find c key [] = none
find c key (a ∷ l) = or_first (c key a) a (find c key l)

abbrev place : {C : Type 0} → Sign → C → C → List C → List C → List C
place less a b l inserted = a ∷ b ∷ l
place same a b l inserted = a ∷ b ∷ l
place greater a b l inserted = b ∷ inserted

abbrev insert : {C : Type 0} → (C → C → Sign) → C → List C → List C
insert c a [] = a ∷ []
insert c a (b ∷ l) = place (c a b) a b l (insert c a l)

abbrev insertion_sort : {C : Type 0} → (C → C → Sign) → List C → List C
insertion_sort c [] = []
insertion_sort c (a ∷ l) = insert c a (insertion_sort c l)

-- A line is its one command.
abbrev libc : Libc (Command Blocks)
libc = record {
  strcmp = compare_strings;
  strtok_r = λ line. line ∷ [];
  bsearch = find;
  qsort = insertion_sort;
}

abbrev mounted_fs : FsInfo
mounted_fs = record {
  trace = true;
  manifest = some (record {
    nr_addrs = 2;
    addrs = λ j. if j == 1 then 196608 else if j == 0 then 65538 else 0;
  });
  msg = true;
  block = true;
}

abbrev at_1000 : CommandEnv
at_1000 = record { inode_memory = some old_memory; txn_memory = some 1; nsec = 1000 }
