-- ===== src/Options.antt =====
-- The options of the programs: shared/parse.c, shared/options.c and shared/mount.c.
pub mod Parse
pub mod Getopt
pub mod Loop
pub mod Mount
pub mod Mounted
