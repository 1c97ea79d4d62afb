-- ===== src/Shell.antt =====
-- labs/shlab-handout/tsh.c: the tiny shell's job list and its command line parser.
pub mod Jobs
pub mod Parse
