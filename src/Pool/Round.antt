-- ===== src/Pool/Round.antt =====
-- The pool stays valid through `check_clients` and through every round of the main loop.
use csapp_code.Pool.{Pool}
