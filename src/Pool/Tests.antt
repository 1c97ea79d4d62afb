-- ===== src/Pool/Tests.antt =====
-- Rounds of the server with small clients, and its theorems at them. A reader is the lines that it has
-- taken and not given; a connection is its packets, each a list of lines.
use csapp_code.Prelude.{
  ◌++◌, ◌>>=◌, Option, zero, suc, ℕ, ◌+◌, ◌≡◌, ◌≢◌, refl, arith, Bool, none, some, List, [], ◌∷◌,
  length, get_elem?, ◌==◌, codes,
}
use mathlib.Core.Option.{map}
use csapp_code.Pool.{
  suc, Pool, World, echo, close, init_pool, first_free, add_client, echo_line, close_client,
  serve_client, check_one, check_from, check_clients, main_round,
}
use csapp_code.Pool.Served.{count_ready, is_ready, all_from}
use csapp_code.Pool.Answers.{answers, check_clients-Served}

abbrev Rio : Type 0
Rio = List (List ℕ)

abbrev Conn : Type 0
Conn = List (List (List ℕ))

abbrev readlineb : Rio → Conn → List ℕ × Rio × Conn
readlineb (l ∷ rio) conn = (l, rio, conn)
readlineb [] [] = ([], [], [])
readlineb [] ([] ∷ conn) = ([], [], conn)
readlineb [] ((l ∷ more) ∷ conn) = (l, more, conn)

-- Descriptor 4 sends two lines in one packet, and then nothing.
abbrev quiet_world : World Rio Conn
quiet_world = record {
  pool = init_pool [] 3;
  conns = λ fd. (codes "a" ∷ codes "b" ∷ []) ∷ [];
  byte_cnt = 0;
  events = [];
}

-- The listening descriptor is ready, and then the client.
abbrev select_listen : (ℕ → Bool) → (ℕ → Bool) × ℕ
select_listen s = ((λ fd. fd == 3), 1)

abbrev select_client : (ℕ → Bool) → (ℕ → Bool) × ℕ
select_client s = ((λ fd. fd == 4), 1)

abbrev three_rounds : Option (World Rio Conn)
three_rounds = do
  w ← main_round readlineb (λ fd. []) 3 select_listen 4 quiet_world
  w ← main_round readlineb (λ fd. []) 3 select_client 5 w
  main_round readlineb (λ fd. []) 3 select_client 5 w

-- The second line of the packet is never echoed.
second_line_lost :
    map (λ (w : World Rio Conn). w.events) three_rounds ≡ some (echo 4 (codes "a") ∷ close 4 ∷ [])
unfolding main_round add_client init_pool first_free check_clients check_from check_one serve_client
    echo_line close_client
second_line_lost = refl

-- A pool with one entry, which is taken.
abbrev small_pool : Pool Rio
small_pool = record {
  maxfd = 4;
  read_set = λ fd. fd == 3;
  ready_set = λ fd. fd == 4;
  nready = 1;
  maxi = 1;
  clientfd = some 4 ∷ [];
  clientrio = [] ∷ [];
}

small_pool_full : (i : ℕ) → get_elem? small_pool.clientfd i ≢ some none
small_pool_full zero e = cc
small_pool_full (suc i) e = cc

abbrev small_world : World Rio Conn
small_world = record quiet_world { pool = small_pool }

check_clients-Served_example :
    (check_clients readlineb small_world ≡ all_from readlineb 1 0 small_world)
    × ((check_clients readlineb small_world).events
        ≡ [] ++ answers readlineb small_pool small_world.conns 1 0)
    × (length (check_clients readlineb small_world).events ≡ 0 + count_ready small_pool 1 0)
    × ((check_clients readlineb small_world).pool.clientrio ≡ [] ∷ [])
unfolding count_ready is_ready
check_clients-Served_example = check_clients-Served readlineb small_world refl (omega arith)
