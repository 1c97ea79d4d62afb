-- ===== src/Pool.antt =====
-- server/multi_conecho_server.c: one thread that serves many clients with `select`. A descriptor set
-- is its test, an entry of `clientfd` is `none` where the source has -1, and `maxi` holds the source's
-- value plus 1. `byte_cnt` is a plain number: fewer than 2 ^ 31 bytes come in. `Rio`, `Conn`, `readinitb` and
-- `readlineb` stand for csapp.c's buffered reader: a call gives a line, empty at the end of the input,
-- the reader behind it and what is left of the connection.
pub mod Inv
pub mod Add
pub mod Served
pub mod Answers
pub mod Round
mod Tests
use csapp_code.Prelude.{
  ℕ, zero, suc, ◌+◌, ◌-◌, Bool, true, false, not, ◌&&◌, Option, none, some, List, [], ◌∷◌, ◌++◌,
  ltb, ◌==◌, if◌then◌else◌, length, get_elem?, set, replicate,
}
use csapp_code.Threads.{put_at}

abbrev pub fd_setsize : ℕ
fd_setsize = 1024

pub record Pool (Rio : Type 0) : Type 0 where
  pub maxfd : ℕ
  pub read_set : ℕ → Bool
  pub ready_set : ℕ → Bool
  pub nready : ℕ
  pub maxi : ℕ
  pub clientfd : List (Option ℕ)
  pub clientrio : List Rio

-- What a client was sent, or that its connection was closed.
pub data Event : Type 0 where
  echo : (fd : ℕ) (line : List ℕ) → Event
  close : (fd : ℕ) → Event

pub record World (Rio Conn : Type 0) : Type 0 where
  pub pool : Pool Rio
  pub conns : ℕ → Conn
  pub byte_cnt : ℕ
  pub events : List Event

-- `FD_SET` and `FD_CLR`.
abbrev pub fd_set : ℕ → (ℕ → Bool) → ℕ → Bool
fd_set fd s = put_at fd true s

abbrev pub fd_clr : ℕ → (ℕ → Bool) → ℕ → Bool
fd_clr fd s = put_at fd false s

-- `junk` is what the readers hold before they are set up.
pub init_pool : {Rio : Type 0} → Rio → ℕ → Pool Rio
init_pool junk listenfd = record {
  maxfd = listenfd;
  read_set = fd_set listenfd (λ fd. false);
  ready_set = λ fd. false;
  nready = 0;
  maxi = 0;
  clientfd = replicate fd_setsize none;
  clientrio = replicate fd_setsize junk;
}

-- The loop of `add_client` from index `i`: the index of the first free entry.
pub first_free : List (Option ℕ) → ℕ → Option ℕ
first_free [] i = none
first_free (none ∷ fds) i = some i
first_free (some fd ∷ fds) i = first_free fds (i + 1)

-- The test for a full pool stands inside the loop, where `i` is below FD_SETSIZE. `none` is FD_SET
-- past the end of the set, for a descriptor of FD_SETSIZE or more.
pub add_client : {Rio : Type 0} → (ℕ → Rio) → ℕ → Pool Rio → Option (Pool Rio)
add_client readinitb connfd p = elim (first_free p.clientfd 0) [
  | none ↦ some (record p { nready = p.nready - 1 })
  | some i ↦
      if ltb connfd fd_setsize
      then some (record p {
        nready = p.nready - 1;
        clientfd = set p.clientfd i (some connfd);
        clientrio = set p.clientrio i (readinitb connfd);
        read_set = fd_set connfd p.read_set;
        maxfd = if ltb p.maxfd connfd then connfd else p.maxfd;
        maxi = if ltb p.maxi (i + 1) then i + 1 else p.maxi;
      })
      else none
]

-- The two branches for a client that is ready: its line is echoed, or its connection is closed.
pub echo_line : {Rio Conn : Type 0} → ℕ → List ℕ → World Rio Conn → World Rio Conn
echo_line connfd line w = record w {
  byte_cnt = w.byte_cnt + length line;
  events = w.events ++ echo connfd line ∷ [];
}

pub close_client : {Rio Conn : Type 0} → ℕ → ℕ → World Rio Conn → World Rio Conn
close_client i connfd w = record w {
  pool = record w.pool {
    read_set = fd_clr connfd w.pool.read_set;
    clientfd = set w.pool.clientfd i none;
  };
  events = w.events ++ close connfd ∷ [];
}

module _ {Rio Conn : Type 0} (readlineb : Rio → Conn → List ℕ × Rio × Conn) where
  -- The reader is a copy: what it holds behind the line is not kept.
  pub serve_client : ℕ → ℕ → Rio → World Rio Conn → World Rio Conn
  serve_client i connfd rio w =
      let (line, rio', conn) = readlineb rio (w.conns connfd) in
      let w' : World Rio Conn = record w {
        pool = record w.pool { nready = w.pool.nready - 1 };
        conns = put_at connfd conn w.conns;
      } in
      if not (length line == 0) then echo_line connfd line w' else close_client i connfd w'

  -- The body of the loop of `check_clients`.
  pub check_one : ℕ → World Rio Conn → World Rio Conn
  check_one i w = elim (get_elem? w.pool.clientfd i) [
    | some (some connfd) ↦ elim (get_elem? w.pool.clientrio i) [
      | some rio ↦
          if ltb 0 connfd && w.pool.ready_set connfd then serve_client i connfd rio w else w
      | none ↦ w
    ]
    | some none ↦ w
    | none ↦ w
  ]

  -- The loop, from index `i` for at most `n` rounds.
  pub check_from : ℕ → ℕ → World Rio Conn → World Rio Conn
  check_from zero i w = w
  check_from (suc n) i w =
      let rest = check_from n (i + 1) (check_one i w) in if ltb 0 w.pool.nready then rest else w

  pub check_clients : World Rio Conn → World Rio Conn
  check_clients w = check_from w.pool.maxi 0 w

  -- One round of the loop of `main`. `select` gives the ready set and its size, `accept` the
  -- descriptor of a new client. The descriptors that FD_ISSET and FD_CLR are given are in the pool.
  pub main_round :
      (ℕ → Rio) → ℕ → ((ℕ → Bool) → (ℕ → Bool) × ℕ) → ℕ → World Rio Conn → Option (World Rio Conn)
  main_round readinitb listenfd select accept w =
      let (ready, nready) = select w.pool.read_set in
      let p : Pool Rio = record w.pool { ready_set = ready; nready = nready } in
      elim (if ready listenfd then add_client readinitb accept p else some p) [
        | none ↦ none
        | some p' ↦ some (check_clients (record w { pool = p' }))
      ]
