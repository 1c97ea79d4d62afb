-- ===== src/Shell/Jobs.antt =====
-- The helper routines of tsh.c on the job list. A `pid_t` is its 32-bit pattern. The array `jobs`
-- and the global `nextjid` are one record. Job numbers stay far below 2 ^ 31, and are plain numbers.
-- A command line is the list of its bytes without the zero; `none` stands for the `strcpy` of one
-- that does not fit its array. The messages that the code prints are left out.
pub mod Scan
pub mod Laws
pub mod Numbers
mod Tests
use csapp_code.Prelude.{
  ℕ, zero, suc, ◌+◌, ◌^◌, ◌≤◌, ◌<◌, ◌≡◌, Bool, true, false, ◌||◌, not, Option, none, some, List, [],
  ◌∷◌, ltb, leb, ◌==◌, if◌then◌else◌, length, replicate,
}

pub data State : Type 0 where
  undef fg bg st : State

pub record Job : Type 0 where
  pub pid : ℕ
  pub jid : ℕ
  pub state : State
  pub cmdline : List ℕ

pub record Table : Type 0 where
  pub jobs : List Job
  pub nextjid : ℕ

abbrev pub max_jobs : ℕ
max_jobs = 16

abbrev pub max_line : ℕ
max_line = 1024

-- `pid < 1` on a signed value.
abbrev pub not_positive : ℕ → Bool
not_positive p = p == 0 || leb (2 ^ 31) p

abbrev pub is_fg : State → Bool
is_fg fg = true
is_fg _ = false

-- What `clearjob` leaves of a job.
abbrev pub clear_job : Job
clear_job = record { pid = 0; jid = 0; state = undef; cmdline = [] }

abbrev pub clearjob : Job → Job
clearjob j = clear_job

-- The loop over the array, one `clearjob` for each entry.
pub initjobs : List Job → List Job
initjobs [] = []
initjobs (j ∷ js) = clearjob j ∷ initjobs js

-- The loop of `maxjid` with the running maximum.
pub maxjid_from : ℕ → List Job → ℕ
maxjid_from top [] = top
maxjid_from top (j ∷ js) = maxjid_from (if ltb top j.jid then j.jid else top) js

pub maxjid : List Job → ℕ
maxjid js = maxjid_from 0 js

-- The loop of `addjob`: the array with the first free entry filled.
pub place : Job → List Job → Option (List Job)
place new [] = none
place new (j ∷ js) =
    let rest = place new js in
    if j.pid == 0 then some (new ∷ js) else elim rest [ none ↦ none | some js' ↦ some (j ∷ js') ]

pub addjob : Table → ℕ → State → List ℕ → Option (Bool × Table)
addjob t pid state cmdline =
    if not_positive pid
    then some (false, t)
    else (elim (place (record { pid = pid; jid = t.nextjid; state = state; cmdline = cmdline })
        t.jobs) [
          | none ↦ some (false, t)
          | some js ↦
              if ltb (length cmdline) max_line
              then some (
                true,
                record {
                  jobs = js;
                  nextjid = if ltb max_jobs (t.nextjid + 1) then 1 else t.nextjid + 1;
                },
              )
              else none
        ])

-- The loop of `deletejob`: the array with the first job of that pid cleared.
pub remove : ℕ → List Job → Option (List Job)
remove pid [] = none
remove pid (j ∷ js) =
    let rest = remove pid js in
    if j.pid == pid
    then some (clearjob j ∷ js)
    else elim rest [ none ↦ none | some js' ↦ some (j ∷ js') ]

pub deletejob : Table → ℕ → Bool × Table
deletejob t pid = if not_positive pid then (false, t) else (elim (remove pid t.jobs) [
  | none ↦ (false, t)
  | some js ↦ (true, record { jobs = js; nextjid = maxjid js + 1 })
])

-- 0 if there is no foreground job.
pub fgpid : List Job → ℕ
fgpid [] = 0
fgpid (j ∷ js) = let rest = fgpid js in if is_fg j.state then j.pid else rest

-- The first job that passes the test, as the loops of the two lookups find it.
pub find_pid : ℕ → List Job → Option Job
find_pid pid [] = none
find_pid pid (j ∷ js) = let rest = find_pid pid js in if j.pid == pid then some j else rest

pub find_jid : ℕ → List Job → Option Job
find_jid jid [] = none
find_jid jid (j ∷ js) = let rest = find_jid jid js in if j.jid == jid then some j else rest

pub getjobpid : List Job → ℕ → Option Job
getjobpid js pid = if not_positive pid then none else find_pid pid js

pub getjobjid : List Job → ℕ → Option Job
getjobjid js jid = if not_positive jid then none else find_jid jid js

pub pid2jid : List Job → ℕ → ℕ
pid2jid js pid =
    if not_positive pid then 0 else elim (find_pid pid js) [ none ↦ 0 | some j ↦ j.jid ]

-- A line of `listjobs`: the job number, the pid, the word for the state and the command line.
pub record Listed : Type 0 where
  pub jid : ℕ
  pub pid : ℕ
  pub state : State
  pub cmdline : List ℕ

pub listjobs : List Job → List Listed
listjobs [] = []
listjobs (j ∷ js) =
    if not (j.pid == 0)
    then record { jid = j.jid; pid = j.pid; state = j.state; cmdline = j.cmdline } ∷ listjobs js
    else listjobs js
