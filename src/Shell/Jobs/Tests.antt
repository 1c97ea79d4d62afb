-- ===== src/Shell/Jobs/Tests.antt =====
-- Tests of the job list, and its theorems at concrete inputs.
use csapp_code.Prelude.{
  zero, suc, ◌+◌, ◌++◌, ◌++◌, ◌+◌, suc, ℕ, ◌≡◌, refl, true, none, some, [], ◌∷◌, arith, replicate,
}
use csapp_code.Shell.Jobs.{
  Job, Table, State, fg, bg, clear_job, initjobs, place, addjob, remove, deletejob, find_pid,
  getjobjid, find_jid, pid2jid, maxjid, maxjid_from,
}
use csapp_code.Shell.Jobs.Laws.{IsTable, Added, addjob-Added, Deleted, deletejob-Deleted}

abbrev none_yet : Table
none_yet = record { jobs = replicate 16 clear_job; nextjid = 1 }

abbrev job : ℕ → ℕ → State → Job
job pid jid state = record { pid = pid; jid = jid; state = state; cmdline = b'a' ∷ [] }

abbrev two_jobs : Table
two_jobs = record { jobs = job 70 1 bg ∷ job 80 2 fg ∷ replicate 14 clear_job; nextjid = 3 }

two_jobs-IsTable : IsTable two_jobs
unfolding find_pid
two_jobs-IsTable = record {
  size = refl;
  unique = grind arith;
  tidy = grind arith;
  signed = omega arith;
}

initjobs_clears : initjobs two_jobs.jobs ≡ none_yet.jobs
unfolding initjobs
initjobs_clears = refl

adds_third :
    addjob two_jobs 90 bg (b'a' ∷ [])
    ≡ some (
      true,
      record {
        jobs = job 70 1 bg ∷ job 80 2 fg ∷ job 90 3 bg ∷ replicate 13 clear_job;
        nextjid = 4;
      },
    )
unfolding addjob place
adds_third = refl

deletes_first :
    deletejob two_jobs 70
    ≡ (true, record { jobs = clear_job ∷ job 80 2 fg ∷ replicate 14 clear_job; nextjid = 3 })
unfolding deletejob remove maxjid maxjid_from
deletes_first = refl

lookups : (pid2jid two_jobs.jobs 80 ≡ 2) × (getjobjid two_jobs.jobs 1 ≡ some (job 70 1 bg))
unfolding pid2jid getjobjid find_pid find_jid
lookups = (refl, refl)

addjob-Added_example : Added two_jobs 90 bg (b'a' ∷ [])
unfolding find_pid
addjob-Added_example = addjob-Added two_jobs 90 bg (b'a' ∷ []) two_jobs-IsTable refl (omega arith)

deletejob-Deleted_example : Deleted two_jobs 70
deletejob-Deleted_example = deletejob-Deleted two_jobs 70 two_jobs-IsTable

abbrev three_jobs : Table
three_jobs = record {
  jobs = job 70 1 bg ∷ job 80 2 fg ∷ job 90 3 bg ∷ replicate 13 clear_job;
  nextjid = 4;
}

-- Sixteen jobs were added, and all but the first and the last were deleted.
abbrev add_all : ℕ → Table → Table
add_all zero t = t
add_all (suc n) t = elim (addjob t (100 + n) bg []) [ some (ok, t') ↦ add_all n t' | none ↦ t ]

abbrev delete_all : ℕ → Table → Table
delete_all zero t = t
delete_all (suc n) t = delete_all n (deletejob t (101 + n)).1

abbrev bare : ℕ → ℕ → Job
bare pid jid = record { pid = pid; jid = jid; state = bg; cmdline = [] }

abbrev first_and_last : Table
first_and_last = record {
  jobs = bare 115 1 ∷ replicate 14 clear_job ++ (bare 100 16 ∷ []);
  nextjid = 17;
}

first_and_last_reached : delete_all 14 (add_all 16 none_yet) ≡ first_and_last
unfolding addjob place deletejob remove maxjid maxjid_from
first_and_last_reached = refl

first_and_last-IsTable : IsTable first_and_last
unfolding find_pid
first_and_last-IsTable = record {
  size = refl;
  unique = grind arith;
  tidy = grind arith;
  signed = omega arith;
}

abbrev two_more : Table
two_more = record {
  jobs = bare 115 1 ∷ bare 200 17 ∷ bare 201 1 ∷ replicate 12 clear_job ++ (bare 100 16 ∷ []);
  nextjid = 2;
}
