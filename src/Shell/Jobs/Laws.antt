-- ===== src/Shell/Jobs/Laws.antt =====
-- The operations of the job list on a whole table: `addjob`, `deletejob` and the lookups.
use mathlib.Core.Path.{subst}
use csapp_code.Prelude.{
  inr, inl, ℕ, ◌+◌, ◌^◌, ◌<◌, ◌≡◌, refl, ◌∙◌, ◌≢◌, Bool, true, false, not, ◌&&◌, Option, none, some,
  List, [], ◌∷◌, arith, ltb, ◌==◌, if◌then◌else◌, length, All, Bool-cases, Option-cases,
}
use mathlib.Core.Option.{some_inj}
use csapp_code.Shell.Jobs.{
  Job, Table, State, max_jobs, max_line, not_positive, is_fg, place, addjob, remove, deletejob,
  fgpid, find_pid, getjobpid, maxjid,
}
use csapp_code.Shell.Jobs.Scan.{
  HasUniquePids, IsTidy, has_free, place-none, place-free, place-Placed, remove-none, remove-some,
  remove-Removed, HasMax, maxjid-HasMax,
}

abbrev pub HasSignedPids : List Job → Type 0
HasSignedPids js = All (λ (j : Job). j.pid < 2 ^ 31) js

-- The invariant of the job list.
pub record IsTable (t : Table) : Type 0 where
  pub size : length t.jobs ≡ max_jobs
  pub unique : HasUniquePids t.jobs
  pub tidy : IsTidy t.jobs
  pub signed : HasSignedPids t.jobs

pub is_some {ℓ} : {A : Type ℓ} → Option A → Bool
is_some none = false
is_some (some a) = true

place-signed :
    (new : Job) (js js' : List Job)
    → new.pid < 2 ^ 31
    → HasSignedPids js
    → place new js ≡ some js'
    → HasSignedPids js'
unfolding place
place-signed new [] js' h s e = cc
place-signed new (j ∷ js) js' h s e = elim (Bool-cases (j.pid == 0)) [
  | inl free ↦ subst HasSignedPids (some_inj.0 (rw free at e)) (h, s.1)
  | inr taken ↦ elim (Option-cases (place new js)) [
    | inl gone ↦ cc (rw (taken, gone) at e)
    | inr (ks, found) ↦
        subst HasSignedPids (some_inj.0 (rw (taken, found) at e))
          (s.0, place-signed new js ks h s.1 found)
  ]
]

remove-signed :
    (pid : ℕ) (js js' : List Job) → HasSignedPids js → remove pid js ≡ some js' → HasSignedPids js'
unfolding remove
remove-signed pid [] js' s e = cc
remove-signed pid (j ∷ js) js' s e = elim (Bool-cases (j.pid == pid)) [
  | inl here ↦ subst HasSignedPids (some_inj.0 (rw here at e)) (omega arith, s.1)
  | inr there ↦ elim (Option-cases (remove pid js)) [
    | inl gone ↦ cc (rw (there, gone) at e)
    | inr (ks, found) ↦
        subst HasSignedPids (some_inj.0 (rw (there, found) at e))
          (s.0, remove-signed pid js ks s.1 found)
  ]
]

-- The job that `addjob` makes.
abbrev pub new_job : Table → ℕ → State → List ℕ → Job
new_job t pid state cmdline = record {
  pid = pid;
  jid = t.nextjid;
  state = state;
  cmdline = cmdline;
}

-- How `addjob` ends: what it returns, and the table that it leaves.
pub record Added (t : Table) (pid : ℕ) (state : State) (cmdline : List ℕ) : Type 0 where
  pub added : Bool
  pub after : Table
  pub returns : addjob t pid state cmdline ≡ some (added, after)
  pub accepts : added ≡ (not (not_positive pid) && has_free t.jobs)
  pub valid : IsTable after
  pub unchanged : added ≡ false → after ≡ t
  pub lookup :
      (p : ℕ)
      → getjobpid after.jobs p
        ≡ (if added && pid == p then some (new_job t pid state cmdline) else getjobpid t.jobs p)
  pub undo : added ≡ true → remove pid after.jobs ≡ some t.jobs

addjob_success :
    (t : Table) (pid : ℕ) (state : State) (cmdline : List ℕ) (js : List Job)
    → IsTable t
    → find_pid pid t.jobs ≡ none
    → length cmdline < max_line
    → not_positive pid ≡ false
    → place (new_job t pid state cmdline) t.jobs ≡ some js
    → Added t pid state cmdline
addjob_success t pid state cmdline js v fresh short pos found =
    let new = new_job t pid state cmdline in
    let p = place-Placed new t.jobs js (ground arith) v.unique v.tidy fresh found in
    record {
      added = true;
      after = record {
        jobs = js;
        nextjid = if ltb max_jobs (t.nextjid + 1) then 1 else t.nextjid + 1;
      };
      returns = unfold addjob in rw (pos, found, addjob) (ground arith);
      accepts = ground (arith, place-free new t.jobs js found);
      valid = record {
        size = p.same_length ∙ v.size;
        unique = p.unique;
        tidy = p.tidy;
        signed = place-signed new t.jobs js (ground arith) v.signed found;
      };
      unchanged = λ h. cc h;
      lookup = λ q. unfold getjobpid in ground (arith, p.lookup q);
      undo = λ h. p.undo;
    }

-- `addjob` with a pid that no job has and a command line that fits adds the job exactly when the
-- pid is positive and an entry is free. It returns whether it did; if not, the table is as before.
-- A lookup by pid then finds the new job, and every other job as before. The invariant holds again.
pub addjob-Added :
    (t : Table) (pid : ℕ) (state : State) (cmdline : List ℕ)
    → IsTable t
    → find_pid pid t.jobs ≡ none
    → length cmdline < max_line
    → Added t pid state cmdline
addjob-Added t pid state cmdline v fresh short = elim (Bool-cases (not_positive pid)) [
  | inl bad ↦ record {
    added = false;
    after = t;
    returns = unfold addjob in rw bad;
    accepts = rw bad;
    valid = v;
    unchanged = λ h. refl;
    lookup = λ p. refl;
    undo = λ h. cc h;
  }
  | inr pos ↦ elim (Option-cases (place (new_job t pid state cmdline) t.jobs)) [
    | inl full ↦ record {
      added = false;
      after = t;
      returns = unfold addjob in rw (pos, full, addjob);
      accepts = rw (pos, place-none (new_job t pid state cmdline) t.jobs full);
      valid = v;
      unchanged = λ h. refl;
      lookup = λ p. refl;
      undo = λ h. cc h;
    }
    | inr (js, found) ↦ addjob_success t pid state cmdline js v fresh short pos found
  ]
]

-- How `deletejob` leaves the table.
pub record Deleted (t : Table) (pid : ℕ) : Type 0 where
  pub valid : IsTable (deletejob t pid).1
  pub reports : (deletejob t pid).0 ≡ is_some (getjobpid t.jobs pid)
  pub lookup :
      (p : ℕ)
      → getjobpid (deletejob t pid).1.jobs p ≡ (if pid == p then none else getjobpid t.jobs p)
  pub unchanged : (deletejob t pid).0 ≡ false → (deletejob t pid).1 ≡ t
  pub new_number :
      (deletejob t pid).0 ≡ true
      → All (λ (j : Job). j.jid < (deletejob t pid).1.nextjid) (deletejob t pid).1.jobs

HasMax-lt : (m : ℕ) (js : List Job) → HasMax m js → All (λ (j : Job). j.jid < m + 1) js
HasMax-lt m [] h = tt
HasMax-lt m (j ∷ js) h = (omega arith, HasMax-lt m js h.1)

deletejob_success :
    (t : Table) (pid : ℕ) (js : List Job)
    → IsTable t
    → not_positive pid ≡ false
    → remove pid t.jobs ≡ some js
    → Deleted t pid
deletejob_success t pid js v pos found =
    let r = remove-Removed pid t.jobs js (ground arith) v.unique v.tidy found in
    let t' : Table = record { jobs = js; nextjid = maxjid js + 1 } in
    let step : deletejob t pid ≡ (true, t') = unfold deletejob in rw (pos, found, deletejob) in
    let (j, here) = remove-some pid t.jobs js found in
    record {
      valid = rw step (record {
        size = r.same_length ∙ v.size;
        unique = r.unique;
        tidy = r.tidy;
        signed = remove-signed pid t.jobs js v.signed found;
      });
      reports = rw step (unfold getjobpid is_some in rw (pos, here));
      lookup = λ p. rw step (unfold getjobpid in ground (arith, r.lookup p));
      unchanged = λ h. cc (rw step at h);
      new_number = λ h. rw step (HasMax-lt (maxjid js) js (maxjid-HasMax js));
    }

-- `deletejob` returns whether a lookup by the pid finds a job. It clears that job and no other, so
-- that the pid is no longer found and each other pid as before; the table is as before if it returns
-- false. After a deletion the next job number is above the number of every job that is left.
pub deletejob-Deleted : (t : Table) (pid : ℕ) → IsTable t → Deleted t pid
deletejob-Deleted t pid v = elim (Bool-cases (not_positive pid)) [
  | inl bad ↦
      let step : deletejob t pid ≡ (false, t) = unfold deletejob in rw bad in
      record {
        valid = rw step v;
        reports = rw step (unfold getjobpid is_some in rw bad);
        lookup = λ p. rw step (unfold getjobpid in ground arith);
        unchanged = λ h. rw step;
        new_number = λ h. cc (rw step at h);
      }
  | inr pos ↦ elim (Option-cases (remove pid t.jobs)) [
    | inl gone ↦
        let step : deletejob t pid ≡ (false, t) = unfold deletejob in rw (pos, gone, deletejob) in
        record {
          valid = rw step v;
          reports = rw step (unfold getjobpid is_some in rw (pos, remove-none pid t.jobs gone));
          lookup = λ p. rw step (unfold getjobpid in ground (arith, remove-none pid t.jobs gone));
          unchanged = λ h. rw step;
          new_number = λ h. cc (rw step at h);
        }
    | inr (js, found) ↦ deletejob_success t pid js v pos found
  ]
]

-- Deleting the job that `addjob` has just added gives the array back as it was, and returns true.
pub deletejob-addjob :
    (t t' : Table) (pid : ℕ) (state : State) (cmdline : List ℕ)
    → IsTable t
    → find_pid pid t.jobs ≡ none
    → length cmdline < max_line
    → addjob t pid state cmdline ≡ some (true, t')
    → ((deletejob t' pid).0 ≡ true) × ((deletejob t' pid).1.jobs ≡ t.jobs)
deletejob-addjob t t' pid state cmdline v fresh short e =
    let a = addjob-Added t pid state cmdline v fresh short in
    let same : (a.added ≡ true) × (a.after ≡ t') = ground (arith, a.returns) in
    let back : remove pid t'.jobs ≡ some t.jobs = rw (← same.1) (a.undo same.0) in
    let pos : not_positive pid ≡ false = ground (arith, a.accepts) in
    unfold deletejob in ground (arith, back)

fgpid_here : (j : Job) (js : List Job) → is_fg j.state ≡ true → fgpid (j ∷ js) ≡ j.pid
unfolding fgpid
fgpid_here j js e = rw e

fgpid_skip : (j : Job) (js : List Job) → is_fg j.state ≡ false → fgpid (j ∷ js) ≡ fgpid js
unfolding fgpid
fgpid_skip j js e = rw e

fgpid_found :
    (js : List Job)
    → HasUniquePids js
    → HasSignedPids js
    → fgpid js ≢ 0
    → (j : Job) × (getjobpid js (fgpid js) ≡ some j) × (is_fg j.state ≡ true)
unfolding getjobpid find_pid
fgpid_found [] u s h = absurd (h (unfold fgpid in refl))
fgpid_found (j ∷ js) u s h = elim (Bool-cases (is_fg j.state)) [
  | inl here ↦ (j, ground (arith, fgpid_here j js here), here)
  | inr there ↦
      let skip = fgpid_skip j js there in
      let (k, found, is) = fgpid_found js u.1 s.1 (λ e. h (skip ∙ e)) in
      (k, ground (arith, skip, found, u.0), is)
]

-- On a valid table a pid that `fgpid` returns, if not 0, is one by which `getjobpid` finds a job in
-- the foreground.
pub fgpid_job :
    (t : Table)
    → IsTable t
    → fgpid t.jobs ≢ 0
    → (j : Job) × (getjobpid t.jobs (fgpid t.jobs) ≡ some j) × (is_fg j.state ≡ true)
fgpid_job t v h = fgpid_found t.jobs v.unique v.signed h
