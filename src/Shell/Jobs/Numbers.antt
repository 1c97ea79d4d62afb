-- ===== src/Shell/Jobs/Numbers.antt =====
-- The job numbers that `addjob` gives out.
use mathlib.Core.Path.{subst}
use csapp_code.Prelude.{
  if◌then◌else◌, ◌<◌, ℕ, ◌≤◌, ◌≡◌, ◌≢◌, true, some, none, List, arith, ◌==◌, length,
}
use csapp_code.Shell.Jobs.{Job, Table, State, max_jobs, max_line, addjob, find_pid, getjobpid}
use csapp_code.Shell.Jobs.Laws.{IsTable, addjob-Added, new_job}

-- A successful `addjob` sets the next number to 1 once the number it used is 16 or more.
addjob-nextjid :
    (t t' : Table) (pid : ℕ) (state : State) (cmdline : List ℕ)
    → max_jobs ≤ t.nextjid
    → addjob t pid state cmdline ≡ some (true, t')
    → t'.nextjid ≡ 1
unfolding addjob
addjob-nextjid t t' pid state cmdline h e = ground arith

-- What a successful `addjob` does to the lookup.
addjob_lookup :
    (t t' : Table) (pid : ℕ) (state : State) (cmdline : List ℕ)
    → IsTable t
    → find_pid pid t.jobs ≡ none
    → length cmdline < max_line
    → addjob t pid state cmdline ≡ some (true, t')
    → IsTable t'
      × ((p : ℕ)
          → getjobpid t'.jobs p
            ≡ (if pid == p then some (new_job t pid state cmdline) else getjobpid t.jobs p))
addjob_lookup t t' pid state cmdline v fresh short e =
    let a = addjob-Added t pid state cmdline v fresh short in
    let same : (a.added ≡ true) × (a.after ≡ t') = ground (arith, a.returns) in
    (subst IsTable same.1 a.valid, λ p. rw (← same.1) (ground (arith, a.lookup p, same.0)))

-- Job numbers are not unique. If job 1 is alive and the next number is 16 or more, then after two
-- more successful calls of `addjob` with new pids, the second new job and job 1 have one number.
pub addjob_repeats_number :
    (t t₁ t₂ : Table) (pid₁ pid₂ old : ℕ) (s₁ s₂ : State) (c₁ c₂ : List ℕ) (job : Job)
    → IsTable t
    → max_jobs ≤ t.nextjid
    → getjobpid t.jobs old ≡ some job
    → job.jid ≡ 1
    → find_pid pid₁ t.jobs ≡ none
    → find_pid pid₂ t₁.jobs ≡ none
    → pid₁ ≢ old
    → pid₂ ≢ old
    → length c₁ < max_line
    → length c₂ < max_line
    → addjob t pid₁ s₁ c₁ ≡ some (true, t₁)
    → addjob t₁ pid₂ s₂ c₂ ≡ some (true, t₂)
    → (a b : Job) × (getjobpid t₂.jobs old ≡ some a)
      × (getjobpid t₂.jobs pid₂ ≡ some b)
      × (a.jid ≡ b.jid)
addjob_repeats_number t t₁ t₂ pid₁ pid₂ old s₁ s₂ c₁ c₂ job v big alive one f₁ f₂ n₁ n₂ l₁ l₂ e₁
      e₂ =
    let (v₁, at₁) = addjob_lookup t t₁ pid₁ s₁ c₁ v f₁ l₁ e₁ in
    let (v₂, at₂) = addjob_lookup t₁ t₂ pid₂ s₂ c₂ v₁ f₂ l₂ e₂ in
    (
      job,
      new_job t₁ pid₂ s₂ c₂,
      ground (arith, at₁ old, at₂ old),
      ground (arith, at₂ pid₂),
      ground (arith, addjob-nextjid t t₁ pid₁ s₁ c₁),
    )
