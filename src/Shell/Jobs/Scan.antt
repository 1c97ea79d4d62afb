-- ===== src/Shell/Jobs/Scan.antt =====
-- What the loops over the job array do to the lookup by pid.
use mathlib.Core.Path.{subst}
use csapp_code.Prelude.{
  inr, inl, ℕ, suc, ◌≤◌, ◌≡◌, refl, ap, ◌≢◌, Bool, true, false, none, some, List, [], ◌∷◌, arith,
  ltb, ◌==◌, if◌then◌else◌, length, All, Bool-cases, Option-cases,
}
use mathlib.Core.Option.{some_inj}
use csapp_code.Shell.Jobs.{Job, clear_job, place, remove, find_pid, maxjid_from, maxjid}

-- No two jobs have one pid; free entries do not count.
abbrev pub HasUniquePids : List Job → Type 0
HasUniquePids [] = Unit
HasUniquePids (j ∷ js) = (j.pid ≢ 0 → find_pid j.pid js ≡ none) × HasUniquePids js

-- A free entry is as `clearjob` leaves it.
abbrev pub IsTidy : List Job → Type 0
IsTidy [] = Unit
IsTidy (j ∷ js) = (j.pid ≡ 0 → j ≡ clear_job) × IsTidy js

abbrev pub has_free : List Job → Bool
has_free [] = false
has_free (j ∷ js) = if j.pid == 0 then true else has_free js

-- The array after a job was placed in it, against the array before.
pub record Placed (new : Job) (js js' : List Job) : Type 0 where
  pub same_length : length js' ≡ length js
  pub unique : HasUniquePids js'
  pub tidy : IsTidy js'
  pub lookup : (p : ℕ) → p ≢ 0 → find_pid p js' ≡ (if new.pid == p then some new else find_pid p js)
  pub undo : remove new.pid js' ≡ some js

pub place-none : (new : Job) (js : List Job) → place new js ≡ none → has_free js ≡ false
unfolding place
place-none new [] e = refl
place-none new (j ∷ js) e = ground (arith, place-none new js)

pub place-free : (new : Job) (js js' : List Job) → place new js ≡ some js' → has_free js ≡ true
unfolding place
place-free new [] js' e = cc
place-free new (j ∷ js) js' e = elim (Option-cases (place new js)) [
  | inl gone ↦ ground arith
  | inr (ks, found) ↦ ground (arith, place-free new js ks found)
]

Placed-head :
    (new j : Job) (js : List Job)
    → new.pid ≢ 0
    → HasUniquePids (j ∷ js)
    → IsTidy (j ∷ js)
    → find_pid new.pid (j ∷ js) ≡ none
    → j.pid ≡ 0
    → Placed new (j ∷ js) (new ∷ js)
unfolding find_pid remove
Placed-head new j js pos u t fresh free = record {
  same_length = refl;
  unique = (λ h. ground arith, u.1);
  tidy = (λ h. absurd (pos h), t.1);
  lookup = λ p h. ground arith;
  undo = ground (arith, t.0 free);
}

Placed-cons :
    (new j : Job) (js js' : List Job)
    → HasUniquePids (j ∷ js)
    → IsTidy (j ∷ js)
    → find_pid new.pid (j ∷ js) ≡ none
    → j.pid ≢ 0
    → Placed new js js'
    → Placed new (j ∷ js) (j ∷ js')
unfolding find_pid remove
Placed-cons new j js js' u t fresh taken r = record {
  same_length = ap suc r.same_length;
  unique = (λ h. ground (arith, u.0 h, r.lookup j.pid h), r.unique);
  tidy = (t.0, r.tidy);
  lookup = λ p h. ground (arith, r.lookup p h);
  undo = ground (arith, r.undo);
}

-- A job with a new pid goes to the first free entry.
pub place-Placed :
    (new : Job) (js js' : List Job)
    → new.pid ≢ 0
    → HasUniquePids js
    → IsTidy js
    → find_pid new.pid js ≡ none
    → place new js ≡ some js'
    → Placed new js js'
unfolding place
place-Placed new [] js' pos u t fresh e = cc
place-Placed new (j ∷ js) js' pos u t fresh e = elim (Bool-cases (j.pid == 0)) [
  | inl free ↦
      subst (Placed new (j ∷ js)) (some_inj.0 (rw free at e))
        (Placed-head new j js pos u t fresh (ground arith))
  | inr taken ↦ elim (Option-cases (place new js)) [
    | inl gone ↦ cc (rw (taken, gone) at e)
    | inr (ks, found) ↦ subst (Placed new (j ∷ js)) (some_inj.0 (rw (taken, found) at e)) (
        Placed-cons new j js ks u t fresh (ground arith)
          (place-Placed new js ks pos u.1 t.1 (unfold find_pid in ground arith) found))
  ]
]

-- The array after the job of a pid was cleared.
pub record Removed (pid : ℕ) (js js' : List Job) : Type 0 where
  pub same_length : length js' ≡ length js
  pub unique : HasUniquePids js'
  pub tidy : IsTidy js'
  pub lookup : (p : ℕ) → p ≢ 0 → find_pid p js' ≡ (if pid == p then none else find_pid p js)

pub remove-none : (pid : ℕ) (js : List Job) → remove pid js ≡ none → find_pid pid js ≡ none
unfolding remove find_pid
remove-none pid [] e = refl
remove-none pid (j ∷ js) e = ground (arith, remove-none pid js)

pub remove-some :
    (pid : ℕ) (js js' : List Job)
    → remove pid js ≡ some js'
    → (j : Job) × (find_pid pid js ≡ some j)
unfolding remove find_pid
remove-some pid [] js' e = absurd (cc)
remove-some pid (j ∷ js) js' e = elim (Bool-cases (j.pid == pid)) [
  | inl here ↦ (j, rw here)
  | inr there ↦ elim (Option-cases (remove pid js)) [
    | inl gone ↦ cc (rw (there, gone) at e)
    | inr (ks, found) ↦ rw there (remove-some pid js ks found)
  ]
]

pub remove-Removed :
    (pid : ℕ) (js js' : List Job)
    → pid ≢ 0
    → HasUniquePids js
    → IsTidy js
    → remove pid js ≡ some js'
    → Removed pid js js'
unfolding remove find_pid
remove-Removed pid [] js' pos u t e = cc
remove-Removed pid (j ∷ js) js' pos u t e = elim (Bool-cases (j.pid == pid)) [
  | inl here ↦ subst (Removed pid (j ∷ js)) (some_inj.0 (rw here at e)) (record {
    same_length = refl;
    unique = (λ h. absurd (h refl), u.1);
    tidy = (λ h. refl, t.1);
    lookup = λ p h. ground (arith, u.0);
  })
  | inr there ↦ elim (Option-cases (remove pid js)) [
    | inl gone ↦ cc (rw (there, gone) at e)
    | inr (ks, found) ↦
        let r = remove-Removed pid js ks pos u.1 t.1 found in
        subst (Removed pid (j ∷ js)) (some_inj.0 (rw (there, found) at e)) (record {
          same_length = ap suc r.same_length;
          unique = (λ h. ground (arith, u.0 h, r.lookup j.pid h), r.unique);
          tidy = (t.0, r.tidy);
          lookup = λ p h. ground (arith, r.lookup p h);
        })
  ]
]

abbrev pub HasMax : ℕ → List Job → Type 0
HasMax m js = All (λ (j : Job). j.jid ≤ m) js

maxjid_from-HasMax :
    (top : ℕ) (js : List Job) → (top ≤ maxjid_from top js) × HasMax (maxjid_from top js) js
unfolding maxjid_from
maxjid_from-HasMax top [] = (omega arith, tt)
maxjid_from-HasMax top (j ∷ js) =
    let r = maxjid_from-HasMax (if ltb top j.jid then j.jid else top) js in
    (ground (arith, r.0), (ground (arith, r.0), r.1))

-- No job has a number above `maxjid`.
pub maxjid-HasMax : (js : List Job) → HasMax (maxjid js) js
unfolding maxjid
maxjid-HasMax js = (maxjid_from-HasMax 0 js).1
