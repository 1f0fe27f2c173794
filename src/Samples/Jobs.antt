-- ===== src/Samples/Jobs.antt =====
-- A small cron library that meets the laws.
use breckr.Base.{
  Text, codes, ℕ, suc, Option, none, some, [], ◌∷◌, Result, ok, err, ◌≡◌, ◌≢◌, refl, arith,
  if◌then◌else◌, nat_eq, ltb, ℕ_eq,
}
use breckr.Store.Database.{Error}
use breckr.Scheduler.Cron.{CronLib, Job}

-- The last id given out, and what each id up to it fires.
pub record Jobs : Type 0 where
  pub last : ℕ
  pub at : ℕ → Option Job

abbrev pub job_at : Jobs → ℕ → Option Job
job_at c j = if ltb c.last j then none else c.at j

abbrev pub add_job : Text → Job → Jobs → Jobs × Result Error ℕ
add_job [] f c = (c, err (codes "empty spec string"))
add_job (x ∷ xs) f c = (
  record { last = suc c.last; at = λ j. if nat_eq (suc c.last) j then some f else job_at c j },
  ok (suc c.last),
)

abbrev pub remove_job : ℕ → Jobs → Jobs
remove_job n c = record c { at = λ j. if nat_eq n j then none else c.at j }

pub add_job_ok :
    (expr : Text) (f : Job) (c : Jobs) (n : ℕ)
    → (add_job expr f c).1 ≡ ok n
    → (n ≢ 0)
      × (job_at c n ≡ none)
      × ((j : ℕ) → job_at (add_job expr f c).0 j ≡ (if nat_eq n j then some f else job_at c j))
add_job_ok [] f c n h = cc
add_job_ok (x ∷ xs) f c n h =
    let is : suc c.last ≡ n = cc in (ground arith, ground arith, λ j. ground arith)

pub add_job_err :
    (expr : Text) (f : Job) (c : Jobs) (x : Error)
    → (add_job expr f c).1 ≡ err x
    → (j : ℕ) → job_at (add_job expr f c).0 j ≡ job_at c j
add_job_err [] f c x h j = refl
add_job_err (y ∷ ys) f c x h j = cc

abbrev pub no_jobs : Jobs
no_jobs = record { last = 0; at = λ j. none }

pub job-new_jobs : (j : ℕ) → job_at no_jobs j ≡ none
job-new_jobs j = ground arith

pub job-remove_job :
    (n : ℕ) (c : Jobs) (j : ℕ)
    → job_at (remove_job n c) j ≡ (if nat_eq n j then none else job_at c j)
job-remove_job n c j = ground arith

abbrev pub jobs_lib : CronLib Jobs
jobs_lib = record {
  new = no_jobs;
  add_func = add_job;
  remove = remove_job;
  job = job_at;
  job-new = job-new_jobs;
  add_func_ok = add_job_ok;
  add_func_err = add_job_err;
  job-remove = job-remove_job;
}
