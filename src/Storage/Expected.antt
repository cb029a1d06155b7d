-- ===== src/Storage/Expected.antt =====
-- What the job store is to make of jobs, said apart from its code: the fields of a job that is added or
-- updated, and which jobs a cleanup takes for expired.
use siger_api_gateway.Common.{
  ℕ, ◌+◌, ◌*◌, ◌≡◌, refl, ◌==◌, ◌&&◌, ◌||◌, not, String, Bool, [], ◌∷◌, Map, arith, if◌then◌else◌,
  Time, is_zero, is_before, hour, ltb, eqb, Bool-cases, inl, inr, eq-cases, subst, sym, ap, ◌-◌,
}
use siger_api_gateway.Storage.{JobInfo, updated, with_defaults, is_expired}

-- Whether a status ends a job.
abbrev pub is_ended : String → Bool
is_ended status = status == "completed" || (status == "failed" || status == "cancelled")

-- A job with a new status: the message is new, the start is set once, when processing begins, and the end
-- whenever a status ends the job; the rest stays.
abbrev pub as_updated : Time → String → String → JobInfo → JobInfo
as_updated now status message job = record {
  job_id = job.job_id;
  user_id = job.user_id;
  type = job.type;
  name = job.name;
  status = status;
  submitted_at = job.submitted_at;
  started_at = if status == "processing" && eqb job.started_at 0 then now else job.started_at;
  completed_at = if is_ended status then now else job.completed_at;
  message = message;
}

-- A job as it is added: an empty status is "queued", and a zero time of submission is now.
abbrev pub as_added : Time → JobInfo → JobInfo
as_added now job = record {
  job_id = job.job_id;
  user_id = job.user_id;
  type = job.type;
  name = job.name;
  status = if job.status == "" then "queued" else job.status;
  submitted_at = if eqb job.submitted_at 0 then now else job.submitted_at;
  started_at = job.started_at;
  completed_at = job.completed_at;
  message = job.message;
}

-- An expired job has ended, at a known time more than a day ago.
abbrev pub has_expired : Time → JobInfo → Bool
has_expired now job =
    is_ended job.status && (not (eqb job.completed_at 0) && ltb (job.completed_at + 24 * hour) now)

-- How many jobs have not expired.
unfoldable pub count_fresh : Time → Map JobInfo → ℕ
count_fresh now [] = 0
count_fresh now ((k, job) ∷ m) = (if has_expired now job then 0 else 1) + count_fresh now m

pub updated-as_updated :
    (now : Time) (status message : String) (job : JobInfo)
    → updated now status message job ≡ as_updated now status message job
unfolding updated
updated-as_updated now status message job = elim (eq-cases status "processing") [
  | inl (e, _) ↦
      subst (λ st. updated now st message job ≡ as_updated now st message job) (sym e)
        (elim (Bool-cases (is_zero job.started_at)) [ inl z ↦ rw z refl | inr z ↦ rw z refl ])
  | inr (_, t) ↦ elim (Bool-cases (is_ended status)) [
    | inl b ↦ rw (t, b) refl
    | inr b ↦ rw (t, b) refl
  ]
]

pub with_defaults-as_added : (now : Time) (job : JobInfo) → with_defaults now job ≡ as_added now job
with_defaults-as_added now job = refl

pub is_expired-has_expired : (now : Time) (job : JobInfo) → is_expired now job ≡ has_expired now job
is_expired-has_expired now job =
    ap (λ old. is_ended job.status && (not (is_zero job.completed_at) && old))
      (day now job.completed_at)
  where
    day : (t c : Time) → is_before c (t - 24 * hour) ≡ ltb (c + 24 * hour) t
    day t c = ground arith
