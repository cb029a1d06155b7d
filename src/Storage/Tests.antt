-- ===== src/Storage/Tests.antt =====
-- The job store at concrete inputs.
use mathlib.Core.List.{Perm}
use siger_api_gateway.Common.{
  ◌+◌, ◌*◌, ◌≤◌, ◌<◌, ◌≡◌, refl, ◌⊎◌, String, true, List, [], ◌∷◌, arith, if◌then◌else◌, pos, hour,
  Time, ltb, ne_of_eq_false, lookup, store, delete, delete_all, contains, All, In, ◌↔◌,
}
use siger_api_gateway.Storage.Sort.{sort_jobs, IsSorted, sort_jobs-sorts}
use siger_api_gateway.Storage.{
  JobInfo, JobStore, JobStatus, ok, err, err_job_not_found, new_job_store, add_job, get_job,
  update_job_status, updated, list_jobs_by_user, list_jobs_by_status, delete_job, count,
  cleanup_old_jobs, job_status_queued, job_status_completed,
}
use siger_api_gateway.Storage.Invariant.{
  IsValid, IsProper, Call, adds, updates, cleans, perform, perform_all, perform_all-IsValid,
}
use siger_api_gateway.Storage.Expected.{has_expired, count_fresh}
use siger_api_gateway.Storage.Refinement.{Run, replies, view, perform_all_refines}
use siger_api_gateway.Storage.Listing.{listed_iff}
use siger_api_gateway.Storage.Cleanup.{count-cleanup_old_jobs, cleanup_old_jobs_loses}

storage : Unit {0}
unfolding new_job_store add_job get_job update_job_status updated list_jobs_by_user
    list_jobs_by_status delete_job count cleanup_old_jobs perform perform_all lookup store delete
    delete_all contains sort_jobs
storage = tt

abbrev job : String → String → JobStatus → Time → JobInfo
job id user status submitted = record {
  job_id = id;
  user_id = user;
  type = "inference";
  name = "n";
  status = status;
  submitted_at = submitted;
  started_at = 0;
  completed_at = 0;
  message = "";
}

abbrev day : Time
day = 24 * hour

-- A store for two jobs that was given three, one of which has ended.
abbrev history : List Call
history =
    adds 5 (job "a" "u" "" 0)
    ∷ adds 7 (job "b" "v" "" 0)
    ∷ adds 6 (job "c" "u" "" 0)
    ∷ updates 9 "c" job_status_completed "done"
    ∷ adds 3 (job "d" "u" "" 0)
    ∷ []

history-IsProper : All IsProper history
history-IsProper = (
  omega arith,
  (omega arith, (omega arith, (ne_of_eq_false job_status_completed "" refl, omega arith))),
)

example_store : JobStore
unfolding perform_all
example_store = perform_all (new_job_store (pos 2)) history

example_store-IsValid : IsValid example_store
unfolding example_store
example_store-IsValid = perform_all-IsValid (pos 2) history history-IsProper

abbrev stored : String → String → Time → JobInfo
stored id user submitted = record (job id user job_status_queued submitted) {
  submitted_at = submitted;
}

abbrev finished : JobInfo
finished = record (job "c" "u" job_status_completed 6) { completed_at = 9; message = "done" }

store_tests :
    (get_job "a" example_store ≡ ok (stored "a" "u" 5))
    × (get_job "c" example_store ≡ ok finished)
    × (get_job "e" example_store ≡ err err_job_not_found)
    × (count example_store ≡ 4)
    × (list_jobs_by_user "v" example_store ≡ stored "b" "v" 7 ∷ [])
    × (list_jobs_by_status job_status_completed example_store ≡ finished ∷ [])
    × (get_job "a" (delete_job "a" example_store) ≡ err err_job_not_found)
    × (update_job_status 9 "e" job_status_queued "" example_store ≡ err err_job_not_found)
unfolding example_store storage
store_tests = (refl, refl, refl, refl, refl, refl, refl, refl)

-- A day later "c" has expired, and of the three others the oldest, "d", goes.
cleaned : JobStore
unfolding cleanup_old_jobs
cleaned = cleanup_old_jobs (10 + day) example_store

cleanup_tests :
    (get_job "a" cleaned ≡ ok (stored "a" "u" 5))
    × (get_job "b" cleaned ≡ ok (stored "b" "v" 7))
    × (get_job "c" cleaned ≡ err err_job_not_found)
    × (get_job "d" cleaned ≡ err err_job_not_found)
unfolding cleaned example_store storage
cleanup_tests = (refl, refl, refl, refl)

d_test : get_job "d" example_store ≡ ok (stored "d" "u" 3)
unfolding example_store storage
d_test = refl

sort_jobs-sorts_example :
    IsSorted (sort_jobs (record { id = "x"; time = 4 } ∷ record { id = "y"; time = 1 } ∷ []))
    × Perm
        (sort_jobs (record { id = "x"; time = 4 } ∷ record { id = "y"; time = 1 } ∷ []))
        (record { id = "x"; time = 4 } ∷ record { id = "y"; time = 1 } ∷ [])
sort_jobs-sorts_example =
    sort_jobs-sorts (record { id = "x"; time = 4 } ∷ record { id = "y"; time = 1 } ∷ [])

perform_all-IsValid_example : IsValid (perform_all (new_job_store (pos 2)) history)
perform_all-IsValid_example = perform_all-IsValid (pos 2) history history-IsProper

count-cleanup_old_jobs_example :
    (count cleaned ≡ (
      if ltb example_store.max_jobs (count_fresh (10 + day) example_store.jobs)
      then example_store.max_jobs
      else count_fresh (10 + day) example_store.jobs))
    × (count cleaned ≤ example_store.max_jobs)
unfolding cleaned
count-cleanup_old_jobs_example =
    count-cleanup_old_jobs (10 + day) example_store example_store-IsValid

cleanup_old_jobs_loses_example :
    (has_expired (10 + day) (stored "d" "u" 3) ≡ true)
    ⊎ ((example_store.max_jobs < count_fresh (10 + day) example_store.jobs)
        × ((kept : String) (young : JobInfo)
            → get_job kept cleaned ≡ ok young
            → 3 ≤ young.submitted_at))
unfolding cleaned
cleanup_old_jobs_loses_example =
    cleanup_old_jobs_loses (10 + day) "d" (stored "d" "u" 3) example_store example_store-IsValid
      d_test cleanup_tests.3

abbrev with_cleanup : List Call
with_cleanup =
    adds 5 (job "a" "u" "" 0) ∷ updates 9 "a" job_status_completed "" ∷ cleans (10 + day) ∷ []

perform_all_refines_example :
    Run 2
      (λ id. err err_job_not_found)
      with_cleanup
      (replies (new_job_store (pos 2)) with_cleanup)
      (view (perform_all (new_job_store (pos 2)) with_cleanup))
perform_all_refines_example =
    perform_all_refines (pos 2) with_cleanup
      (omega arith, (ne_of_eq_false job_status_completed "" refl, (tt, tt)))

listed_iff_example :
    (In (stored "a" "u" 5) (list_jobs_by_user "u" example_store)
      ↔ ((get_job "a" example_store ≡ ok (stored "a" "u" 5)) × ((stored "a" "u" 5).user_id ≡ "u")))
    × (In (stored "a" "u" 5) (list_jobs_by_status "u" example_store)
        ↔ ((get_job "a" example_store ≡ ok (stored "a" "u" 5)) × (job_status_queued ≡ "u")))
listed_iff_example = listed_iff "u" (stored "a" "u" 5) example_store example_store-IsValid
