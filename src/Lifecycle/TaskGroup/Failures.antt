-- ===== src/Lifecycle/TaskGroup/Failures.antt =====
-- src/core/task-group.ts: which failure a group ends with.
use mathlib.Core.Path.{subst}
use fitz_ts.Base.{
  ℕ, ◌≡◌, refl, sym, ap, ◌∙◌, List, [], ◌∷◌, Option, some, none, Bool, true, false, ◌||◌,
  if◌then◌else◌, arith, Bool-cases, inl, inr,
}
use fitz_ts.Lifecycle.TaskGroup.{
  running, stopping, failed, stop_group, Thrown, waiting, rejected, Worker, TaskGroup,
  complete_failed, finish_without, finish_with, maybe_finish, catch_error, is_stopping,
  iteration_failed, has_worker, remove_returned, return_worker, go_on, iteration, worker_ended,
  start_from, start, stop_from, stop, join, Event, starts, stops, joins, iterates, ends, or_same,
  step, run,
}
use fitz_ts.Lifecycle.TaskGroup.Phases.{Phase, IsValid}

-- The group is stopping because of `x`, or it has failed with it, and its last worker has gone.
pub data FailsWith (x : Thrown) (g : TaskGroup) : Type 0 where
  will_fail : g.status ≡ stopping → g.error ≡ some x → g.completion ≡ waiting → FailsWith x g
  has_failed : g.status ≡ failed → g.tasks ≡ [] → g.completion ≡ rejected x → FailsWith x g

module _ (x : Thrown) (g : TaskGroup) where
  start-FailsWith : FailsWith x g → or_same g (start g) ≡ g
  unfolding start
  start-FailsWith (will_fail s e c) = ap (λ st. or_same g (start_from st g)) s
  start-FailsWith (has_failed s t c) = ap (λ st. or_same g (start_from st g)) s

  join-FailsWith : FailsWith x g → FailsWith x (join g)
  unfolding join
  join-FailsWith (will_fail s e c) = will_fail s e (rw c)
  join-FailsWith (has_failed s t c) = has_failed s t (rw c)

  stop-join : FailsWith x g → stop g ≡ join g
  unfolding stop join
  stop-join (will_fail s e c) = ap (λ st. stop_from st g) s
  stop-join (has_failed s t c) = ap (λ st. stop_from st g) s

  -- A worker of a stopping group returns, whatever it throws.
  iteration_quiet :
      (k : ℕ) (r : Option Thrown) → g.status ≡ stopping → iteration g k r ≡ return_worker g k
  unfolding iteration iteration_failed
  iteration_quiet k none s = refl
  iteration_quiet k (some e) s =
      let quiet : is_stopping g.status ≡ true = ap is_stopping s in ground (arith, quiet)

  no_worker : (k : ℕ) (returned : Bool) → g.tasks ≡ [] → has_worker k returned g.tasks ≡ false
  unfolding has_worker
  no_worker k returned t = ap (has_worker k returned) t

  iterate-FailsWith :
      (k : ℕ) (r : Option Thrown) → FailsWith x g → FailsWith x (step g (iterates k r))
  unfolding step
  iterate-FailsWith k r (has_failed s t c) = rw (no_worker k false t) (has_failed s t c)
  iterate-FailsWith k r (will_fail s e c) = elim (Bool-cases (has_worker k false g.tasks)) [
    | inl here ↦ rw (here, iteration_quiet k r s) (will_fail s e c)
    | inr gone ↦ rw gone (will_fail s e c)
  ]

  rest-FailsWith :
      (ws : List Worker)
      → x.truthy ≡ true
      → g.status ≡ stopping
      → g.error ≡ some x
      → g.completion ≡ waiting
      → FailsWith x (maybe_finish (record g { tasks = ws }) ws)
  unfolding maybe_finish complete_failed
  rest-FailsWith (w ∷ ws) truthy s e c = will_fail s e c
  rest-FailsWith [] truthy s e c =
      let finished : finish_with (record g { tasks = [] }) g.error
          ≡ complete_failed (record g { tasks = [] }) x =
        ap (finish_with (record g { tasks = [] })) e
        ∙ ap
            (λ b.
              if b
              then complete_failed (record g { tasks = [] }) x
              else finish_without (record g { tasks = [] }))
            truthy in
      subst (FailsWith x) (sym finished) (has_failed refl refl (rw c))

  end-FailsWith : (k : ℕ) → x.truthy ≡ true → FailsWith x g → FailsWith x (step g (ends k))
  unfolding step worker_ended
  end-FailsWith k truthy (has_failed s t c) = rw (no_worker k true t) (has_failed s t c)
  end-FailsWith k truthy (will_fail s e c) = elim (Bool-cases (has_worker k true g.tasks)) [
    | inl here ↦ rw here (rest-FailsWith (remove_returned k g.tasks) truthy s e c)
    | inr gone ↦ rw gone (will_fail s e c)
  ]

  step-FailsWith : (e : Event) → x.truthy ≡ true → FailsWith x g → FailsWith x (step g e)
  unfolding step
  step-FailsWith starts truthy f = subst (FailsWith x) (sym (start-FailsWith f)) f
  step-FailsWith stops truthy f = subst (FailsWith x) (sym (stop-join f)) (join-FailsWith f)
  step-FailsWith joins truthy f = join-FailsWith f
  step-FailsWith (iterates k r) truthy f = iterate-FailsWith k r f
  step-FailsWith (ends k) truthy f = end-FailsWith k truthy f

run-FailsWith :
    (x : Thrown) (g : TaskGroup) (es : List Event)
    → x.truthy ≡ true
    → FailsWith x g
    → FailsWith x (run g es)
unfolding run
run-FailsWith x g [] truthy f = f
run-FailsWith x g (e ∷ es) truthy f =
    run-FailsWith x (step g e) es truthy (step-FailsWith x g e truthy f)

-- A worker of a running group with the policy `stop-group` throws an error that is no AbortError
-- and that JavaScript takes for true. Whatever happens from then on, that error and no later one is
-- what the group fails with, once its last worker has gone.
pub first_failure_wins :
    (x : Thrown) (g : TaskGroup) (k : ℕ) (es : List Event)
    → IsValid g
    → g.status ≡ running
    → g.error_policy ≡ stop_group
    → has_worker k false g.tasks ≡ true
    → x.is_abort_error ≡ false
    → x.truthy ≡ true
    → FailsWith x (run (step g (iterates k (some x))) es)
unfolding step iteration iteration_failed catch_error
first_failure_wins x g k es v s policy here loud truthy =
    let phase = subst (λ st. Phase st g) s v.phase in
    let quiet : (x.is_abort_error || is_stopping g.status) ≡ false = cc (loud, ap is_stopping s) in
    let failing : step g (iterates k (some x)) ≡ go_on k (catch_error g x stop_group) =
      rw (here, quiet) (ap (λ pol. go_on k (catch_error g x pol)) policy) in
    run-FailsWith x _ es truthy (subst (FailsWith x) (sym failing) (will_fail refl refl phase.1))
