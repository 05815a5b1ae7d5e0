-- ===== src/Scheduler/Select.antt =====
-- `select_next_task` of src/resource/scheduler.c: the choice among the ready tasks.
use akira_os.Prelude.{
  ℕ, ◌≤◌, ◌<◌, ◌≡◌, refl, sym, ap, subst, ◌∙◌, inl, inr, Bool, true, false, ◌&&◌, Option, none,
  some, List, [], ◌∷◌, arith, ◌==◌, ltb, if◌then◌else◌, if_case, Bool-cases, option_case, take, All,
  Option-cases, ℤ,
}
use akira_os.Scheduler.{
  TaskCb, SchedState, task_at, queue, best_priority, is_best, after_current, first_best,
  select_next_task, EnumAbi, minus_one,
}
use akira_os.Scheduler.Order.{count, IsSorted}
use akira_os.Scheduler.Invariant.{IsValid, ready_at, priority_at}

-- The best priority of a list of tasks in order is that of its first.
best_priority-below :
    (tasks : List TaskCb) (b : ℕ) (hs : List ℕ)
    → All (λ x. priority_at tasks x ≤ b) hs
    → best_priority tasks hs (some b) ≡ some b
unfolding best_priority
best_priority-below tasks b [] a = refl
best_priority-below tasks b (x ∷ hs) a =
    ap (best_priority tasks hs) (
      option_case (λ o. o ≡ some b) (task_at tasks x) (λ _. refl)
        λ t e.
          if_case (λ o. o ≡ some b) (ltb b t.priority) (λ l. absurd (ground (arith, a.0)))
            (λ _. refl))
    ∙ best_priority-below tasks b hs a.1

best_priority-head :
    (tasks : List TaskCb) (h : ℕ) (hs : List ℕ)
    → ready_at tasks h ≡ true
    → IsSorted (priority_at tasks) (h ∷ hs)
    → best_priority tasks (h ∷ hs) none ≡ some (priority_at tasks h)
unfolding best_priority
best_priority-head tasks h hs r s =
    ap (best_priority tasks hs) (
      option_case (λ o. o ≡ some (priority_at tasks h)) (task_at tasks h)
        (λ n. absurd (ground arith)) (λ t e. ground arith))
    ∙ best_priority-below tasks (priority_at tasks h) hs s.0

-- What a search hands out is a member of the list that passes.
Hit : List TaskCb → Option ℕ → List ℕ → Option ℕ → Type 0
Hit tasks best hs none = Unit {0}
Hit tasks best hs (some h) = (0 < count h hs) × (is_best tasks best h ≡ true)

later-Hit :
    (tasks : List TaskCb) (best : Option ℕ) (x : ℕ) (hs : List ℕ) (o : Option ℕ)
    → Hit tasks best hs o
    → Hit tasks best (x ∷ hs) o
unfolding Hit
later-Hit tasks best x hs none h = tt
later-Hit tasks best x hs (some y) h = (ground arith, h.1)

after_current-Hit :
    (tasks : List TaskCb) (best : Option ℕ) (z : ℤ) (hs : List ℕ) (found : Bool)
    → Hit tasks best hs (after_current tasks best z hs found)
unfolding after_current Hit
after_current-Hit tasks best z [] found = tt
after_current-Hit tasks best z (x ∷ hs) found =
    if_case (Hit tasks best (x ∷ hs)) (is_best tasks best x && found)
      (λ e. (ground arith, ground arith))
      λ _. later-Hit tasks best x hs _ (after_current-Hit tasks best z hs _)

first_best-Hit :
    (tasks : List TaskCb) (best : Option ℕ) (hs : List ℕ)
    → Hit tasks best hs (first_best tasks best hs)
unfolding first_best Hit
first_best-Hit tasks best [] = tt
first_best-Hit tasks best (x ∷ hs) =
    if_case (Hit tasks best (x ∷ hs)) (is_best tasks best x) (λ e. (ground arith, e))
      λ _. later-Hit tasks best x hs _ (first_best-Hit tasks best hs)

-- What the choice promises: no task is ready, or the one chosen is, and no ready one has a higher
-- priority.
pub data Chooses (tasks : List TaskCb) : Option ℕ → Type 0 where
  nobody : ((g : ℕ) → ready_at tasks g ≡ false) → Chooses tasks none
  chosen :
      (h : ℕ)
      → ready_at tasks h ≡ true
      → ((g : ℕ) → ready_at tasks g ≡ true → priority_at tasks g ≤ priority_at tasks h)
      → Chooses tasks (some h)

priority-le-head :
    (tasks : List TaskCb) (x : ℕ) (hs : List ℕ)
    → IsSorted (priority_at tasks) (x ∷ hs)
    → (g : ℕ) → 0 < count g (x ∷ hs)
    → priority_at tasks g ≤ priority_at tasks x
priority-le-head tasks x hs s g lt = below (x ∷ hs) (omega arith, s.0) lt
  where
    below :
        (ys : List ℕ)
        → All (λ y. priority_at tasks y ≤ priority_at tasks x) ys
        → 0 < count g ys
        → priority_at tasks g ≤ priority_at tasks x
    below [] a lt = absurd (omega arith)
    below (y ∷ ys) a lt = elim (Bool-cases (y == g)) [
      | inl same ↦
          subst (λ k. priority_at tasks k ≤ priority_at tasks x) {x = y} {y = g} (ground arith) a.0
      | inr other ↦ below ys a.1 (ground arith)
    ]

-- The two passes for the best priority.
pick : List TaskCb → Option ℕ → ℤ → List ℕ → Option ℕ
pick tasks best z hs = elim (after_current tasks best z hs false) [
  | none ↦ first_best tasks best hs
  | some h ↦ some h
]

Hit-Chooses :
    (tasks : List TaskCb) (x : ℕ) (hs : List ℕ)
    → ((h : ℕ) → count h (x ∷ hs) ≡ (if ready_at tasks h then 1 else 0))
    → IsSorted (priority_at tasks) (x ∷ hs)
    → (h : ℕ) → Hit tasks (some (priority_at tasks x)) (x ∷ hs) (some h)
    → Chooses tasks (some h)
unfolding Hit
Hit-Chooses tasks x hs once s h hit = chosen h (ground (arith, once h, hit.0)) λ g r.
    let le = priority-le-head tasks x hs s g (ground (arith, once g)) in ground (arith, le, hit.1)

first_best-some :
    (tasks : List TaskCb) (x : ℕ) (hs : List ℕ)
    → ready_at tasks x ≡ true
    → first_best tasks (some (priority_at tasks x)) (x ∷ hs) ≡ some x
unfolding first_best
first_best-some tasks x hs r = ground arith

pick-Chooses :
    (tasks : List TaskCb) (z : ℤ) (hs : List ℕ)
    → ((h : ℕ) → count h hs ≡ (if ready_at tasks h then 1 else 0))
    → IsSorted (priority_at tasks) hs
    → Chooses tasks (pick tasks (best_priority tasks hs none) z hs)
unfolding pick after_current first_best
pick-Chooses tasks z [] once s = nobody (λ g. ground (arith, once g))
pick-Chooses tasks z (x ∷ hs) once s =
    let b = some (priority_at tasks x) in
    let r : ready_at tasks x ≡ true = ground (arith, once x) in
    let found : Chooses tasks (pick tasks b z (x ∷ hs)) =
      option_case (Chooses tasks) (after_current tasks b z (x ∷ hs) false)
        (λ n.
          subst (Chooses tasks) (sym (first_best-some tasks x hs r))
            (chosen x r (λ g q. priority-le-head tasks x hs s g (ground (arith, once g)))))
        (λ h e.
          Hit-Chooses tasks x hs once s h
            (subst (Hit tasks b (x ∷ hs)) e (after_current-Hit tasks b z (x ∷ hs) false))) in
    subst (λ o. Chooses tasks (pick tasks o z (x ∷ hs))) (sym (best_priority-head tasks x hs r s))
      found

-- With a wide enum -1 is above every priority, and no task has it.
wide_Hit :
    (tasks : List TaskCb) (hs : List ℕ) (o : Option ℕ)
    → ((h : ℕ) → priority_at tasks h ≤ 4)
    → Hit tasks (minus_one EnumAbi.wide) hs o
    → o ≡ none
unfolding Hit
wide_Hit tasks hs none low hit = refl
wide_Hit tasks hs (some h) low hit = elim (Option-cases (task_at tasks h)) [
  | inl n ↦ absurd (ground (arith, n, hit.1))
  | inr (t, e) ↦ absurd (ground (arith, e, hit.1, low h))
]

all_low :
    (tasks : List TaskCb) (hs : List ℕ)
    → ((h : ℕ) → priority_at tasks h ≤ 4)
    → All (λ x. priority_at tasks x ≤ 4294967295) hs
all_low tasks [] low = tt
all_low tasks (h ∷ hs) low = (omega (arith, low h), all_low tasks hs low)

pick-wide :
    (tasks : List TaskCb) (z : ℤ) (hs : List ℕ)
    → ((h : ℕ) → priority_at tasks h ≤ 4)
    → pick tasks (best_priority tasks hs (minus_one EnumAbi.wide)) z hs ≡ none
unfolding pick
pick-wide tasks z hs low =
    subst (λ o. pick tasks o z hs ≡ none)
      (sym (best_priority-below tasks 4294967295 hs (all_low tasks hs low)))
      (option_case (λ o. o ≡ none) (after_current tasks (minus_one EnumAbi.wide) z hs false)
        (λ n. wide_Hit tasks hs _ low (first_best-Hit tasks (minus_one EnumAbi.wide) hs))
        λ h e. wide_Hit tasks hs (some h) low (
          subst (Hit tasks (minus_one EnumAbi.wide) hs) e
            (after_current-Hit tasks (minus_one EnumAbi.wide) z hs false)))

select_next_task-narrow :
    (s : SchedState) → IsValid s → Chooses s.tasks (select_next_task EnumAbi.narrow s)
unfolding select_next_task pick
select_next_task-narrow s v =
    if_case (Chooses s.tasks) (s.ready_count == 0)
      (λ z. nobody (λ g. ground (
        arith,
        v.once g,
        ap (λ n. count g (take n s.ready_queue)) {x = s.ready_count} {y = 0} (ground arith),
      )))
      λ _. pick-Chooses s.tasks s.current_task (queue s) v.once v.sorted

-- In a valid state in which every task has one of the five priorities of the enum: with short enums
-- `select_next_task` chooses a ready task, of which no ready task has a higher priority, and chooses none
-- only where no task is ready; where the enum is an `unsigned int` it chooses none, ready tasks or not.
pub select_next_task-Chooses :
    (s : SchedState)
    → IsValid s
    → ((h : ℕ) → priority_at s.tasks h ≤ 4)
    → Chooses s.tasks (select_next_task EnumAbi.narrow s) × (select_next_task EnumAbi.wide s ≡ none)
unfolding select_next_task pick
select_next_task-Chooses s v low = (
  select_next_task-narrow s v,
  if_case (λ o. o ≡ none) (s.ready_count == 0) (λ _. refl)
      λ _. pick-wide s.tasks s.current_task (queue s) low,
)
