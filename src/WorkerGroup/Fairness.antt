-- ===== src/WorkerGroup/Fairness.antt =====
-- The round robin of `AssignJob`, over many jobs.
use native.Mathlib.Nat.{mod-lt, mod-eq_of_lt, mod_self}
use paota.Common.{
  ℕ, ◌+◌, ◌%◌, ◌<◌, ◌≤◌, ◌≡◌, ◌≢◌, refl, sym, subst, ◌∙◌, ap, ◌⊎◌, inl, inr, true, false, Option,
  none, some, List, [], ◌∷◌, ◌++◌, ◌==◌, leb, ltb, Bool-cases, if◌then◌else◌, length, length-append,
  get_elem?, arith,
}
use paota.Registrar.{Job}
use paota.WorkerGroup.{Worker, WorkerGroup, Call, done, blocked, panics, assign_job}
use paota.WorkerGroup.Assignment.{IsReady, Assigned, assign_job-Assigned}

-- The jobs that a worker has been handed.
abbrev jobs_of : Option Worker → ℕ
jobs_of none = 0
jobs_of (some w) = length w.jobs

abbrev pub jobs_at : ℕ → WorkerGroup → ℕ
jobs_at i wg = jobs_of (get_elem? wg.workers i)

abbrev then_assign : Call WorkerGroup → (WorkerGroup → Call WorkerGroup) → Call WorkerGroup
then_assign (done wg) k = k wg
then_assign blocked k = blocked
then_assign panics k = panics

unfoldable pub assign_all : List Job → WorkerGroup → Call WorkerGroup
assign_all [] wg = done wg
assign_all (job ∷ jobs) wg = then_assign (assign_job wg job) (assign_all jobs)

-- Whether a worker has had its turn when the last one was that of `p`.
abbrev had_turn : ℕ → ℕ → ℕ
had_turn i p = if leb i p then 1 else 0

abbrev is_turn : ℕ → ℕ → ℕ
is_turn i p = if i == p then 1 else 0

abbrev Turned : ℕ → ℕ → ℕ → Type 0
Turned p n q = ((p + 1 < n) × (q ≡ p + 1)) ⊎ ((p + 1 ≡ n) × (q ≡ 0))

next_turn : (p n : ℕ) → p < n → Turned p n ((p + 1) % n)
next_turn p n h = elim (Bool-cases (ltb (p + 1) n)) [
  | inl below ↦ let small : p + 1 < n = ground arith in inl (small, mod-eq_of_lt small)
  | inr last ↦ let full : p + 1 ≡ n = ground arith in inr (full, ap (λ k. k % n) full ∙ mod_self n)
]

same_or_other : (i j : ℕ) → ((i ≡ j) × ((i == j) ≡ true)) ⊎ ((i ≢ j) × ((i == j) ≡ false))
same_or_other i j = elim (Bool-cases (i == j)) [
  | inl same ↦ inl (ground arith, same)
  | inr other ↦ inr ((λ e. ground arith), other)
]

jobs_at-Assigned :
    (wg : WorkerGroup) (job : Job) (r : Call WorkerGroup) (a : Assigned wg job r) (i : ℕ)
    → jobs_at i a.group ≡ jobs_at i wg + is_turn i a.group.last_assigned_worker_index
jobs_at-Assigned wg job r a i = elim (same_or_other i a.group.last_assigned_worker_index) [
  | inl (e, same) ↦
      let (w, was, is_now) = a.handed in
      let before : jobs_at i wg ≡ length w.jobs = ap (λ j. jobs_at j wg) e ∙ ap jobs_of was in
      let after : jobs_at i a.group ≡ length (w.jobs ++ job ∷ []) =
        ap (λ j. jobs_at j a.group) e ∙ ap jobs_of is_now in
      let turn : is_turn i a.group.last_assigned_worker_index ≡ 1 = rw same refl in
      omega (arith, before, after, turn, length-append w.jobs (job ∷ []))
  | inr (h, other) ↦
      let turn : is_turn i a.group.last_assigned_worker_index ≡ 0 = rw other refl in
      let kept : jobs_at i a.group ≡ jobs_at i wg = ap jobs_of (a.others i h) in
      omega (arith, kept, turn)
]

-- After some full rounds, `first` being the worker whose turn it was before the first job.
abbrev IsFair : ℕ → ℕ → ℕ → WorkerGroup → Type 0
IsFair first rounds n wg =
    (i : ℕ)
    → i < n
    → jobs_at i wg + had_turn i first ≡ rounds + had_turn i wg.last_assigned_worker_index

turned :
    (p q n i : ℕ)
    → Turned p n q
    → i < n
    → ((p + 1 < n) × (had_turn i q ≡ had_turn i p + is_turn i q))
      ⊎ ((p + 1 ≡ n) × (had_turn i q ≡ is_turn i q) × (had_turn i p ≡ 1))
turned p q n i t h = ground arith

Assigned-IsFair :
    (first rounds n : ℕ) (wg : WorkerGroup) (job : Job) (r : Call WorkerGroup)
    (a : Assigned wg job r)
    → Turned wg.last_assigned_worker_index n a.group.last_assigned_worker_index
    → IsFair first rounds n wg
    → (more : ℕ) × IsFair first more n a.group
Assigned-IsFair first rounds n wg job r a (inl (below, at)) fair = (
  rounds,
  λ i h. elim (turned _ _ n i (inl (below, at)) h) [
    | inl (_, turn) ↦ omega (arith, turn, fair i h, jobs_at-Assigned wg job r a i)
    | inr (full, _, _) ↦ absurd (omega (arith, below, full))
  ],
)
Assigned-IsFair first rounds n wg job r a (inr (full, at)) fair = (
  rounds + 1,
  λ i h. elim (turned _ _ n i (inr (full, at)) h) [
    | inl (below, _) ↦ absurd (omega (arith, below, full))
    | inr (_, turn, all) ↦ omega (arith, turn, all, fair i h, jobs_at-Assigned wg job r a i)
  ],
)

all_assigned :
    (first rounds n : ℕ) (jobs : List Job) (wg : WorkerGroup)
    → IsReady wg
    → n ≡ length wg.workers
    → wg.last_assigned_worker_index < n
    → IsFair first rounds n wg
    → (wg' : WorkerGroup) × (assign_all jobs wg ≡ done wg') × (more : ℕ) × IsFair first more n wg'
unfolding assign_all
all_assigned first rounds n [] wg ready size bound fair = (wg, refl, rounds, fair)
all_assigned first rounds n (job ∷ jobs) wg ready size bound fair =
    let a = assign_job-Assigned wg job ready in
    let turn : a.group.last_assigned_worker_index ≡ (wg.last_assigned_worker_index + 1) % n =
      a.turn ∙ ap (λ k. (wg.last_assigned_worker_index + 1) % k) (sym size) in
    let step : Turned wg.last_assigned_worker_index n a.group.last_assigned_worker_index =
      subst (Turned wg.last_assigned_worker_index n) (sym turn) (next_turn _ n bound) in
    let (more, fair') = Assigned-IsFair first rounds n wg job _ a step fair in
    let some_worker : 0 < n = omega arith in
    let bound' : a.group.last_assigned_worker_index < n =
      subst (λ k. k < n) (sym turn) (mod-lt (wg.last_assigned_worker_index + 1) some_worker) in
    rw a.returned
      (all_assigned first more n jobs a.group a.ready (size ∙ sym a.same_size) bound' fair')

closely :
    (first p rounds i j x y : ℕ)
    → x + had_turn i first ≡ rounds + had_turn i p
    → y + had_turn j first ≡ rounds + had_turn j p
    → x ≤ y + 1
closely first p rounds i j x y h k = ground arith

-- However many jobs a ready group is handed that has had none, no worker gets more than one job more
-- than another.
pub assign_all-le :
    (jobs : List Job) (wg : WorkerGroup) (i j : ℕ)
    → IsReady wg
    → wg.last_assigned_worker_index < length wg.workers
    → ((k : ℕ) → k < length wg.workers → jobs_at k wg ≡ 0)
    → i < length wg.workers
    → j < length wg.workers
    → (wg' : WorkerGroup) × (assign_all jobs wg ≡ done wg') × (jobs_at i wg' ≤ jobs_at j wg' + 1)
assign_all-le jobs wg i j ready bound unused h k =
    let first = wg.last_assigned_worker_index in
    let (wg', all, rounds, fair) =
      all_assigned first 0 (length wg.workers) jobs wg ready refl bound
        (λ l m. omega (arith, unused l m)) in
    (wg', all, closely first wg'.last_assigned_worker_index rounds i j _ _ (fair i h) (fair j k))
