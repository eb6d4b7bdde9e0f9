-- ===== src/Registrar/Registration.antt =====
-- Registering tasks, and finding them again.
use paota.Common.{
  ℕ, All, ◌⊎◌, ◌++◌, String, ◌≡◌, ◌≢◌, refl, ◌∙◌, ap, Bool-cases, inl, inr, Option, some, List, [],
  ◌∷◌, arith, str_eq, eq_iff, if◌then◌else◌,
}
use paota.Schema.{task_must_be_func, task_returns_no_value, last_return_value_must_be_error}
use paota.World.{Outcome, ok, err, panic}
use paota.Registrar.Tasks.{
  TypeName, signature_pointer, plain, error_interface, implements_error, FuncType, TaskFunc,
  nil_interface, not_func, func, implements, last_type, validate_outs, validate_task, Task,
  Registrar, lookup, insert, validate_all, store_all, register_tasks,
}

-- Of several entries under a name the last counts, and else what was there before.
abbrev pub newest : String → List (String × Task) → Option Task → Option Task
newest k [] before = before
newest k ((j, t) ∷ rest) before = newest k rest (if str_eq j k then some t else before)

lookup-insert :
    (k j : String) (t : Task) (m : List (String × Task))
    → lookup k (insert j t m) ≡ (if str_eq j k then some t else lookup k m)
unfolding lookup insert
lookup-insert k j t [] = refl
lookup-insert k j t ((i, u) ∷ m) = elim (Bool-cases (str_eq i j)) [
  | inl same ↦ rw (same, (eq_iff i j).0 same) (ground arith)
  | inr apart ↦
      rw (apart, lookup-insert k j t m) (ground (arith, eq_iff i j, eq_iff j k, eq_iff i k))
]

pub lookup-store_all :
    (k : String) (ts : List (String × Task)) (r : Registrar)
    → lookup k (store_all ts r).registered_tasks ≡ newest k ts (lookup k r.registered_tasks)
unfolding store_all
lookup-store_all k [] r = refl
lookup-store_all k ((j, t) ∷ ts) r =
    lookup-store_all k ts _ ∙ ap (newest k ts) (lookup-insert k j t r.registered_tasks)

-- A function whose last result is an error.
pub data IsSound : Task → Type 0 where
  sound :
      (t : FuncType) (f : TaskFunc) (before : List TypeName) (last : TypeName)
      → t.outs ≡ before ++ last ∷ []
      → (last ≡ error_interface) ⊎ ((n : ℕ) × (last ≡ implements_error n))
      → IsSound (func t f)

-- Every other value, and what comes of it.
pub data Flawed : Task → Outcome (Unit {0}) → Type 0 where
  nothing : Flawed nil_interface panic
  no_func : (n : ℕ) → Flawed (not_func n) (err task_must_be_func)
  no_result :
      (t : FuncType) (f : TaskFunc) → t.outs ≡ [] → Flawed (func t f) (err task_returns_no_value)
  no_error :
      (t : FuncType) (f : TaskFunc) (before : List TypeName) (last : TypeName)
      → t.outs ≡ before ++ last ∷ []
      → last ≢ error_interface
      → ((n : ℕ) → last ≢ implements_error n)
      → Flawed (func t f) (err last_return_value_must_be_error)

abbrev Verdict : Task → Outcome (Unit {0}) → Type 0
Verdict t o = (IsSound t × (o ≡ ok tt)) ⊎ (Flawed t o × (o ≢ ok tt))

abbrev all_but_last : TypeName → List TypeName → List TypeName
all_but_last t [] = []
all_but_last t (u ∷ us) = t ∷ all_but_last u us

split_last : (t : TypeName) (ts : List TypeName) → t ∷ ts ≡ all_but_last t ts ++ last_type t ts ∷ []
split_last t [] = refl
split_last t (u ∷ us) = ap (λ l. t ∷ l) (split_last u us)

outs-Verdict :
    (t : FuncType) (f : TaskFunc) (outs : List TypeName)
    → t.outs ≡ outs
    → Verdict (func t f) (validate_outs outs)
outs-Verdict t f [] e = inr (no_result t f e, λ h. cc)
outs-Verdict t f (u ∷ us) e = by_last (last_type u us) (e ∙ split_last u us)
  where
    by_last :
        (last : TypeName)
        → t.outs ≡ all_but_last u us ++ last ∷ []
        → (IsSound (func t f)
            × ((if implements last then ok tt else err last_return_value_must_be_error) ≡ ok tt))
          ⊎ (Flawed
                (func t f)
                (if implements last then ok tt else err last_return_value_must_be_error)
              × ((if implements last then ok tt else err last_return_value_must_be_error) ≢ ok tt))
    by_last error_interface h = inl (sound t f (all_but_last u us) _ h (inl refl), refl)
    by_last (implements_error n) h = inl (sound t f (all_but_last u us) _ h (inr (n, refl)), refl)
    by_last signature_pointer h =
        inr (no_error t f (all_but_last u us) _ h (λ g. cc) (λ n g. cc), λ g. cc)
    by_last (plain n) h = inr (no_error t f (all_but_last u us) _ h (λ g. cc) (λ n g. cc), λ g. cc)

validate_task-Verdict : (t : Task) → Verdict t (validate_task t)
unfolding validate_task
validate_task-Verdict nil_interface = inr (nothing, λ h. cc)
validate_task-Verdict (not_func n) = inr (no_func n, λ h. cc)
validate_task-Verdict (func t f) = outs-Verdict t f t.outs refl

-- The first of the entries that is not sound.
pub record FirstFlaw (ts : List (String × Task)) (o : Outcome (Unit {0})) : Type 0 where
  pub before : List (String × Task)
  pub name : String
  pub task : Task
  pub after : List (String × Task)
  pub place : ts ≡ before ++ (name, task) ∷ after
  pub fine : All (λ (e : String × Task). IsSound e.1) before
  pub flaw : Flawed task o

abbrev AllVerdict : List (String × Task) → Outcome (Unit {0}) → Type 0
AllVerdict ts o =
    (All (λ (e : String × Task). IsSound e.1) ts × (o ≡ ok tt)) ⊎ (FirstFlaw ts o × (o ≢ ok tt))

validate_all-AllVerdict : (ts : List (String × Task)) → AllVerdict ts (validate_all ts)
unfolding validate_all
validate_all-AllVerdict [] = inl (tt, refl)
validate_all-AllVerdict ((k, t) ∷ ts) =
    by_first (validate_all-AllVerdict ts) (validate_task t) (validate_task-Verdict t)
  where
    at_front : (o : Outcome (Unit {0})) → Flawed t o → FirstFlaw ((k, t) ∷ ts) o
    at_front o f = record {
      before = [];
      name = k;
      task = t;
      after = ts;
      place = refl;
      fine = tt;
      flaw = f;
    }

    by_first :
        AllVerdict ts (validate_all ts)
        → (o : Outcome (Unit {0})) → Verdict t o
        → AllVerdict
            ((k, t) ∷ ts)
            (elim o [ ok _ ↦ validate_all ts | err e ↦ err e | panic ↦ panic ])
    by_first rest (ok u) (inl (s, e)) = elim rest [
      | inl (all, v) ↦ inl ((s, all), v)
      | inr (f, n) ↦ inr (
        record {
          before = (k, t) ∷ f.before;
          name = f.name;
          task = f.task;
          after = f.after;
          place = ap (λ l. (k, t) ∷ l) f.place;
          fine = (s, f.fine);
          flaw = f.flaw;
        },
        n,
      )
    ]
    by_first _ (ok u) (inr (f, n)) = absurd (n refl)
    by_first _ (err x) (inl (s, e)) = absurd (cc)
    by_first _ (err x) (inr (f, n)) = inr (at_front (err x) f, n)
    by_first _ panic (inl (s, e)) = absurd (cc)
    by_first _ panic (inr (f, n)) = inr (at_front panic f, n)

-- The result and the new registrar.
pub data Registered (r : Registrar) (ts : List (String × Task)) (o : Outcome (Unit {0}))
    (r' : Registrar) : Type 0 where
  refused : FirstFlaw ts o → o ≢ ok tt → r' ≡ r → Registered r ts o r'
  stored :
      All (λ (e : String × Task). IsSound e.1) ts
      → o ≡ ok tt
      → ((k : String) → lookup k r'.registered_tasks ≡ newest k ts (lookup k r.registered_tasks))
      → Registered r ts o r'

by_verdict :
    (r : Registrar) (ts : List (String × Task)) (v : Outcome (Unit {0}))
    → validate_all ts ≡ v
    → AllVerdict ts v
    → Registered r ts (register_tasks r ts).0 (register_tasks r ts).1
unfolding register_tasks
by_verdict r ts (ok u) e (inl (all, fine)) =
    stored all (rw (register_tasks, e) refl) (λ k. rw (register_tasks, e) (lookup-store_all k ts r))
by_verdict r ts (ok u) e (inr (f, n)) = absurd (n refl)
by_verdict r ts (err f) e (inl (all, fine)) = absurd (cc)
by_verdict r ts (err f) e (inr (flaw, n)) = rw (register_tasks, e) (refused flaw n refl)
by_verdict r ts panic e (inl (all, fine)) = absurd (cc)
by_verdict r ts panic e (inr (flaw, n)) = rw (register_tasks, e) (refused flaw n refl)

-- Either some value is not a function whose last result is an error, and then nothing is registered and
-- the first such value decides the result: an error for what is no function, for a function with no
-- result, or for one whose last result is no error, each its own, and a panic for a nil interface. Or
-- each of the tasks can be looked up, the newest of a name, and the other names as before.
pub register_tasks-Registered :
    (r : Registrar) (ts : List (String × Task))
    → Registered r ts (register_tasks r ts).0 (register_tasks r ts).1
register_tasks-Registered r ts = by_verdict r ts (validate_all ts) refl (validate_all-AllVerdict ts)
