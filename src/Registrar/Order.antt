-- ===== src/Registrar/Order.antt =====
-- `RegisterTasks` ranges over a Go map, in an order that is not specified.
use paota.Common.{
  ◌+◌, ◌%◌, ◌^◌, String, ◌≡◌, ◌≢◌, refl, sym, ◌∙◌, ap, Bool-cases, inl, inr, Option, none, some,
  List, [], ◌∷◌, length, arith, str_eq, eq_iff,
}
use paota.World.{Outcome, ok, err, panic}
use paota.Registrar.Tasks.{
  Task, Registrar, insert, lookup, validate_task, validate_all, store_all, register_tasks,
  get_registered_task, get_registered_task_count,
}
use paota.Registrar.Registration.{newest, lookup-store_all}

-- The entries of a map: no name occurs twice.
abbrev pub IsMap : List (String × Task) → Type 0
IsMap [] = Unit
IsMap ((k, t) ∷ ts) = (lookup k ts ≡ none) × IsMap ts

-- Two orders of the entries of one map.
pub record SameMap (ts us : List (String × Task)) : Type 0 where
  pub left : IsMap ts
  pub right : IsMap us
  pub entries : (k : String) → lookup k ts ≡ lookup k us
  pub size : length ts ≡ length us

SameMap-sym : (ts us : List (String × Task)) → SameMap ts us → SameMap us ts
SameMap-sym ts us h = record {
  left = h.right;
  right = h.left;
  entries = λ k. sym (h.entries k);
  size = sym h.size;
}

abbrev or_else : Option Task → Option Task → Option Task
or_else none before = before
or_else (some t) before = some t

newest-IsMap :
    (k : String) (ts : List (String × Task)) (before : Option Task)
    → IsMap ts
    → newest k ts before ≡ or_else (lookup k ts) before
unfolding lookup
newest-IsMap k [] before m = refl
newest-IsMap k ((j, t) ∷ ts) before (fresh, m) = elim (Bool-cases (str_eq j k)) [
  | inl same ↦
      let gone : lookup k ts ≡ none = ap (λ i. lookup i ts) (sym ((eq_iff j k).0 same)) ∙ fresh in
      rw same (newest-IsMap k ts (some t) m ∙ ap (λ o. or_else o (some t)) gone)
  | inr apart ↦ rw apart (newest-IsMap k ts before m)
]

-- Each entry of the map is a task.
abbrev AllValid : List (String × Task) → Type 0
AllValid ts = (k : String) (t : Task) → lookup k ts ≡ some t → validate_task t ≡ ok tt

valid_first :
    (k : String) (t : Task) (ts : List (String × Task)) (v : Outcome (Unit {0}))
    → validate_task t ≡ v
    → validate_all ((k, t) ∷ ts) ≡ ok tt
    → (validate_task t ≡ ok tt) × (validate_all ts ≡ ok tt)
unfolding validate_all
valid_first k t ts (ok u) e h = (e, rw (validate_all, e) at h)
valid_first k t ts (err f) e h = absurd (cc (rw (validate_all, e) at h))
valid_first k t ts panic e h = absurd (cc (rw (validate_all, e) at h))

AllValid-validate_all : (ts : List (String × Task)) → validate_all ts ≡ ok tt → AllValid ts
unfolding lookup
AllValid-validate_all [] h k t e = absurd (cc)
AllValid-validate_all ((j, u) ∷ ts) h k t e =
    let (first, rest) = valid_first j u ts (validate_task u) refl h in
    elim (Bool-cases (str_eq j k)) [
      | inl same ↦ let is_u : u ≡ t = cc (rw same at e) in ap validate_task (sym is_u) ∙ first
      | inr apart ↦ AllValid-validate_all ts rest k t (rw apart at e)
    ]

later_valid :
    (j : String) (u : Task) (ts : List (String × Task))
    → lookup j ts ≡ none
    → AllValid ((j, u) ∷ ts)
    → AllValid ts
unfolding lookup
later_valid j u ts fresh h k t e = elim (Bool-cases (str_eq j k)) [
  | inl same ↦ absurd (cc (ap (λ i. lookup i ts) ((eq_iff j k).0 same), fresh, e))
  | inr apart ↦ h k t (rw apart e)
]

validate_all-AllValid :
    (ts : List (String × Task)) → IsMap ts → AllValid ts → validate_all ts ≡ ok tt
unfolding lookup validate_all
validate_all-AllValid [] m h = refl
validate_all-AllValid ((j, u) ∷ ts) (fresh, m) h =
    let first : validate_task u ≡ ok tt = h j u (rw ((eq_iff j j).1 refl) refl) in
    let rest : validate_all ts ≡ ok tt = validate_all-AllValid ts m (later_valid j u ts fresh h) in
    rw (validate_all, first) rest

same_verdict :
    (ts us : List (String × Task))
    → SameMap ts us
    → validate_all ts ≡ ok tt
    → validate_all us ≡ ok tt
same_verdict ts us h e =
    validate_all-AllValid us h.right (λ k t f. AllValid-validate_all ts e k t (h.entries k ∙ f))

-- One store counts one task.
count-store_all :
    (ts : List (String × Task)) (r : Registrar)
    → (store_all ts r).registered_tasks_count % 2 ^ 64
      ≡ (r.registered_tasks_count + length ts) % 2 ^ 64
unfolding store_all
count-store_all [] r = omega arith
count-store_all ((k, t) ∷ ts) r = omega (
  arith,
  count-store_all ts (record r {
    registered_tasks_count = (r.registered_tasks_count + 1) % 2 ^ 64;
    registered_tasks = insert k t r.registered_tasks;
  }),
)

-- Once the entries are accepted: the table and the count that come of them.
stored_alike :
    (r : Registrar) (ts us : List (String × Task))
    → SameMap ts us
    → ((k : String)
        → lookup k (store_all ts r).registered_tasks ≡ lookup k (store_all us r).registered_tasks)
stored_alike r ts us h k =
    lookup-store_all k ts r
    ∙ newest-IsMap k ts _ h.left
    ∙ ap (λ o. or_else o (lookup k r.registered_tasks)) (h.entries k)
    ∙ sym (newest-IsMap k us _ h.right)
    ∙ sym (lookup-store_all k us r)

-- The two outcomes: both calls register the tasks, and each name stands for the same task then; or
-- neither changes anything.
pub data Alike (r : Registrar)
    : Outcome (Unit {0}) × Registrar → Outcome (Unit {0}) × Registrar → Type 0 where
  both_stored :
      (s t : Registrar)
      → ((k : String) → get_registered_task s k ≡ get_registered_task t k)
      → get_registered_task_count s % 2 ^ 64 ≡ get_registered_task_count t % 2 ^ 64
      → Alike r (ok tt, s) (ok tt, t)
  both_refused : (o p : Outcome (Unit {0})) → o ≢ ok tt → p ≢ ok tt → Alike r (o, r) (p, r)

Alike-by_verdict :
    (r : Registrar) (ts us : List (String × Task)) (v x : Outcome (Unit {0}))
    → validate_all ts ≡ v
    → validate_all us ≡ x
    → SameMap ts us
    → Alike r (register_tasks r ts) (register_tasks r us)
unfolding register_tasks get_registered_task
Alike-by_verdict r ts us (ok a) (ok b) e f h =
    rw (register_tasks, e, f)
      (both_stored (store_all ts r) (store_all us r)
        (λ k. rw (get_registered_task, stored_alike r ts us h k) refl)
        (count-store_all ts r
          ∙ ap (λ n. (r.registered_tasks_count + n) % 2 ^ 64) h.size
          ∙ sym (count-store_all us r)))
Alike-by_verdict r ts us (ok a) (err g) e f h = absurd (cc (same_verdict ts us h e, f))
Alike-by_verdict r ts us (ok a) panic e f h = absurd (cc (same_verdict ts us h e, f))
Alike-by_verdict r ts us (err g) (ok b) e f h =
    absurd (cc (same_verdict us ts (SameMap-sym ts us h) f, e))
Alike-by_verdict r ts us panic (ok b) e f h =
    absurd (cc (same_verdict us ts (SameMap-sym ts us h) f, e))
Alike-by_verdict r ts us (err g) (err k) e f h =
    rw (register_tasks, e, f) (both_refused _ _ (λ p. cc) (λ p. cc))
Alike-by_verdict r ts us (err g) panic e f h =
    rw (register_tasks, e, f) (both_refused _ _ (λ p. cc) (λ p. cc))
Alike-by_verdict r ts us panic (err k) e f h =
    rw (register_tasks, e, f) (both_refused _ _ (λ p. cc) (λ p. cc))
Alike-by_verdict r ts us panic panic e f h =
    rw (register_tasks, e, f) (both_refused _ _ (λ p. cc) (λ p. cc))

-- The order in which the loops of `RegisterTasks` meet the entries of the map does not matter: in each
-- order the tasks are registered, every name then standing for the same task and the count being the
-- same; or in each order nothing changes and an error comes back, or a panic.
pub register_tasks-Alike :
    (r : Registrar) (ts us : List (String × Task))
    → SameMap ts us
    → Alike r (register_tasks r ts) (register_tasks r us)
register_tasks-Alike r ts us h =
    Alike-by_verdict r ts us (validate_all ts) (validate_all us) refl refl h
