-- ===== src/Core/StorageManager/Cores.antt =====
-- Cores and tasks of the storage manager.
use cloud_fly_prlatform.Prelude.{
  ltb, ◌==◌, dec_lt, ℕ_discrete, ℕ, zero, suc, ◌+◌, ◌-◌, ◌%◌, ◌<◌, ◌≤◌, ◌≡◌, ◌≢◌, refl, ap, sym,
  ◌∙◌, List, [], ◌∷◌, ◌++◌, Option, some, none, length, length-append, length-set, ◌⊎◌,
  length-replicate, get_elem?, set, replicate, get_elem?-set_self, get_elem?-set_ne, arith, returns,
  stops, fault, if◌then◌else◌, inl, inr,
}
use cloud_fly_prlatform.Prelude.Maps.{nat_eq, find, insert, find-insert_self, find-insert_ne}
use cloud_fly_prlatform.Core.StorageManager.{
  Parts, StorageManager, pending, cancelled, initialize_core, on_core, submit_task, cancel_task,
  get_task_status, target_core, task_mutex,
}

get_elem?-append_left :
    {A : Type 0} (xs ys : List A) (i : ℕ) → i < length xs → get_elem? (xs ++ ys) i ≡ get_elem? xs i
get_elem?-append_left [] ys i h = elim h [ ]
get_elem?-append_left (x ∷ xs) ys zero h = refl
get_elem?-append_left (x ∷ xs) ys (suc i) h = get_elem?-append_left xs ys i (omega arith)

get_elem?-append_fill :
    {A : Type 0} (xs : List A) (n i : ℕ) (a : A)
    → length xs ≤ i
    → i < length xs + n
    → get_elem? (xs ++ replicate n a) i ≡ some a
get_elem?-append_fill [] zero i a h l = absurd (omega arith)
get_elem?-append_fill [] (suc n) zero a h l = refl
get_elem?-append_fill [] (suc n) (suc i) a h l =
    get_elem?-append_fill [] n i a (omega arith) (omega arith)
get_elem?-append_fill (x ∷ xs) n zero a h l = absurd (omega arith)
get_elem?-append_fill (x ∷ xs) n (suc i) a h l =
    get_elem?-append_fill xs n i a (omega arith) (omega arith)

-- What stands at `i` after core `core_id` was initialised.
abbrev pub initialized : {C : Type 0} → C → ℕ → List (Option C) → ℕ → Option (Option C)
initialized new core_id cores i =
    if i == core_id
    then some (some new)
    else if ltb i (length cores)
    then get_elem? cores i
    else if ltb i core_id
    then some none
    else none

get_elem?-past : {A : Type 0} (xs : List A) (i : ℕ) → length xs ≤ i → get_elem? xs i ≡ none
get_elem?-past [] i h = refl
get_elem?-past (x ∷ xs) zero h = absurd (omega arith)
get_elem?-past (x ∷ xs) (suc i) h = get_elem?-past xs i (omega arith)

set-initialized :
    {C : Type 0} (new : C) (core_id : ℕ) (cores : List (Option C)) (i : ℕ)
    → get_elem? (set (cores ++ replicate (suc core_id - length cores) none) core_id (some new)) i
      ≡ initialized new core_id cores i
set-initialized {C = C} new core_id cores i = elim (ℕ_discrete i core_id) [
  | yes e ↦ ground (
    arith,
    get_elem?-set_self grown core_id (some new) (omega (arith, size, filled)),
    ap (get_elem? (set grown core_id (some new))) e,
  )
  | no ne ↦ get_elem?-set_ne grown (some new) (λ e. ne (sym e)) ∙ elim (dec_lt i (length cores)) [
    | yes low ↦ get_elem?-append_left cores nulls i low ∙ ground arith
    | no high ↦ elim (dec_lt i core_id) [
      | yes low ↦
          get_elem?-append_fill cores missing i none (omega arith) (omega arith) ∙ ground arith
      | no past ↦ get_elem?-past grown i (omega (arith, size, filled)) ∙ ground arith
    ]
  ]
]
  where
    missing : ℕ
    missing = suc core_id - length cores

    nulls : List (Option C)
    nulls = replicate missing none

    grown : List (Option C)
    grown = cores ++ nulls

    size : length grown ≡ length cores + length nulls
    size = length-append cores nulls

    filled : length nulls ≡ missing
    filled = length-replicate missing none

-- After `initialize_core(core_id)` there is a new core at `core_id`, every core that was there at
-- another number is as before, the numbers between hold null, there is none past these, and nothing
-- but the cores has changed.
pub initialize_core-get :
    (p : Parts) (core_id i : ℕ) (s : StorageManager p)
    → (s' : StorageManager p) × (initialize_core p core_id [] s ≡ returns (tt, s'))
      × (get_elem? s'.cores i ≡ initialized p.new_core core_id s.cores i)
      × (s' ≡ record s { cores = s'.cores })
unfolding initialize_core
initialize_core-get p core_id i s =
    let grown = s.cores ++ replicate (suc core_id - length s.cores) none in
    (
      record s { cores = set grown core_id (some p.new_core) },
      refl,
      set-initialized p.new_core core_id s.cores i,
      refl,
    )

slot-cases :
    {C : Type 0} (o : Option (Option C))
    → (o ≡ none) ⊎ ((o ≡ some none) ⊎ ((c : C) × (o ≡ some (some c))))
slot-cases none = inl refl
slot-cases (some none) = inr (inl refl)
slot-cases (some (some c)) = inr (inr (c, refl))

-- A call on a core changes nothing but the cores.
pub on_core-cores :
    (p : Parts) (f : p.Core → p.Core) (i : ℕ) (held : List ℕ) (s : StorageManager p)
    → (cs : List (Option p.Core)) × (length cs ≡ length s.cores)
      × (on_core p f i held s ≡ returns (tt, record s { cores = cs }))
unfolding on_core
on_core-cores p f i held s = elim (slot-cases (get_elem? s.cores i)) [
  | inl e ↦ (s.cores, refl, ground (arith, e))
  | inr (inl e) ↦ (s.cores, refl, ground (arith, e))
  | inr (inr (c, e)) ↦
      (set s.cores i (some (f c)), length-set s.cores i (some (f c)), ground (arith, e))
]

-- With a core in place, `submit_task` answers the number it was given, the task is pending and every
-- other task's status is as before; cancelling it then makes it cancelled, and still changes no other.
pub submit-cancel :
    (p : Parts) (task_id : ℕ) (task : p.Task) (s : StorageManager p)
    → 0 < length s.cores
    → (other : ℕ) → other ≢ task_id
    → (s1 : StorageManager p) × (s2 : StorageManager p) × (submit_task p task_id task [] s
        ≡ returns (task_id, s1))
      × (get_task_status p task_id [] s1 ≡ returns (pending, s1))
      × (cancel_task p task_id [] s1 ≡ returns (tt, s2))
      × (get_task_status p task_id [] s2 ≡ returns (cancelled, s2))
      × (find other s1.task_status ≡ find other s.task_status)
      × (find other s2.task_status ≡ find other s.task_status)
unfolding submit_task cancel_task get_task_status target_core
submit-cancel p task_id task s some_there other ne =
    let (cs1, same1, e1) =
      on_core-cores p (λ c. p.core_submit c task_id task) (task_id % length s.cores)
        (task_mutex ∷ []) pended in
    let s1 : StorageManager p = record pended { cores = cs1 } in
    let (cs2, same2, e2) =
      on_core-cores p (λ c. p.core_cancel c task_id) (task_id % length cs1) (task_mutex ∷ []) s1 in
    let s2 : StorageManager p = record s1 {
      cores = cs2;
      task_status = insert task_id cancelled s1.task_status;
    } in
    let old = find-insert_ne other task_id pending s.task_status ne in
    let in1 = find-insert_self task_id task s.tasks in
    let st1 = find-insert_self task_id pending s.task_status in
    let st2 = find-insert_self task_id cancelled s1.task_status in
    (
      s1,
      s2,
      ground (arith, e1),
      ground (arith, st1),
      ground (arith, in1, e2, same1),
      ground (arith, st2),
      old,
      find-insert_ne other task_id cancelled s1.task_status ne ∙ old,
    )
  where
    pended : StorageManager p
    pended = record s {
      tasks = insert task_id task s.tasks;
      task_status = insert task_id pending s.task_status;
    }

-- With no core to compute a remainder by, submitting a task is a division by zero.
pub submit_task-no_cores :
    (p : Parts) (task_id : ℕ) (task : p.Task) (s : StorageManager p)
    → length s.cores ≡ 0
    → submit_task p task_id task [] s ≡ stops fault
unfolding submit_task target_core
submit_task-no_cores p task_id task s h = ground (arith, h)
