-- ===== src/Service/Admission.antt =====
-- admission.go: Admission, its leases and their contexts. A pointer to a lease state is the number
-- of the lease in its admission, and a pointer to an admission is its `id`.
pub mod Steps
pub mod Counts
pub mod Calls
pub mod Leases
pub mod Kept
pub mod Lifetime
use vaultsmith.Base.{
  ℕ, ◌+◌, ◌-◌, ◌%◌, ◌^◌, Bool, true, false, not, ◌||◌, ◌&&◌, ◌==◌, ltb, List, [], ◌∷◌, ◌++◌, length,
  if◌then◌else◌, Option, none, some, Result, ok, err, zero, suc,
}

-- `ctx.Err()` of a context that has ended.
pub data ContextError : Type 0 where
  canceled deadline_exceeded : ContextError

pub data AdmissionError : Type 0 where
  invalid_capacity admission_saturated verifier_admission_saturated : AdmissionError
  ended : ContextError → AdmissionError

abbrev pub max_runtime_admission_capacity : ℕ
max_runtime_admission_capacity = 16

abbrev pub max_verifier_admission_capacity : ℕ
max_verifier_admission_capacity = 8

pub record LeaseRef : Type 0 where
  pub admission : ℕ
  pub number : ℕ

-- A context by its name, and the lease binding that it carries.
pub record Context : Type 0 where
  pub name : ℕ
  pub binding : Option LeaseRef

-- leaseState, with the origin of its binding. The bound context is the origin with the binding.
pub record LeaseState : Type 0 where
  pub active : Bool
  pub origin : Context
  pub bound_context : Context
  pub context_issued : Bool

pub record Admission : Type 0 where
  pub id : ℕ
  pub capacity : ℕ
  pub tokens : ℕ
  pub in_use : ℕ
  pub rejections : ℕ
  pub saturated : AdmissionError
  pub leases : List LeaseState

-- newAdmission; a negative capacity is refused as zero is.
unfoldable pub new_admission : ℕ → ℕ → AdmissionError → Result AdmissionError Admission
new_admission id capacity saturated =
    if ltb capacity 1
    then err invalid_capacity
    else ok (record {
      id = id;
      capacity = capacity;
      tokens = 0;
      in_use = 0;
      rejections = 0;
      saturated = saturated;
      leases = [];
    })

-- runtimeAdmissionCapacity and verifierAdmissionCapacity differ in the limit alone.
unfoldable pub clamped_capacity : ℕ → ℕ → ℕ
clamped_capacity limit gomaxprocs =
    if ltb gomaxprocs 1 then 1 else if ltb limit gomaxprocs then limit else gomaxprocs

abbrev pub runtime_admission_capacity : ℕ → ℕ
runtime_admission_capacity = clamped_capacity max_runtime_admission_capacity

abbrev pub verifier_admission_capacity : ℕ → ℕ
verifier_admission_capacity = clamped_capacity max_verifier_admission_capacity

-- `a.tokens <- struct{}{}` and `<-a.tokens`
abbrev pub send : Admission → Admission
send a = record a { tokens = a.tokens + 1 }

abbrev pub receive : Admission → Admission
receive a = record a { tokens = a.tokens - 1 }

-- `a.rejections.Add(1)`
abbrev pub reject : Admission → Admission
reject a = record a { rejections = (a.rejections + 1) % 2 ^ 64 }

-- `inUse.Add(-1)`
abbrev pub count_out : Admission → Admission
count_out a = record a { in_use = a.in_use - 1 }

abbrev pub next_ref : Admission → LeaseRef
next_ref a = record { admission = a.id; number = length a.leases }

abbrev pub new_lease : Context → Admission → LeaseState
new_lease ctx a = record {
  active = true;
  origin = ctx;
  bound_context = record { name = ctx.name; binding = some (next_ref a) };
  context_issued = false;
}

-- From `a.inUse.Add(1)` on.
abbrev pub grant : Context → Admission → Admission
grant ctx a = record a { in_use = a.in_use + 1; leases = a.leases ++ (new_lease ctx a ∷ []) }

-- The two readings of `ctx.Err()` are arguments.
unfoldable pub try_acquire :
    Context
    → Option ContextError
    → Option ContextError
    → Admission
    → Result AdmissionError LeaseRef × Admission
try_acquire ctx (some e) after a = (err (ended e), a)
try_acquire ctx none (some e) a =
    if ltb a.tokens a.capacity
    then (err (ended e), receive (send a))
    else (err a.saturated, reject a)
try_acquire ctx none none a =
    if ltb a.tokens a.capacity
    then (ok (next_ref a), grant ctx (send a))
    else (err a.saturated, reject a)

unfoldable pub lease_at : ℕ → List LeaseState → Option LeaseState
lease_at n [] = none
lease_at zero (l ∷ ls) = some l
lease_at (suc n) (l ∷ ls) = lease_at n ls

unfoldable pub set_lease : ℕ → LeaseState → List LeaseState → List LeaseState
set_lease n next [] = []
set_lease zero next (l ∷ ls) = next ∷ ls
set_lease (suc n) next (l ∷ ls) = l ∷ set_lease n next ls

abbrev pub deactivate : ℕ → LeaseState → Admission → Admission
deactivate n l a = record a { leases = set_lease n (record l { active = false }) a.leases }

unfoldable pub release : ℕ → Admission → Admission
release n a = elim (lease_at n a.leases) [
  | none ↦ a
  | some l ↦ if l.active then count_out (receive (deactivate n l a)) else a
]

-- Context: the bound context is handed out once. The argument may be nil.
unfoldable pub context : ℕ → Option Context → Admission → Option Context × Admission
context n none a = (none, a)
context n (some ctx) a = elim (lease_at n a.leases) [
  | none ↦ (some ctx, a)
  | some l ↦ if not l.active || l.context_issued then (some ctx, a) else (
    some l.bound_context,
    record a { leases = set_lease n (record l { context_issued = true }) a.leases },
  )
]

abbrev pub ref_eq : LeaseRef → LeaseRef → Bool
ref_eq r q = r.admission == q.admission && r.number == q.number

-- `binding != nil && binding.state == l.state`
unfoldable pub bound_to : Context → LeaseRef → Bool
bound_to ctx ref = elim ctx.binding [ none ↦ false | some bound ↦ ref_eq bound ref ]

-- liveForContext, and holdForContext before it keeps the lock; the state of `ref` is that of `a`.
unfoldable pub live_for_context : LeaseRef → Context → Admission → Bool
live_for_context ref ctx a =
    if not (ref.admission == a.id) || not (bound_to ctx ref)
    then false
    else elim (lease_at ref.number a.leases) [
      | none ↦ false
      | some l ↦ l.active && l.context_issued
    ]

unfoldable pub execution_context : ℕ → Admission → Option Context
execution_context n a = elim (lease_at n a.leases) [
  | none ↦ none
  | some l ↦ if not l.active || not l.context_issued then none else some l.bound_context
]

-- contextErr; `cancellation` is contextCancellation by the name of the context.
unfoldable pub context_err :
    {E : Type 0} → (ℕ → Option E) → LeaseRef → Context → Admission → Option E
context_err cancellation ref ctx a = elim (cancellation ctx.name) [
  | some e ↦ some e
  | none ↦
      if not (bound_to ctx ref)
      then none
      else elim (lease_at ref.number a.leases) [ none ↦ none | some l ↦ cancellation l.origin.name ]
]
