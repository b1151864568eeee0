-- ===== src/Service/Examples.antt =====
-- Tests of the admission, and its theorems at concrete inputs.
use vaultsmith.Base.{
  ◌+◌, ◌<◌, ◌≤◌, ◌≡◌, ◌↔◌, refl, true, false, List, [], ◌∷◌, none, some, ok, err, arith,
}
use vaultsmith.Service.Admission.{
  Admission, Context, LeaseRef, admission_saturated, new_admission, runtime_admission_capacity,
  clamped_capacity, try_acquire, release, context, lease_at, set_lease, live_for_context, bound_to,
  execution_context,
}
use vaultsmith.Service.Admission.Steps.{
  entering, leaving, left, Running, on, Pick, first, put, admit, begin, Steps, stop, more, count,
  active_leases,
}
use vaultsmith.Service.Admission.Counts.{Counts, Steps-Counts, Steps-never_wait, in_use-le}
use vaultsmith.Service.Admission.Calls.{
  Call, acquire, bind_context, run_call, run_calls, run_calls-Steps, try_acquire_iff,
}
use vaultsmith.Service.Admission.Leases.{release_idem, Fresh, context_once, release_ends}
use vaultsmith.Service.Admission.Kept.{given_back, asked}
use vaultsmith.Service.Admission.Lifetime.{live_for_context-run_calls_iff}

abbrev fresh : Admission
fresh = record {
  id = 1;
  capacity = 2;
  tokens = 0;
  in_use = 0;
  rejections = 0;
  saturated = admission_saturated;
  leases = [];
}

abbrev request : Context
request = record { name = 7; binding = none }

abbrev ref : LeaseRef
ref = record { admission = 1; number = 0 }

-- Opens the admission for the tests below.
admissions : Unit {0}
unfolding new_admission clamped_capacity try_acquire release context lease_at set_lease
    live_for_context bound_to execution_context run_call run_calls
admissions = tt

new : new_admission 1 2 admission_saturated ≡ ok fresh
unfolding admissions
new = refl

clamped : (runtime_admission_capacity 0 ≡ 1) × (runtime_admission_capacity 40 ≡ 16)
unfolding admissions
clamped = (refl, refl)

abbrev history : List Call
history = bind_context 0 (some request) ∷ acquire request none none ∷ []

-- Another call and a request for the context, after an acquisition.
abbrev later_calls : List Call
later_calls = acquire request none none ∷ bind_context 0 (some request) ∷ []

abbrev held : Admission
held = run_calls history fresh

abbrev acquired : Admission
acquired = (try_acquire request none none fresh).1

third_refused :
    (try_acquire request none none
      (run_calls (acquire request none none ∷ acquire request none none ∷ []) fresh)).0
    ≡ err admission_saturated
unfolding admissions
third_refused = refl

held-live : live_for_context ref (record request { binding = some ref }) held ≡ true
unfolding admissions
held-live = refl

acquired-Fresh : Fresh 0 acquired (record {
  active = true;
  origin = request;
  bound_context = record request { binding = some ref };
  context_issued = false;
})
unfolding admissions
acquired-Fresh = record { present = refl; active = refl; unissued = refl }

-- One call has its token, a second has made its lease, and that lease is being released.
two_calls : (r : Running) × (Steps (on fresh []) r) × (Pick leaving r.calls (entering ∷ []))
unfolding admissions
two_calls = (
  _,
  more (more (more (more stop (put (omega arith))) (put (omega arith))) (admit request first))
      (begin 0 _ refl refl),
  first,
)

abbrev busy : Running
busy = two_calls.0

Steps-Counts_example : Counts busy
Steps-Counts_example = Steps-Counts 1 2 admission_saturated new two_calls.1

Steps-never_wait_example :
    (Pick entering busy.calls (entering ∷ []) → 0 < busy.admission.tokens)
    × (Pick leaving busy.calls (entering ∷ []) → 0 < busy.admission.tokens)
    × (Pick left busy.calls (entering ∷ []) → 0 < busy.admission.in_use)
Steps-never_wait_example = Steps-never_wait 1 2 admission_saturated new two_calls.1

in_use-le_example :
    (busy.calls ≡ []
      → (busy.admission.in_use ≡ active_leases busy.admission.leases)
        × (busy.admission.in_use ≤ busy.admission.capacity))
    × (busy.admission.in_use ≤ busy.admission.capacity + count left busy.calls)
in_use-le_example = in_use-le 1 2 admission_saturated new two_calls.1

run_calls-Steps_example : Steps (on fresh []) (on (run_calls history fresh) [])
run_calls-Steps_example = run_calls-Steps 1 2 admission_saturated new history

try_acquire_iff_example :
    ((r : LeaseRef) × ((try_acquire request none none (run_calls history fresh)).0 ≡ ok r))
    ↔ (active_leases (run_calls history fresh).leases < (run_calls history fresh).capacity)
try_acquire_iff_example = try_acquire_iff 1 2 admission_saturated new history request

release_idem_example : release 0 (release 0 held) ≡ release 0 held
release_idem_example = release_idem 0 held

context_once_example :
    ((context 0 (some request) acquired).0 ≡ some (record request { binding = some ref }))
    × (context 0 none (context 0 (some request) acquired).1
        ≡ (none, (context 0 (some request) acquired).1))
    × (context 0 none acquired ≡ (none, acquired))
context_once_example = context_once 0 acquired _ acquired-Fresh request none

acquires : try_acquire request none none fresh ≡ (ok ref, acquired)
unfolding admissions
acquires = refl

live_for_context-run_calls_iff_example :
    (live_for_context ref (record request { binding = some ref }) (run_calls later_calls acquired)
      ≡ true)
    ↔ (((some ref) ≡ some ref) × (asked 0 later_calls ≡ true) × (given_back 0 later_calls ≡ false))
live_for_context-run_calls_iff_example =
    live_for_context-run_calls_iff request none none fresh acquired ref acquires later_calls
      (record request { binding = some ref })

release_ends_example :
    (live_for_context ref request (release 0 held) ≡ false)
    × (execution_context 0 (release 0 held) ≡ none)
release_ends_example = release_ends ref request held
