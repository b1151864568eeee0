-- ===== src/Service/Admission/Counts.antt =====
-- The counts of an admission under every interleaving of calls.
use vaultsmith.Base.{
  Option, none, some, ℕ, ◌+◌, ◌<◌, ◌≤◌, ◌≡◌, inl, inr, refl, ap, subst, true, false, not, ◌||◌,
  arith, List, [], Option-cases, Bool-cases, Result, ok, ltb,
}
use vaultsmith.Service.Admission.{
  Admission, AdmissionError, Context, new_admission, new_lease, context, lease_at,
}
use vaultsmith.Service.Admission.Steps.{
  Phase, entering, leaving, left, Running, on, Pick, Step, put, full, withdraw, admit, begin,
  take_token, finish, issue, Steps, stop, more, count, weight, matching, active_leases,
  active_leases-append, active_leases-set_lease, count-Pick,
}

-- Every token is that of an active lease, of a call that has not yet made its lease or will take
-- its token back, or of a call that has yet to take it; every counted call has an active lease or
-- is on its way out.
pub record Counts (r : Running) : Type 0 where
  pub tokens-eq :
      r.admission.tokens
      ≡ active_leases r.admission.leases + count entering r.calls + count leaving r.calls
  pub in_use-eq :
      r.admission.in_use
      ≡ active_leases r.admission.leases + count leaving r.calls + count left r.calls
  pub bounded : r.admission.tokens ≤ r.admission.capacity

context-same :
    (n : ℕ) (ctx : Option Context) (a : Admission)
    → let b = (context n ctx a).1 in
      (b.tokens ≡ a.tokens)
      × (b.in_use ≡ a.in_use)
      × (b.capacity ≡ a.capacity)
      × (active_leases b.leases ≡ active_leases a.leases)
unfolding context
context-same n none a = (refl, refl, refl, refl)
context-same n (some ctx) a = elim (Option-cases (lease_at n a.leases)) [
  | inl e ↦ rw (e, context) (refl, refl, refl, refl)
  | inr (l, e) ↦ elim (Bool-cases (not l.active || l.context_issued)) [
    | inl c ↦ rw (e, c, context) (refl, refl, refl, refl)
    | inr c ↦
        rw (e, c, context)
          (
            refl,
            refl,
            refl,
            omega (
              arith,
              active_leases-set_lease n l (record l { context_issued = true }) a.leases e,
            ),
          )
  ]
]

Step-Counts : {r s : Running} → Step r s → Counts r → Counts s
unfolding count matching weight
Step-Counts (put {a} {calls} room) h = record {
  tokens-eq = omega (arith, h.tokens-eq);
  in_use-eq = omega (arith, h.in_use-eq);
  bounded = omega (arith, room);
}
Step-Counts (full {a} {calls} none_left) h = record {
  tokens-eq = h.tokens-eq;
  in_use-eq = h.in_use-eq;
  bounded = h.bounded;
}
Step-Counts (withdraw {a} k some_token) h = record {
  tokens-eq =
      omega (arith, h.tokens-eq, count-Pick entering entering k, count-Pick entering leaving k);
  in_use-eq = omega (arith, h.in_use-eq, count-Pick entering leaving k, count-Pick entering left k);
  bounded = omega (arith, h.bounded);
}
Step-Counts (admit {a} ctx k) h =
    let made = active_leases-append a.leases (new_lease ctx a) in
    record {
      tokens-eq =
          omega (
            arith,
            h.tokens-eq,
            made,
            count-Pick entering entering k,
            count-Pick entering leaving k,
          );
      in_use-eq =
          omega
            (arith, h.in_use-eq, made, count-Pick entering leaving k, count-Pick entering left k);
      bounded = h.bounded;
    }
Step-Counts (begin {a} n l e active) h =
    let exchanged = active_leases-set_lease n l (record l { active = false }) a.leases e in
    let one : weight l.active ≡ 1 = ap weight active in
    record {
      tokens-eq = omega (arith, h.tokens-eq, exchanged, one);
      in_use-eq = omega (arith, h.in_use-eq, exchanged, one);
      bounded = h.bounded;
    }
Step-Counts (take_token {a} k some_token) h = record {
  tokens-eq =
      omega (arith, h.tokens-eq, count-Pick leaving entering k, count-Pick leaving leaving k);
  in_use-eq = omega (arith, h.in_use-eq, count-Pick leaving leaving k, count-Pick leaving left k);
  bounded = omega (arith, h.bounded);
}
Step-Counts (finish {a} k) h = record {
  tokens-eq = omega (arith, h.tokens-eq, count-Pick left entering k, count-Pick left leaving k);
  in_use-eq = omega (arith, h.in_use-eq, count-Pick left leaving k, count-Pick left left k);
  bounded = h.bounded;
}
Step-Counts (issue {a} n ctx) h =
    let (t, u, c, l) = context-same n ctx a in
    record {
      tokens-eq = omega (arith, h.tokens-eq, t, l);
      in_use-eq = omega (arith, h.in_use-eq, u, l);
      bounded = omega (arith, h.bounded, t, c);
    }

new_admission-Counts :
    (id capacity : ℕ) (saturated : AdmissionError) {a : Admission}
    → new_admission id capacity saturated ≡ ok a
    → Counts (on a [])
unfolding new_admission count active_leases
new_admission-Counts id capacity saturated {a} h = elim (Bool-cases (ltb capacity 1)) [
  | inl e ↦ cc (rw e at h)
  | inr e ↦
      subst (λ x. Counts (on x [])) (ok-eq (rw e at h))
        (record { tokens-eq = refl; in_use-eq = refl; bounded = omega arith })
]
  where
    ok-eq : {x y : Admission} → ◌≡◌ {A = Result AdmissionError Admission} (ok x) (ok y) → x ≡ y
    ok-eq k = cc

-- Whatever calls run at the same time on a new admission, in whatever order their actions come,
-- the tokens and the count are those of the leases and of the calls that are between two actions,
-- and the tokens are at most the capacity.
pub Steps-Counts :
    (id capacity : ℕ) (saturated : AdmissionError) {a : Admission} {r : Running}
    → new_admission id capacity saturated ≡ ok a
    → Steps (on a []) r
    → Counts r
Steps-Counts id capacity saturated new stop = new_admission-Counts id capacity saturated new
Steps-Counts id capacity saturated new (more before step) =
    Step-Counts step (Steps-Counts id capacity saturated new before)

-- Taking a token never waits: while a call has yet to take or to give back its token, the channel
-- is not empty; and while a call has yet to be counted out, the count is not zero.
pub Steps-never_wait :
    (id capacity : ℕ) (saturated : AdmissionError) {a : Admission} {r : Running} {rest : List Phase}
    → new_admission id capacity saturated ≡ ok a
    → Steps (on a []) r
    → (Pick entering r.calls rest → 0 < r.admission.tokens)
      × (Pick leaving r.calls rest → 0 < r.admission.tokens)
      × (Pick left r.calls rest → 0 < r.admission.in_use)
unfolding matching
Steps-never_wait id capacity saturated new steps =
    let h = Steps-Counts id capacity saturated new steps in
    (
      λ k. omega (arith, h.tokens-eq, count-Pick entering entering k),
      λ k. omega (arith, h.tokens-eq, count-Pick leaving leaving k),
      λ k. omega (arith, h.in_use-eq, count-Pick left left k),
    )

-- When no call is between two actions, InUse is the count of the active leases, and it is at most
-- the capacity; otherwise it is at most the capacity and the calls not yet counted out.
pub in_use-le :
    (id capacity : ℕ) (saturated : AdmissionError) {a : Admission} {r : Running}
    → new_admission id capacity saturated ≡ ok a
    → Steps (on a []) r
    → (r.calls ≡ []
        → (r.admission.in_use ≡ active_leases r.admission.leases)
          × (r.admission.in_use ≤ r.admission.capacity))
      × (r.admission.in_use ≤ r.admission.capacity + count left r.calls)
unfolding count
in_use-le id capacity saturated {r = r} new steps =
    let h = Steps-Counts id capacity saturated new steps in
    (
      λ e.
          let entered : count entering r.calls ≡ 0 = ap (count entering) e in
          let leaving_none : count leaving r.calls ≡ 0 = ap (count leaving) e in
          let left_none : count left r.calls ≡ 0 = ap (count left) e in
          (
            omega (arith, h.in_use-eq, leaving_none, left_none),
            omega (arith, h.in_use-eq, h.tokens-eq, h.bounded, entered, leaving_none, left_none),
          ),
      omega (arith, h.in_use-eq, h.tokens-eq, h.bounded),
    )
