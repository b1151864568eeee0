-- ===== src/Service/Admission/Steps.antt =====
-- Calls of Admission that run at the same time: each atomic action is a step, and a call that is
-- between two of its actions is one of the running calls.
use vaultsmith.Base.{
  ℕ, zero, suc, ◌+◌, ◌<◌, ◌≤◌, ◌≡◌, refl, ap, Bool, true, false, arith, List, [], ◌∷◌, ◌++◌, Option,
  some,
}
use vaultsmith.Service.Admission.{
  Admission, Context, LeaseState, send, receive, reject, count_out, grant, deactivate, context,
  lease_at, set_lease,
}

-- Where a call is: it has put its token and not yet its lease; its lease is inactive and its token
-- not yet taken; its token is taken and it is still counted.
pub data Phase : Type 0 where
  entering leaving left : Phase

pub record Running : Type 0 where
  pub admission : Admission
  pub calls : List Phase

-- Taking one call out of the running ones.
pub data Pick (p : Phase) : List Phase → List Phase → Type 0 where
  first : {calls : List Phase} → Pick p (p ∷ calls) calls
  later : {q : Phase} {calls rest : List Phase} → Pick p calls rest → Pick p (q ∷ calls) (q ∷ rest)

abbrev pub on : Admission → List Phase → Running
on a calls = record { admission = a; calls = calls }

pub data Step : Running → Running → Type 0 where
  -- TryAcquire: the select, by whether the channel has room.
  put :
      {a : Admission} {calls : List Phase}
      → a.tokens < a.capacity
      → Step (on a calls) (on (send a) (entering ∷ calls))
  full :
      {a : Admission} {calls : List Phase}
      → a.capacity ≤ a.tokens
      → Step (on a calls) (on (reject a) calls)
  -- The context has ended after all: the token is taken back.
  withdraw :
      {a : Admission} {calls rest : List Phase}
      → Pick entering calls rest
      → 0 < a.tokens
      → Step (on a calls) (on (receive a) rest)
  admit :
      {a : Admission} {calls rest : List Phase} (ctx : Context)
      → Pick entering calls rest
      → Step (on a calls) (on (grant ctx a) rest)
  -- Release: the lease becomes inactive, its token is taken, and it is counted out.
  begin :
      {a : Admission} {calls : List Phase} (n : ℕ) (l : LeaseState)
      → lease_at n a.leases ≡ some l
      → l.active ≡ true
      → Step (on a calls) (on (deactivate n l a) (leaving ∷ calls))
  take_token :
      {a : Admission} {calls rest : List Phase}
      → Pick leaving calls rest
      → 0 < a.tokens
      → Step (on a calls) (on (receive a) (left ∷ rest))
  finish :
      {a : Admission} {calls rest : List Phase}
      → Pick left calls rest
      → Step (on a calls) (on (count_out a) rest)
  -- Context, under the lock of the lease.
  issue :
      {a : Admission} {calls : List Phase} (n : ℕ) (ctx : Option Context)
      → Step (on a calls) (on (context n ctx a).1 calls)

pub data Steps : Running → Running → Type 0 where
  stop : {r : Running} → Steps r r
  more : {r s t : Running} → Steps r s → Step s t → Steps r t

-- Running calls of one phase.
unfoldable pub matching : Phase → Phase → ℕ
matching entering entering = 1
matching leaving leaving = 1
matching left left = 1
matching p q = 0

unfoldable pub count : Phase → List Phase → ℕ
count p [] = 0
count p (q ∷ calls) = matching p q + count p calls

unfoldable pub weight : Bool → ℕ
weight true = 1
weight false = 0

unfoldable pub active_leases : List LeaseState → ℕ
active_leases [] = 0
active_leases (l ∷ ls) = weight l.active + active_leases ls

-- Every token is that of an active lease, of a call that will take it back, or of one that will
-- make its lease; every counted call has an active lease or is on its way out.
pub record Counts (r : Running) : Type 0 where
  pub tokens-eq :
      r.admission.tokens
      ≡ active_leases r.admission.leases + count entering r.calls + count leaving r.calls
  pub in_use-eq :
      r.admission.in_use
      ≡ active_leases r.admission.leases + count leaving r.calls + count left r.calls
  pub bounded : r.admission.tokens ≤ r.admission.capacity

pub active_leases-append :
    (ls : List LeaseState) (l : LeaseState)
    → active_leases (ls ++ (l ∷ [])) ≡ weight l.active + active_leases ls
unfolding active_leases
active_leases-append [] l = refl
active_leases-append (x ∷ ls) l = omega (arith, active_leases-append ls l)

-- Replacing a lease exchanges its weight.
pub active_leases-set_lease :
    (n : ℕ) (l next : LeaseState) (ls : List LeaseState)
    → lease_at n ls ≡ some l
    → active_leases (set_lease n next ls) + weight l.active ≡ active_leases ls + weight next.active
unfolding active_leases lease_at set_lease
active_leases-set_lease n l next [] e = cc
active_leases-set_lease zero l next (x ∷ ls) e =
    let same : x ≡ l = cc in
    let weights : weight x.active ≡ weight l.active = ap (λ y. weight y.active) same in
    omega (arith, weights)
active_leases-set_lease (suc n) l next (x ∷ ls) e =
    omega (arith, active_leases-set_lease n l next ls e)

pub count-Pick :
    (p q : Phase) {calls rest : List Phase}
    → Pick p calls rest
    → count q calls ≡ matching q p + count q rest
unfolding count
count-Pick p q first = refl
count-Pick p q (later {q = r} k) = omega (arith, count-Pick p q k)
