-- ===== src/Probe/Verdict.antt =====
-- What the readiness probe answers without its cache.
use ggskit.Common.Int.{ℤ}
use ggskit.Probe.{
  always_check, other_policy, Probe, failures, none_left, run_checks, Answer, gate_closed, is_ready,
  not_ready, answer_of, readyz,
}
use ggskit.Common.{
  ◌≡◌, refl, sym, ap, ◌↔◌, ◌⊎◌, inl, inr, true, false, Option, none, some, List, [], ◌∷◌,
  Bool-cases, Text, In, nat_eq, text_eq, some-none,
}

-- A checker reports an error.
abbrev pub Reports : List (Text × Option Text) → Text → Text → Type 0
Reports said name e = In (name, some e) said

failures_lem :
    (said : List (Text × Option Text)) (name e : Text)
    → In (name, e) (failures said) ↔ Reports said name e
unfolding failures
failures_lem [] name e = (λ i. i, λ i. i)
failures_lem ((n, none) ∷ said) name e = (
  λ i. inr ((failures_lem said name e).0 i),
  λ i. elim i [
    | inl h ↦ absurd (some-none e (sym (ap (λ a. a.1) h)))
    | inr later ↦ (failures_lem said name e).1 later
  ],
)
failures_lem ((n, some x) ∷ said) name e = (
  λ i. elim i [
    | inl h ↦ inl (ap (λ f. (f.0, some f.1)) h)
    | inr later ↦ inr ((failures_lem said name e).0 later)
  ],
  λ i. elim i [
    | inl h ↦ inl (ap (λ a. (a.0, elim a.1 [ none ↦ x | some y ↦ y ])) h)
    | inr later ↦ inr ((failures_lem said name e).1 later)
  ],
)

-- The verdict of checkers: ready and none reports an error, or not ready, with all that report one.
abbrev pub IsVerdict : List (Text × Option Text) → Answer → Type 0
IsVerdict said out =
    ((out ≡ is_ready) × ((name e : Text) → ¬ Reports said name e))
    ⊎ ((fails : List (Text × Text)) × (out ≡ not_ready fails)
        × ((name : Text) × (e : Text) × Reports said name e)
        × ((name e : Text) → In (name, e) fails ↔ Reports said name e))

answer_of-IsVerdict :
    (said : List (Text × Option Text)) (fails : List (Text × Text))
    → ((name e : Text) → In (name, e) fails ↔ Reports said name e)
    → IsVerdict said (answer_of (none_left fails, fails))
answer_of-IsVerdict said [] h = inl (refl, λ name e i. (h name e).1 i)
answer_of-IsVerdict said ((name, e) ∷ fails) h =
    inr ((name, e) ∷ fails, refl, (name, e, (h name e).0 (inl refl)), h)

-- The policy asks the checkers at each request.
abbrev pub AsksAlways : Probe → Type 0
AsksAlways s = (s.policy ≡ always_check) ⊎ (s.policy ≡ other_policy)

-- Under a policy that asks the checkers at each request, a request leaves the probe as it is. A
-- closed gate is answered as such. Where the gate is open, the probe is ready and no checker
-- reports an error, or it is not ready, some checker reports one, and the answer has the errors
-- that checkers report and no others.
pub readyz-IsVerdict :
    (now done : ℤ) (said : List (Text × Option Text)) (s : Probe)
    → AsksAlways s
    → let out = readyz now done said s in
      (out.0 ≡ s)
      × (((s.ready_flag ≡ false) × (out.1 ≡ gate_closed))
          ⊎ ((s.ready_flag ≡ true) × IsVerdict said out.1))
unfolding readyz run_checks
readyz-IsVerdict now done said s asked = elim (Bool-cases s.ready_flag) [
  | inr closed ↦ rw closed (refl, inl (refl, refl))
  | inl open_gate ↦
      let verdict = answer_of-IsVerdict said (failures said) (failures_lem said) in
      elim asked [
        | inl e ↦ rw (open_gate, e) (refl, inr (refl, verdict))
        | inr e ↦ rw (open_gate, e) (refl, inr (refl, verdict))
      ]
]
