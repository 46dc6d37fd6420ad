-- ===== src/Probe/Recent.antt =====
-- The age of what the readiness probe answers.
use mathlib.Core.Option.{some-injective}
use ggskit.Common.Int.{ℤ, ltb_ℤ, ◌-ℤ◌}
use ggskit.Probe.{
  Policy, cached, Probe, run_checks, Answer, answer_of, is_fresh, serve, serve_cached, readyz,
  set_ready, gate_closed,
}
use ggskit.Common.{
  ◌≡◌, refl, sym, ap, subst, ◌∙◌, ◌⊎◌, inl, inr, Bool, true, false, not, ◌&&◌, Option, none, some,
  List, [], ◌∷◌, if◌then◌else◌, Bool-cases, Text, nat_eq, text_eq, if_cases, some-none, false-true,
}

-- The checks that were made: the time they were stored, and what the checkers said.
abbrev Runs : Type 0
Runs = List (ℤ × List (Text × Option Text))

abbrev checks_now : ℤ → Probe → Bool
checks_now now s = s.ready_flag && not (is_fresh now s.cache_ttl s.cache.ts)

abbrev made : Bool → ℤ × List (Text × Option Text) → Runs → Runs
made true run runs = run ∷ runs
made false run runs = runs

-- The states of a probe with the checks made so far. The gate is moved and requests are served in
-- any order.
data Reach (start : Probe) : Runs → Probe → Type 0 where
  starts : Reach start [] start
  gates :
      {runs : Runs} {s : Probe} → Reach start runs s → (b : Bool) → Reach start runs (set_ready b s)
  asks :
      {runs : Runs} {s : Probe}
      → Reach start runs s
      → (now done : ℤ) (said : List (Text × Option Text))
      → Reach start (made (checks_now now s) (done, said) runs) (readyz now done said s).0

-- The cache has what the checkers said when they were last asked.
abbrev IsOfRun : Runs → Probe → ℤ → Type 0
IsOfRun runs s t =
    (said : List (Text × Option Text)) × (older : Runs) × (runs ≡ (t, said) ∷ older)
    × ((s.cache.ready, s.cache.fails) ≡ run_checks said)

abbrev IsTrue : Runs → Probe → Type 0
IsTrue runs s = (s.policy ≡ cached) × ((t : ℤ) → s.cache.ts ≡ some t → IsOfRun runs s t)

abbrev IsTrueOf : ℤ × List (Text × Option Text) → Runs → Bool → Probe × Answer → Type 0
IsTrueOf run runs b out = IsTrue (made b run runs) out.0

cached_step :
    (now done : ℤ) (said : List (Text × Option Text)) (runs : Runs) (s : Probe)
    → IsTrue runs s
    → IsTrue
        (made (not (is_fresh now s.cache_ttl s.cache.ts)) (done, said) runs)
        (serve_cached now done said s).0
unfolding serve_cached
cached_step now done said runs s h = elim (Bool-cases (is_fresh now s.cache_ttl s.cache.ts)) [
  | inl fresh ↦ rw fresh h
  | inr stale ↦
      rw stale (h.0, λ t e. (said, runs, ap (λ d. (d, said) ∷ runs) (some-injective _ _ e), refl))
]

-- A request by the gate and the policy.
abbrev served : Bool → Policy → ℤ → ℤ → List (Text × Option Text) → Probe → Probe × Answer
served b p now done said s = if not b then (s, gate_closed) else serve p now done said s

served-IsTrue :
    (b : Bool) (now done : ℤ) (said : List (Text × Option Text)) (runs : Runs) (s : Probe)
    → IsTrue runs s
    → IsTrue
        (made (b && not (is_fresh now s.cache_ttl s.cache.ts)) (done, said) runs)
        (served b cached now done said s).0
served-IsTrue true now done said runs s h = cached_step now done said runs s h
served-IsTrue false now done said runs s h = h

readyz-IsTrue :
    (now done : ℤ) (said : List (Text × Option Text)) (runs : Runs) (s : Probe)
    → IsTrue runs s
    → IsTrue (made (checks_now now s) (done, said) runs) (readyz now done said s).0
unfolding readyz
readyz-IsTrue now done said runs s h =
    subst
      (λ p.
        IsTrue (made (checks_now now s) (done, said) runs)
          (served s.ready_flag p now done said s).0)
      (sym h.0) (served-IsTrue s.ready_flag now done said runs s h)

Reach-IsTrue :
    (start : Probe) (runs : Runs) (s : Probe)
    → start.policy ≡ cached
    → start.cache.ts ≡ none
    → Reach start runs s
    → IsTrue runs s
Reach-IsTrue start runs s p c starts = (p, λ t e. absurd (some-none t (sym e ∙ c)))
Reach-IsTrue start runs s p c (gates r b) = Reach-IsTrue start runs _ p c r
Reach-IsTrue start runs s p c (asks {runs = before} r now done said) =
    readyz-IsTrue now done said before _ (Reach-IsTrue start before _ p c r)

-- The answer is that of checks made for this request, or of the last checks, stored less than the
-- time to live of the cache ago.
abbrev IsRecent : Runs → ℤ → ℤ → List (Text × Option Text) → Answer → Type 0
IsRecent runs now ttl said out =
    (out ≡ answer_of (run_checks said))
    ⊎ ((t : ℤ) × (earlier : List (Text × Option Text)) × (older : Runs) × (runs
          ≡ (t, earlier) ∷ older)
        × (ltb_ℤ (now -ℤ t) ttl ≡ true)
        × (out ≡ answer_of (run_checks earlier)))

fresh_time :
    (now ttl : ℤ) (o : Option ℤ)
    → is_fresh now ttl o ≡ true
    → (t : ℤ) × (o ≡ some t) × (ltb_ℤ (now -ℤ t) ttl ≡ true)
fresh_time now ttl none h = absurd (false-true h)
fresh_time now ttl (some t) h = (t, refl, h)

cached-IsRecent :
    (now done : ℤ) (said : List (Text × Option Text)) (runs : Runs) (s : Probe)
    → IsTrue runs s
    → IsRecent runs now s.cache_ttl said (serve_cached now done said s).1
unfolding serve_cached
cached-IsRecent now done said runs s h =
    if_cases (λ (out : Probe × Answer). IsRecent runs now s.cache_ttl said out.1)
      (is_fresh now s.cache_ttl s.cache.ts) _ _
      (λ fresh.
        let (t, e, young) = fresh_time now s.cache_ttl s.cache.ts fresh in
        let (earlier, older, last, same) = h.1 t e in
        inr (t, earlier, older, last, young, ap answer_of same))
      (λ stale. inl refl)

-- For requests that are served one after another, which the program does not ensure: under the
-- policy that caches, of a probe that started with nothing cached, whatever requests and gate
-- changes came before, where the gate is open the probe answers what the checkers say to this
-- request, or what they said when they were last asked, if that was less than the time to live of
-- the cache ago.
readyz-IsRecent :
    (start : Probe) (runs : Runs) (s : Probe) (now done : ℤ) (said : List (Text × Option Text))
    → start.policy ≡ cached
    → start.cache.ts ≡ none
    → Reach start runs s
    → s.ready_flag ≡ true
    → IsRecent runs now s.cache_ttl said (readyz now done said s).1
unfolding readyz
readyz-IsRecent start runs s now done said p c r raised =
    let h : IsTrue runs s = Reach-IsTrue start runs s p c r in
    subst (λ b. IsRecent runs now s.cache_ttl said (served b s.policy now done said s).1)
      (sym raised)
      (subst (λ q. IsRecent runs now s.cache_ttl said (served true q now done said s).1) (sym h.0)
        (cached-IsRecent now done said runs s h))
