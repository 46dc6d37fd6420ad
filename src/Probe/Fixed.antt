-- ===== src/Probe/Fixed.antt =====
-- What Init fixes for good.
use ggskit.Common.Int.{ℤ}
use ggskit.Probe.{
  Probe, check_initialized, already_initialized, has_name, add_checker, duplicate_checker,
  with_readiness_checker, add_checkers, with_readiness_checkers, with_readiness_policy,
  with_readiness_cache_ttl, with_readiness_timeout, Choice, choose_checker, choose_checkers,
  choose_policy, choose_cache_ttl, choose_timeout, apply_choice, apply_choices, init_probe,
  router_is_nil,
}
use ggskit.Common.{
  ◌≡◌, refl, sym, ap, subst, Bool, true, false, List, [], ◌∷◌, if◌then◌else◌, Text, nat_eq, text_eq,
  ok, err, ok-injective, err_ok, bind-ok,
}

-- No name twice.
abbrev pub IsDistinct : List Text → Type 0
IsDistinct [] = Unit
IsDistinct (n ∷ ns) = (has_name n ns ≡ false) × IsDistinct ns

added :
    (name : Text) (s after : Probe) (b : Bool)
    → has_name name s.checkers ≡ b
    → (if b then err (duplicate_checker name) else ok (record s { checkers = name ∷ s.checkers }))
      ≡ ok after
    → IsDistinct s.checkers
    → IsDistinct after.checkers
added name s after true e h d = absurd (err_ok h)
added name s after false e h d = subst (λ x. IsDistinct x.checkers) (ok-injective h) (e, d)

add_checkers-IsDistinct :
    (names : List Text) (s after : Probe)
    → add_checkers names s ≡ ok after
    → IsDistinct s.checkers
    → IsDistinct after.checkers
add_checkers-IsDistinct [] s after h d = subst (λ x. IsDistinct x.checkers) (ok-injective h) d
add_checkers-IsDistinct (name ∷ names) s after h d =
    let (mid, e, h1) = bind-ok (add_checker name s) _ after h in
    add_checkers-IsDistinct names mid after h1
      (added name s mid (has_name name s.checkers) refl e d)

apply_choice-IsDistinct :
    (c : Choice) (s after : Probe)
    → apply_choice c s ≡ ok after
    → IsDistinct s.checkers
    → IsDistinct after.checkers
unfolding apply_choice with_readiness_checker with_readiness_checkers with_readiness_policy
    with_readiness_cache_ttl with_readiness_timeout
apply_choice-IsDistinct (choose_checker name) s after h d =
    let (u, e, h1) = bind-ok (check_initialized false s) _ after h in
    added name s after (has_name name s.checkers) refl h1 d
apply_choice-IsDistinct (choose_checkers names) s after h d =
    let (u, e, h1) = bind-ok (check_initialized false s) _ after h in
    add_checkers-IsDistinct names s after h1 d
apply_choice-IsDistinct (choose_policy p) s after h d =
    let (u, e, h1) = bind-ok (check_initialized false s) _ after h in
    subst (λ x. IsDistinct x.checkers) (ok-injective h1) d
apply_choice-IsDistinct (choose_cache_ttl ttl) s after h d =
    let (u, e, h1) = bind-ok (check_initialized false s) _ after h in
    subst (λ x. IsDistinct x.checkers) (ok-injective h1) d
apply_choice-IsDistinct (choose_timeout t) s after h d =
    let (u, e, h1) = bind-ok (check_initialized false s) _ after h in
    subst (λ x. IsDistinct x.checkers) (ok-injective h1) d

apply_choices-IsDistinct :
    (cs : List Choice) (s after : Probe)
    → apply_choices cs s ≡ ok after
    → IsDistinct s.checkers
    → IsDistinct after.checkers
unfolding apply_choices
apply_choices-IsDistinct [] s after h d = subst (λ x. IsDistinct x.checkers) (ok-injective h) d
apply_choices-IsDistinct (c ∷ cs) s after h d =
    let (mid, e, h1) = bind-ok (apply_choice c s) _ after h in
    apply_choices-IsDistinct cs mid after h1 (apply_choice-IsDistinct c s mid e d)

-- Every option and a further `Init` panic.
abbrev pub IsClosed : Probe → Type 0
IsClosed s =
    ((c : Choice) → apply_choice c s ≡ err already_initialized)
    × ((has_router : Bool) (now : ℤ) (cs : List Choice)
        → init_probe has_router now cs s ≡ err already_initialized)

initialized-IsClosed : (s : Probe) → s.initialized ≡ true → IsClosed s
unfolding apply_choice with_readiness_checker with_readiness_checkers with_readiness_policy
    with_readiness_cache_ttl with_readiness_timeout init_probe check_initialized
initialized-IsClosed s h = (closed, λ has_router now cs. rw h refl)
  where
    closed : (c : Choice) → apply_choice c s ≡ err already_initialized
    closed (choose_checker name) = rw h refl
    closed (choose_checkers names) = rw h refl
    closed (choose_policy p) = rw h refl
    closed (choose_cache_ttl ttl) = rw h refl
    closed (choose_timeout t) = rw h refl

-- After an `Init` that returns, of a probe with no checker's name twice, no two checkers have one
-- name, and every option and every further `Init` panics because the probe is initialized.
pub init_probe-IsClosed :
    (has_router : Bool) (now : ℤ) (cs : List Choice) (s after : Probe)
    → IsDistinct s.checkers
    → init_probe has_router now cs s ≡ ok after
    → IsDistinct after.checkers × IsClosed after
unfolding init_probe
init_probe-IsClosed has_router now cs s after d h =
    let (u, e, h1) = bind-ok (check_initialized false s) _ after h in
    let (v, e1, h2) = bind-ok (if has_router then ok tt else err router_is_nil) _ after h1 in
    let (configured, e2, h3) = bind-ok (apply_choices cs s) _ after h2 in
    (
      subst (λ x. IsDistinct x.checkers) (ok-injective h3)
          (apply_choices-IsDistinct cs s configured e2 d),
      initialized-IsClosed after (ap (λ x. x.initialized) (sym (ok-injective h3))),
    )
