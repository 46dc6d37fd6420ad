-- ===== src/Probe.antt =====
-- The health and readiness probes: infra/monitor/probe. Times are nanoseconds; what the checkers
-- say is an argument, in the order in which their answers arrive. A request uses
-- the cache of the readiness in one step, where the code has no lock.
pub mod Recent
pub mod Verdict
pub mod Fixed
use ggskit.Common.Int.{◌-ℤ◌, ltb_ℤ, pos, ℤ}
use ggskit.Common.{
  [], ◌||◌, ◌*◌, ◌^◌, Bool, true, false, not, Option, none, some, List, ◌∷◌, if◌then◌else◌, Text,
  ◌==◌, Result, ok, err, ◌>>=◌, nat_eq, text_eq, ◌>>◌,
}

-- `ReadinessPolicy`; every other number is served as `AlwaysCheck`.
pub data Policy : Type 0 where
  always_check gate_only cached other_policy : Policy

-- `readinessCache`; no time is the zero time, which is longer ago than any duration.
pub record ReadinessCache : Type 0 where
  pub ready : Bool
  pub fails : List (Text × Text)
  pub ts : Option ℤ

-- The variables of the package; of a checker its name.
pub record Probe : Type 0 where
  pub initialized : Bool
  pub start_at : ℤ
  pub ready_flag : Bool
  pub checkers : List Text
  pub policy : Policy
  pub timeout : ℤ
  pub cache_ttl : ℤ
  pub cache : ReadinessCache

abbrev pub initial : Probe
initial = record {
  initialized = false;
  start_at = pos 0;
  ready_flag = false;
  checkers = [];
  policy = always_check;
  timeout = pos (5 * 10 ^ 9);
  cache_ttl = pos (2 * 10 ^ 9);
  cache = record { ready = false; fails = []; ts = none };
}

pub data ProbePanic : Type 0 where
  already_initialized not_initialized router_is_nil : ProbePanic
  duplicate_checker : Text → ProbePanic

abbrev pub Setup : Type 0
Setup = Probe → Result ProbePanic Probe

-- `checkInitialized`.
unfoldable pub check_initialized : Bool → Probe → Result ProbePanic (Unit {0})
check_initialized true s = if s.initialized then ok tt else err not_initialized
check_initialized false s = if s.initialized then err already_initialized else ok tt

abbrev pub has_name : Text → List Text → Bool
has_name name [] = false
has_name name (n ∷ ns) = let rest = has_name name ns in n == name || rest

abbrev pub add_checker : Text → Setup
add_checker name s =
    if has_name name s.checkers
    then err (duplicate_checker name)
    else ok (record s { checkers = name ∷ s.checkers })

-- `WithReadinessChecker`.
unfoldable pub with_readiness_checker : Text → Setup
with_readiness_checker name s = do check_initialized false s; add_checker name s

abbrev pub add_checkers : List Text → Setup
add_checkers [] s = ok s
add_checkers (name ∷ names) s = add_checker name s >>= add_checkers names

-- `WithReadinessCheckers`, with the names in the order of the range.
unfoldable pub with_readiness_checkers : List Text → Setup
with_readiness_checkers names s = do check_initialized false s; add_checkers names s

unfoldable pub with_readiness_policy : Policy → Setup
with_readiness_policy p s = do check_initialized false s; ok (record s { policy = p })

unfoldable pub with_readiness_cache_ttl : ℤ → Setup
with_readiness_cache_ttl ttl s = do check_initialized false s; ok (record s { cache_ttl = ttl })

unfoldable pub with_readiness_timeout : ℤ → Setup
with_readiness_timeout d s = do check_initialized false s; ok (record s { timeout = d })

-- The options of `Init`.
pub data Choice : Type 0 where
  choose_checker : Text → Choice
  choose_checkers : List Text → Choice
  choose_policy : Policy → Choice
  choose_cache_ttl choose_timeout : ℤ → Choice

unfoldable pub apply_choice : Choice → Setup
apply_choice (choose_checker name) = with_readiness_checker name
apply_choice (choose_checkers names) = with_readiness_checkers names
apply_choice (choose_policy p) = with_readiness_policy p
apply_choice (choose_cache_ttl ttl) = with_readiness_cache_ttl ttl
apply_choice (choose_timeout d) = with_readiness_timeout d

unfoldable pub apply_choices : List Choice → Setup
apply_choices [] s = ok s
apply_choices (c ∷ cs) s = apply_choice c s >>= apply_choices cs

-- `Init`.
unfoldable pub init_probe : (has_router : Bool) → ℤ → List Choice → Setup
init_probe has_router now choices s = do
  check_initialized false s
  (if has_router then ok tt else err router_is_nil)
  configured ← apply_choices choices s
  ok (record configured { start_at = now; initialized = true })

-- `SetReady`.
abbrev pub set_ready : Bool → Probe → Probe
set_ready b s = record s { ready_flag = b }

-- `runChecks`.
abbrev pub add_fail : Text → Option Text → List (Text × Text) → List (Text × Text)
add_fail name none fails = fails
add_fail name (some e) fails = (name, e) ∷ fails

unfoldable pub failures : List (Text × Option Text) → List (Text × Text)
failures [] = []
failures ((name, e) ∷ answers) = add_fail name e (failures answers)

abbrev pub none_left : List (Text × Text) → Bool
none_left [] = true
none_left (f ∷ fs) = false

unfoldable pub run_checks : List (Text × Option Text) → Bool × List (Text × Text)
run_checks answers = (none_left (failures answers), failures answers)

pub data Answer : Type 0 where
  gate_closed is_ready : Answer
  not_ready : List (Text × Text) → Answer

abbrev pub answer_of : Bool × List (Text × Text) → Answer
answer_of (true, fails) = is_ready
answer_of (false, fails) = not_ready fails

-- `time.Since(readinessCached.ts) < readinessCacheTTL`.
abbrev pub is_fresh : ℤ → ℤ → Option ℤ → Bool
is_fresh now ttl none = false
is_fresh now ttl (some t) = ltb_ℤ (now -ℤ t) ttl

-- The checks of the policy `Cached`: they are made at one time and stored at another.
abbrev pub recheck : ℤ → Bool × List (Text × Text) → Probe → Probe × Answer
recheck done (ready, fails) s = (
  record s { cache = record { ready = ready; fails = fails; ts = some done } },
  answer_of (ready, fails),
)

unfoldable pub serve_cached : ℤ → ℤ → List (Text × Option Text) → Probe → Probe × Answer
serve_cached now done answers s =
    if is_fresh now s.cache_ttl s.cache.ts
    then (s, answer_of (s.cache.ready, s.cache.fails))
    else recheck done (run_checks answers) s

abbrev pub serve : Policy → ℤ → ℤ → List (Text × Option Text) → Probe → Probe × Answer
serve gate_only now done answers s = (s, is_ready)
serve cached now done answers s = serve_cached now done answers s
serve always_check now done answers s = (s, answer_of (run_checks answers))
serve other_policy now done answers s = (s, answer_of (run_checks answers))

-- `readyzHandler`.
unfoldable pub readyz : ℤ → ℤ → List (Text × Option Text) → Probe → Probe × Answer
readyz now done answers s =
    if not s.ready_flag then (s, gate_closed) else serve s.policy now done answers s
