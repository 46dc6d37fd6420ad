-- ===== src/Protocol/OneToOne.antt =====
-- The two maps of the registry are inverse to each other.
use ggskit.Protocol.{
  MessageInfo, get_message_name, proto_nil, proto_not_pointer, type_registered, pid_collision,
  ProtoRegistry, RegistryError, register, by_pid, by_type, get_pid, create, check,
}
use ggskit.Common.{
  ℕ, ◌≡◌, refl, sym, ap, ◌∙◌, ◌↔◌, Bool, true, false, not, Option, none, some, arith, nat_beq_iff,
  if◌then◌else◌, Text, Eq, ◌==◌, nat_eq, text_eq, ==_refl, put, put_self, Result, ok, err,
}

module _ {T : Type 0} ⦃e : Eq T⦄ where
  -- A type is found under an id exactly if the id is found under the type.
  abbrev pub OneToOne : ProtoRegistry T → Type 0
  OneToOne r = (p : ℕ) (t : T) → (r.pid2_type p ≡ some t) ↔ (r.type2_pid t ≡ some p)

  added :
      (pid : ℕ) (t : T) (r : ProtoRegistry T)
      → OneToOne r
      → r.pid2_type pid ≡ none
      → r.type2_pid t ≡ none
      → OneToOne (record { pid2_type = put pid t r.pid2_type; type2_pid = put t pid r.type2_pid })
  added pid t r o hp ht p u = grind (arith, e.beq_iff t u, o p u, hp, ht)

  either :
      (b : Bool) (x y : ProtoRegistry T × Result RegistryError ℕ)
      → OneToOne x.0
      → OneToOne y.0
      → OneToOne (if b then x else y).0
  either true x y p q = p
  either false x y p q = q

  by_type-OneToOne :
      (pid : ℕ) (t : T) (r : ProtoRegistry T) (found : Option ℕ)
      → r.type2_pid t ≡ found
      → r.pid2_type pid ≡ none
      → OneToOne r
      → OneToOne (by_type pid t found r).0
  by_type-OneToOne pid t r none h n o = added pid t r o n h
  by_type-OneToOne pid t r (some old) h n o =
      either (not (old == pid)) (r, err type_registered) (r, ok pid) o o

  by_pid-OneToOne :
      (pid : ℕ) (t : T) (r : ProtoRegistry T) (found : Option T)
      → r.pid2_type pid ≡ found
      → OneToOne r
      → OneToOne (by_pid pid t found r).0
  by_pid-OneToOne pid t r none h o = by_type-OneToOne pid t r (r.type2_pid t) refl h o
  by_pid-OneToOne pid t r (some old) h o =
      either (not (old == t)) (r, err pid_collision) (r, ok pid) o o

  by_type_finds :
      (pid p : ℕ) (t : T) (r : ProtoRegistry T) (found : Option ℕ)
      → r.type2_pid t ≡ found
      → OneToOne r
      → (by_type pid t found r).1 ≡ ok p
      → (by_type pid t found r).0.pid2_type p ≡ some t
  by_type_finds pid p t r none h o a = grind (arith, put_self pid t r.pid2_type)
  by_type_finds pid p t r (some old) h o a = grind (arith, nat_beq_iff old pid, o pid t)

  by_pid_finds :
      (pid p : ℕ) (t : T) (r : ProtoRegistry T) (found : Option T)
      → r.pid2_type pid ≡ found
      → OneToOne r
      → (by_pid pid t found r).1 ≡ ok p
      → (by_pid pid t found r).0.pid2_type p ≡ some t
  by_pid_finds pid p t r none h o a = by_type_finds pid p t r (r.type2_pid t) refl o a
  by_pid_finds pid p t r (some old) h o a = grind (arith, e.beq_iff old t)

  -- A registration that is accepted is one of a pointer, and what the maps decide.
  accepted :
      (b c : Bool) (p : ℕ) (r : ProtoRegistry T) (x : ProtoRegistry T × Result RegistryError ℕ)
      → (if b then (r, err proto_nil) else if not c then (r, err proto_not_pointer) else x).1 ≡ ok p
      → (c ≡ true)
        × ((if b then (r, err proto_nil) else if not c then (r, err proto_not_pointer) else x) ≡ x)
  accepted true c p r x h = absurd (grind arith)
  accepted false false p r x h = absurd (grind arith)
  accepted false true p r x h = (refl, refl)

  found_again :
      (msg : MessageInfo T) (p : ℕ) (r : ProtoRegistry T)
      → msg.is_pointer ≡ true
      → r.pid2_type p ≡ some msg.elem_type
      → OneToOne r
      → (create p r ≡ ok msg.elem_type) × (get_pid msg r ≡ some p) × (check p msg r ≡ none)
  unfolding create get_pid check
  found_again msg p r c h o = (
    rw (create, h) refl,
    rw (get_pid, c) ((o p msg.elem_type).0 h),
    rw (check, h, c, ==_refl msg.elem_type) refl,
  )

-- No registration, accepted or refused, breaks the invariant that types and ids stand one to one.
pub register-OneToOne :
    {T : Type 0} ⦃e : Eq T⦄ (hash_pid : Text → ℕ) (msg : MessageInfo T) (r : ProtoRegistry T)
    → OneToOne r
    → OneToOne (register hash_pid msg r).0
unfolding register
register-OneToOne hash_pid msg r o =
    let pid = hash_pid (get_message_name msg) in
    let found = by_pid pid msg.elem_type (r.pid2_type pid) r in
    let kept = by_pid-OneToOne pid msg.elem_type r (r.pid2_type pid) refl o in
    either msg.is_nil (r, err proto_nil)
      (if not msg.is_pointer then (r, err proto_not_pointer) else found) o
      (either (not msg.is_pointer) (r, err proto_not_pointer) found o kept)

-- A message that is registered is found again: its type under the returned id, the id under its
-- type, and the two pass the check.
pub check-register :
    {T : Type 0} ⦃e : Eq T⦄ (hash_pid : Text → ℕ) (msg : MessageInfo T) (r : ProtoRegistry T)
    (pid : ℕ)
    → OneToOne r
    → (register hash_pid msg r).1 ≡ ok pid
    → let after = (register hash_pid msg r).0 in
      (create pid after ≡ ok msg.elem_type)
      × (get_pid msg after ≡ some pid)
      × (check pid msg after ≡ none)
unfolding register
check-register hash_pid msg r pid o h =
    let q = hash_pid (get_message_name msg) in
    let (pointer, same) =
      accepted msg.is_nil msg.is_pointer pid r (by_pid q msg.elem_type (r.pid2_type q) r) h in
    found_again msg pid (register hash_pid msg r).0 pointer
      (ap (λ (x : ProtoRegistry _ × Result RegistryError ℕ). x.0.pid2_type pid) same
        ∙ by_pid_finds q pid msg.elem_type r (r.pid2_type q) refl o
            (sym (ap (λ (x : ProtoRegistry _ × Result RegistryError ℕ). x.1) same) ∙ h))
      (register-OneToOne hash_pid msg r o)
