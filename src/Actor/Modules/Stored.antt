-- ===== src/Actor/Modules/Stored.antt =====
-- The modules of an actor are stored as BSON and read back.
use mathlib.Core.Option
use ggskit.Actor.Modules.{
  ModuleLib, ModuleInfo, ModuleRegistry, new_modules, holding, element, elements, or_marshal_error,
  marshal_bson, set_decoded, read_value, unless_failed, read_values, unmarshal_bson,
}
use ggskit.Actor.Modules.Registration.{find_info, IsConsistent}
use ggskit.Common.{
  ◌≡◌, refl, sym, ap, ◌∙◌, inl, inr, Bool, true, false, Option, none, some, List, [], ◌∷◌,
  if◌then◌else◌, Bool-cases, Text, All, ◌==◌, nat_eq, text_eq, ==_refl, Map, put, ok, assoc,
  ok-injective, err_ok,
}

module _ (lib : ModuleLib) where
  open lib use {Module, Doc, Raw, kind_of, lookup, raw_of, marshal, new_module, unmarshal_value}

  -- A module that is there, at a key that is registered; another value where it is not.
  abbrev pub among : Option (ModuleInfo lib) → Option Module → Option Module → Option Module
  among none o other = other
  among (some mi) none other = other
  among (some mi) (some x) other = some x

  among-none : (i : Option (ModuleInfo lib)) (other : Option Module) → among i none other ≡ other
  among-none none other = refl
  among-none (some mi) other = refl

  among-same :
      (i : Option (ModuleInfo lib)) (x : Module) (o : Option Module)
      → o ≡ some x
      → among i (some x) o ≡ some x
  among-same none x o e = e
  among-same (some mi) x o e = refl

  among-some : (i : ModuleInfo lib) (o : Option Module) → among (some i) o none ≡ o
  among-some i none = refl
  among-some i (some x) = refl

  marshalled : (o : Option Doc) (doc : Doc) → or_marshal_error lib o ≡ ok doc → o ≡ some doc
  marshalled none doc e = absurd (err_ok e)
  marshalled (some d) doc e = ap some (ok-injective e)

  -- What the elements hold under a key.
  element-assoc :
      (mi : ModuleInfo lib) (key : Text) (o : Option Module) (i : Option (ModuleInfo lib))
      (es : List (Text × Module)) (at_key : Option Module) (b : Bool)
      → (mi.key == key) ≡ b
      → (b ≡ true → at_key ≡ o)
      → assoc key es ≡ among i at_key none
      → assoc key (element lib mi.key o es) ≡ among (if b then some mi else i) at_key none
  element-assoc mi key none i es at_key true e h r =
      rw (h refl) (r ∙ ap (λ a. among i a none) (h refl) ∙ among-none i none)
  element-assoc mi key none i es at_key false e h r = r
  element-assoc mi key (some x) i es at_key true e h r = rw (e, h refl) refl
  element-assoc mi key (some x) i es at_key false e h r = rw e r

  assoc-elements :
      (key : Text) (mis : List (ModuleInfo lib)) (m : Map Text Module)
      → assoc key (elements lib mis m) ≡ among (find_info lib key mis) (m key) none
  unfolding elements find_info
  assoc-elements key [] m = refl
  assoc-elements key (mi ∷ mis) m =
      element-assoc mi key (m mi.key) (find_info lib key mis) (elements lib mis m) (m key)
        (mi.key == key) refl (λ e. ap m (sym ((text_eq.beq_iff mi.key key).0 e)))
        (assoc-elements key mis m)

  -- One module read back.
  abbrev put_read : Text → Option Module → Map Text Module → Map Text Module
  put_read key none m = m
  put_read key (some x) m = put key x m

  abbrev restored : List (ModuleInfo lib) → Map Text Module → Map Text Module → Map Text Module
  restored [] m acc = acc
  restored (mi ∷ mis) m acc = restored mis m (put_read mi.key (m mi.key) acc)

  restored_step :
      (mi : ModuleInfo lib) (key : Text) (o : Option Module) (i : Option (ModuleInfo lib))
      (at_key : Option Module) (acc : Map Text Module) (b : Bool)
      → (mi.key == key) ≡ b
      → (b ≡ true → at_key ≡ o)
      → among i at_key (put_read mi.key o acc key)
        ≡ among (if b then some mi else i) at_key (acc key)
  restored_step mi key none i at_key acc true e h = rw (h refl) (among-none i (acc key))
  restored_step mi key none i at_key acc false e h = refl
  restored_step mi key (some x) i at_key acc true e h =
      rw (h refl) (among-same i x _ (ap (λ c. if c then some x else acc key) e))
  restored_step mi key (some x) i at_key acc false e h =
      ap (λ c. among i at_key (if c then some x else acc key)) e

  restored_at :
      (key : Text) (mis : List (ModuleInfo lib)) (m acc : Map Text Module)
      → restored mis m acc key ≡ among (find_info lib key mis) (m key) (acc key)
  unfolding find_info
  restored_at key [] m acc = refl
  restored_at key (mi ∷ mis) m acc =
      restored_at key mis m (put_read mi.key (m mi.key) acc)
      ∙ restored_step mi key (m mi.key) (find_info lib key mis) (m key) acc (mi.key == key) refl
          (λ e. ap m (sym ((text_eq.beq_iff mi.key key).0 e)))

  -- What the loop of UnmarshalBSON needs of each module: its value in the document, and that the
  -- value is decoded into what `back` says.
  abbrev IsReadable : (Module → Module) → Doc → Map Text Module → ModuleInfo lib → Type 0
  IsReadable back doc m mi =
      (lookup doc mi.key ≡ Option.map raw_of (m mi.key))
      × ((x : Module)
          → m mi.key ≡ some x
          → unmarshal_value (raw_of x) (new_module mi.typ) ≡ some (back x))

  -- The modules of a container as they come back.
  abbrev pub returned : (Module → Module) → Map Text Module → Map Text Module
  returned back m key = Option.map back (m key)

  read_value-restored :
      (back : Module → Module) (mi : ModuleInfo lib) (acc : Map Text Module) (o : Option Module)
      → ((x : Module) → o ≡ some x → unmarshal_value (raw_of x) (new_module mi.typ) ≡ some (back x))
      → read_value lib mi (Option.map raw_of o) acc
        ≡ (put_read mi.key (Option.map back o) acc, none)
  read_value-restored back mi acc none h = refl
  read_value-restored back mi acc (some x) h = ap (λ d. set_decoded lib mi d acc) (h x refl)

  read_values-restored :
      (back : Module → Module) (doc : Doc) (mis : List (ModuleInfo lib)) (m acc : Map Text Module)
      → All (IsReadable back doc m) mis
      → read_values lib doc mis acc ≡ (restored mis (returned back m) acc, none)
  unfolding read_values
  read_values-restored back doc [] m acc h = refl
  read_values-restored back doc (mi ∷ mis) m acc ((found, decoded), hs) =
      ap (λ o. unless_failed lib (read_values lib doc mis) (read_value lib mi o acc)) found
      ∙ ap (unless_failed lib (read_values lib doc mis))
          (read_value-restored back mi acc (m mi.key) decoded)
      ∙ read_values-restored back doc mis m (put_read mi.key (returned back m mi.key) acc) hs

  -- Every module of a list is found in it under its key.
  abbrev IsFound : List (ModuleInfo lib) → ModuleInfo lib → Type 0
  IsFound all mi = (found : ModuleInfo lib) × (find_info lib mi.key all ≡ some found)

  IsFound-later :
      (x : ModuleInfo lib) (all : List (ModuleInfo lib)) (mi : ModuleInfo lib)
      → IsFound all mi
      → IsFound (x ∷ all) mi
  unfolding find_info
  IsFound-later x all mi (i, e) = elim (Bool-cases (x.key == mi.key)) [
    | inl same ↦ (x, ap (λ b. if b then some x else find_info lib mi.key all) same)
    | inr new ↦ (i, ap (λ b. if b then some x else find_info lib mi.key all) new ∙ e)
  ]

  All-map :
      (P Q : ModuleInfo lib → Type 0) (mis : List (ModuleInfo lib))
      → ((mi : ModuleInfo lib) → P mi → Q mi)
      → All P mis
      → All Q mis
  All-map P Q [] f h = h
  All-map P Q (mi ∷ mis) f (h, hs) = (f mi h, All-map P Q mis f hs)

  All-IsFound : (mis : List (ModuleInfo lib)) → All (IsFound mis) mis
  unfolding find_info
  All-IsFound [] = tt
  All-IsFound (mi ∷ mis) = (
    (mi, ap (λ b. if b then some mi else find_info lib mi.key mis) (==_refl mi.key)),
    All-map (IsFound mis) (IsFound (mi ∷ mis)) mis (IsFound-later mi mis) (All-IsFound mis),
  )

  -- The encoded value of each module is decoded, into a new instance of the type that is
  -- registered under its key, to what `back` says.
  abbrev pub IsDecodable : (Module → Module) → ModuleRegistry lib → Map Text Module → Type 0
  IsDecodable back mr m =
      All
        (λ mi.
          (x : Module)
          → m mi.key ≡ some x
          → unmarshal_value (raw_of x) (new_module mi.typ) ≡ some (back x))
        mr.module_list

  readable :
      (back : Module → Module) (doc : Doc) (all mis : List (ModuleInfo lib)) (m : Map Text Module)
      → ((key : Text) → lookup doc key ≡ Option.map raw_of (assoc key (elements lib all m)))
      → All (IsFound all) mis
      → All
          (λ mi.
            (x : Module)
            → m mi.key ≡ some x
            → unmarshal_value (raw_of x) (new_module mi.typ) ≡ some (back x))
          mis
      → All (IsReadable back doc m) mis
  readable back doc all [] m law fs ts = tt
  readable back doc all (mi ∷ mis) m law ((i, e), fs) (t, ts) = (
    (
      law mi.key
          ∙ ap (Option.map raw_of) (
              assoc-elements mi.key all m
              ∙ ap (λ o. among o (m mi.key) none) e
              ∙ among-some i (m mi.key)),
      t,
    ),
    readable back doc all mis m law fs ts,
  )

  -- What MarshalBSON writes is read by UnmarshalBSON into a new container of the same registry
  -- without an error: every registered key has what BSON makes of the module it had, if any, and no
  -- other key has one. The registry is consistent, as registration keeps it, and each module's
  -- encoded value can be decoded into the registered type; what of a value BSON loses is left open.
  pub unmarshal_bson-marshal_bson :
      (back : Module → Module) (mr : ModuleRegistry lib) (m : Map Text Module) (doc : Doc)
      → IsConsistent lib mr
      → IsDecodable back mr m
      → marshal_bson lib (holding mr m) ≡ ok (ok doc)
      → (after : Map Text Module) × (unmarshal_bson lib doc (new_modules lib mr)
          ≡ ok (holding mr after, none))
        × ((key : Text) → after key ≡ among (mr.module_map key) (returned back m key) none)
  unfolding marshal_bson unmarshal_bson
  unmarshal_bson-marshal_bson back mr m doc (d, agree) decodable e =
      let all = mr.module_list in
      let law = lib.lookup-marshal (elements lib all m) doc (marshalled _ doc (ok-injective e)) in
      (
        restored all (returned back m) (λ key. none),
        ap (λ r. ok (holding mr r.0, r.1))
            (read_values-restored back doc all m (λ key. none)
              (readable back doc all all m law (All-IsFound all) decodable)),
        λ key.
            restored_at key all (returned back m) (λ k. none)
            ∙ ap (λ i. among i (returned back m key) none) (sym (agree key)),
      )
