-- ===== src/Actor/Modules/Registration.antt =====
-- The list and the map of the registry of modules.
use ggskit.Actor.Modules.{
  ModuleLib, GoType, pointer_to, other_than_pointer, ModuleInfo, ModuleRegistry, register_module,
  register_new, add_info,
}
use ggskit.Common.{
  ok-injective, err_ok, ◌≡◌, refl, sym, ap, subst, ◌∙◌, ◌≢◌, inl, inr, Bool, true, false, Option,
  none, some, List, [], ◌∷◌, ◌++◌, if◌then◌else◌, Bool-cases, Text, ◌==◌, nat_eq, text_eq, put,
  put_ne, ok, some-none, false-true,
}

module _ (lib : ModuleLib) where
  -- The first module of a list that has a key.
  unfoldable pub find_info : Text → List (ModuleInfo lib) → Option (ModuleInfo lib)
  find_info key [] = none
  find_info key (mi ∷ mis) = let rest = find_info key mis in if mi.key == key then some mi else rest

  abbrev pub or_else : Option (ModuleInfo lib) → Option (ModuleInfo lib) → Option (ModuleInfo lib)
  or_else none o = o
  or_else (some mi) o = some mi

  -- No two modules of the list have one key.
  abbrev pub IsDistinct : List (ModuleInfo lib) → Type 0
  IsDistinct [] = Unit
  IsDistinct (mi ∷ mis) = (find_info mi.key mis ≡ none) × IsDistinct mis

  abbrev pub IsConsistent : ModuleRegistry lib → Type 0
  IsConsistent mr =
      IsDistinct mr.module_list × ((key : Text) → mr.module_map key ≡ find_info key mr.module_list)

  find_info-append :
      (key : Text) (xs ys : List (ModuleInfo lib))
      → find_info key (xs ++ ys) ≡ or_else (find_info key xs) (find_info key ys)
  unfolding find_info
  find_info-append key [] ys = refl
  find_info-append key (x ∷ xs) ys = elim (Bool-cases (x.key == key)) [
    | inl same ↦ rw same refl
    | inr new ↦ rw new (find_info-append key xs ys)
  ]

  or_else-none : (o : Option (ModuleInfo lib)) → or_else o none ≡ o
  or_else-none none = refl
  or_else-none (some mi) = refl

  cons_none :
      (b : Bool) (x : ModuleInfo lib) (o : Option (ModuleInfo lib))
      → (if b then some x else o) ≡ none
      → (b ≡ false) × (o ≡ none)
  cons_none true x o h = absurd (some-none x h)
  cons_none false x o h = (refl, h)

  -- A module at the end is found under its key, and under no other.
  find_info-last :
      (mi : ModuleInfo lib) (xs : List (ModuleInfo lib)) (key : Text)
      → find_info mi.key xs ≡ none
      → find_info key (xs ++ mi ∷ []) ≡ put mi.key mi (λ k. find_info k xs) key
  unfolding find_info
  find_info-last mi xs key h = elim (Bool-cases (mi.key == key)) [
    | inl same ↦
        let n : find_info key xs ≡ none =
          subst (λ k. find_info k xs ≡ none) ((text_eq.beq_iff mi.key key).0 same) h in
        find_info-append key xs (mi ∷ []) ∙ rw (n, same) refl
    | inr new ↦
        find_info-append key xs (mi ∷ [])
        ∙ ap (λ b. or_else (find_info key xs) (if b then some mi else none)) new
        ∙ or_else-none (find_info key xs)
        ∙ sym (ap (λ b. if b then some mi else find_info key xs) new)
  ]

  IsDistinct-last :
      (mi : ModuleInfo lib) (xs : List (ModuleInfo lib))
      → find_info mi.key xs ≡ none
      → IsDistinct xs
      → IsDistinct (xs ++ mi ∷ [])
  unfolding find_info
  IsDistinct-last mi [] h d = (refl, tt)
  IsDistinct-last mi (x ∷ xs) h (d0, d) =
      let (n, r) = cons_none (x.key == mi.key) x (find_info mi.key xs) h in
      let ne : mi.key ≢ x.key =
        λ e. false-true (sym n ∙ (text_eq.beq_iff x.key mi.key).1 (sym e)) in
      (
        find_info-last mi xs x.key r ∙ put_ne mi.key x.key mi (λ k. find_info k xs) ne ∙ d0,
        IsDistinct-last mi xs r d,
      )

  added :
      (key : Text) (t : GoType lib) (mr after : ModuleRegistry lib)
      → mr.module_map key ≡ none
      → add_info lib key t mr ≡ ok after
      → IsConsistent mr
      → IsConsistent after
  added key (other_than_pointer k) mr after h e c = absurd (err_ok e)
  added key (pointer_to k) mr after h e (d, agree) =
      let mi : ModuleInfo lib = record { key = key; typ = k } in
      let n : find_info key mr.module_list ≡ none = sym (agree key) ∙ h in
      subst IsConsistent (ok-injective e) (
        IsDistinct-last mi mr.module_list n d,
        λ j.
            ap (λ o. if key == j then some mi else o) (agree j)
            ∙ sym (find_info-last mi mr.module_list j n),
      )

  registered :
      (key : Text) (t : GoType lib) (mr after : ModuleRegistry lib) (o : Option (ModuleInfo lib))
      → mr.module_map key ≡ o
      → register_new lib key t mr o ≡ ok after
      → IsConsistent mr
      → IsConsistent after
  registered key t mr after none h e c = added key t mr after h e c
  registered key t mr after (some mi) h e c = absurd (err_ok e)

  -- What Register accepts keeps the keys of the list distinct, and the map at each key the module
  -- of the list with that key.
  pub register_module-IsConsistent :
      (key : Text) (t : GoType lib) (mr after : ModuleRegistry lib)
      → IsConsistent mr
      → register_module lib key t mr ≡ ok after
      → IsConsistent after
  unfolding register_module
  register_module-IsConsistent key t mr after c e =
      registered key t mr after (mr.module_map key) refl e c
