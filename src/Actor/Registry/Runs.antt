-- ===== src/Actor/Registry/Runs.antt =====
-- What a script does to the key of its actor and to the stream of changes: a small program logic,
-- with a rule for each command.
use ggskit.Common.Int.{negsuc, pos, ℤ}
use ggskit.Common.{
  zero, if◌then◌else◌, ◌*◌, sym, false, suc, true, Bool, List, ℕ, ◌≡◌, refl, ap, ◌∙◌, ◌≢◌, Option,
  none, some, Text, nat_eq, text_eq, ==_refl, ==_ne,
}
use ggskit.Redis.{
  add_entry, increment_of, set_fields, set_increment, takes_entries, takes_fields, Redis, Item,
  type_of, fields_of, text_of, pttl_of, set_ttl,
}
use ggskit.Actor.Registry.Scripts.{
  change, publish, set_expiry, StreamArgs, tries, Script, ◌>>=◌, pure, reads, writes,
}

-- The expiry that a script sets: milliseconds for a positive number of seconds.
abbrev pub expiry : ℤ → Option ℕ
expiry (pos zero) = none
expiry (pos (suc n)) = some (suc n * 1000)
expiry (negsuc n) = none

-- The seconds that the script replies.
abbrev pub granted_ttl : ℤ → ℤ
granted_ttl (pos n) = pos n
granted_ttl (negsuc n) = pos 0

module _ (r : Redis) (key stream : Text) (apart : key ≢ stream) where
  open r use {Db, item}

  -- The items of the key and of the stream.
  abbrev pub Focus : Type 0
  Focus = Option Item × Option Item

  -- From the items `s` the script ends with the items `t` and the result `out`, `none` for an
  -- error, and changes no other key.
  pub record Runs {A : Type 0} (m : Script r A) (s t : Focus) (out : Option A) : Type 0 where
    pub at :
        (db : Db)
        → item key db ≡ s.0
        → item stream db ≡ s.1
        → ((m db).1 ≡ out)
          × (item key (m db).0 ≡ t.0)
          × (item stream (m db).0 ≡ t.1)
          × ((j : Text) → key ≢ j → stream ≢ j → item j (m db).0 ≡ item j db)

  pub Runs-pure : {A : Type 0} (a : A) (s : Focus) → Runs (pure r a) s s (some a)
  Runs-pure a s = record { at = λ db h k. (refl, h, k, λ j p q. refl) }

  pub Runs-fail : {A : Type 0} (s : Focus) → Runs {A = A} (λ db. (db, none)) s s none
  Runs-fail s = record { at = λ db h k. (refl, h, k, λ j p q. refl) }

  pub Runs-reads :
      {A : Type 0} (f : Db → A) (a : A) (s : Focus)
      → ((db : Db) → item key db ≡ s.0 → f db ≡ a)
      → Runs (reads r f) s s (some a)
  Runs-reads f a s e = record { at = λ db h k. (ap some (e db h), h, k, λ j p q. refl) }

  pub Runs->>= :
      {A B : Type 0} (m : Script r A) (f : A → Script r B) {s t u : Focus} {a : A} {out : Option B}
      → Runs m s t (some a)
      → Runs (f a) t u out
      → Runs (◌>>=◌ r m f) s u out
  unfolding ◌>>=◌
  Runs->>= m f {a} first second = record {
    at = λ db h k.
        let (e, h', k', o) = first.at db h k in
        let (e2, h2, k2, o2) = second.at (m db).0 h' k' in
        rw (e, ◌>>=◌) (e2, h2, k2, λ j p q. o2 j p q ∙ o j p q);
  }

  pub Runs->>=_none :
      {A B : Type 0} (m : Script r A) (f : A → Script r B) {s t : Focus}
      → Runs m s t none
      → Runs (◌>>=◌ r m f) s t none
  unfolding ◌>>=◌
  Runs->>=_none m f first = record {
    at = λ db h k. let (e, h', k', o) = first.at db h k in rw (e, ◌>>=◌) (refl, h', k', o);
  }

  pub Runs-type_key : (s : Focus) → Runs (reads r (r.type_key key)) s s (some (type_of s.0))
  Runs-type_key s = Runs-reads _ _ s (λ db h. r.type_key-item key db ∙ ap type_of h)

  pub Runs-hget :
      (f : Text) (s : Focus) → Runs (reads r (r.hget key f)) s s (some (fields_of s.0 f))
  Runs-hget f s =
      Runs-reads _ _ s (λ db h. r.hget-item key f db ∙ ap (λ (o : Option Item). fields_of o f) h)

  pub Runs-get : (s : Focus) → Runs (reads r (r.get key)) s s (some (text_of s.0))
  Runs-get s = Runs-reads _ _ s (λ db h. r.get-item key db ∙ ap text_of h)

  pub Runs-pttl : (s : Focus) → Runs (reads r (r.pttl key)) s s (some (pttl_of s.0))
  Runs-pttl s = Runs-reads _ _ s (λ db h. r.pttl-item key db ∙ ap pttl_of h)

  pub Runs-del : (s : Focus) → Runs (writes r (r.del key)) s (none, s.1) (some tt)
  Runs-del s = record {
    at = λ db h k. (
      refl,
      simp (r.item-del, ==_refl),
      simp (r.item-del, ==_ne key stream apart) k,
      λ j p q. simp (r.item-del, ==_ne key j p),
    );
  }

  pub Runs-persist :
      (s : Focus) → Runs (writes r (r.persist key)) s (set_ttl none s.0, s.1) (some tt)
  Runs-persist s = record {
    at = λ db h k. (
      refl,
      simp (r.item-persist, ==_refl, h),
      simp (r.item-persist, ==_ne key stream apart) k,
      λ j p q. simp (r.item-persist, ==_ne key j p),
    );
  }

  pub Runs-tries :
      (f : Db → Db × Bool) (b : Bool) (s t : Focus)
      → ((db : Db)
          → item key db ≡ s.0
          → item stream db ≡ s.1
          → ((f db).1 ≡ b)
            × (item key (f db).0 ≡ t.0)
            × (item stream (f db).0 ≡ t.1)
            × ((j : Text) → key ≢ j → stream ≢ j → item j (f db).0 ≡ item j db))
      → Runs (tries r f) s t (if b then some tt else none)
  Runs-tries f b s t e = record {
    at = λ db h k. let (e1, e2, e3, e4) = e db h k in (rw e1, e2, e3, e4);
  }

  pub Runs-hset :
      (fs : List (Text × Text)) (s : Focus)
      → takes_fields s.0 ≡ true
      → Runs (tries r (r.hset key fs)) s (set_fields fs s.0, s.1) (some tt)
  Runs-hset fs s c = Runs-tries _ true _ _ λ db h k. (
    r.hset_reply key fs db ∙ ap takes_fields h ∙ c,
    simp (r.item-hset, ==_refl, h, c),
    simp (r.item-hset, ==_ne key stream apart) k,
    λ j p q. simp (r.item-hset, ==_ne key j p),
  )

  -- HSET on a key of another type ends the script.
  pub Runs-hset_none :
      (fs : List (Text × Text)) (s : Focus)
      → takes_fields s.0 ≡ false
      → Runs (tries r (r.hset key fs)) s s none
  Runs-hset_none fs s c = Runs-tries _ false _ _ λ db h k. (
    r.hset_reply key fs db ∙ ap takes_fields h ∙ c,
    simp (r.item-hset, ==_refl, h, c),
    simp (r.item-hset, ==_ne key stream apart) k,
    λ j p q. simp (r.item-hset, ==_ne key j p),
  )

  pub Runs-hincrby :
      (f : Text) (n : ℤ) (s : Focus)
      → Runs
          (r.hincrby key f n)
          s
          (set_increment f (increment_of s.0 f n) s.0, s.1)
          (increment_of s.0 f n)
  Runs-hincrby f n s = record {
    at = λ db h k. (
      r.hincrby_reply key f n db ∙ ap (λ (o : Option Item). increment_of o f n) h,
      simp (r.item-hincrby, ==_refl, h),
      simp (r.item-hincrby, ==_ne key stream apart) k,
      λ j p q. simp (r.item-hincrby, ==_ne key j p),
    );
  }

  pub Runs-publish :
      (args : StreamArgs) (revision : ℤ) (op : Text) (s : Focus)
      → args.stream_key ≡ stream
      → takes_entries s.1 ≡ true
      → Runs
          (publish r args revision op)
          s
          (s.0, add_entry (change r args revision op) s.1)
          (some tt)
  Runs-publish args revision op s e c = Runs-tries _ true _ _ λ db h k. (
    r.xadd_reply args.stream_key args.max_len (change r args revision op) db
        ∙ ap (λ x. takes_entries (item x db)) e
        ∙ ap takes_entries k
        ∙ c,
    simp (r.item-xadd, e, ==_ne stream key (λ p. apart (sym p)), h),
    simp (r.item-xadd, e, ==_refl, k, c),
    λ j p q. simp (r.item-xadd, e, ==_ne stream j q),
  )

  Runs-expire :
      (n : ℕ) (s : Focus)
      → r.expire_fits (pos (suc n)) ≡ true
      → Runs
          (tries r (r.expire key (pos (suc n))))
          s
          (set_ttl (some (suc n * 1000)) s.0, s.1)
          (some tt)
  Runs-expire n s c = Runs-tries _ true _ _ λ db h k. (
    r.expire_reply key (suc n) db ∙ c,
    simp (r.item-expire, ==_refl, h, c),
    simp (r.item-expire, ==_ne key stream apart) k,
    λ j p q. simp (r.item-expire, ==_ne key j p),
  )

  pub Runs-set_expiry :
      (ttl : ℤ) (s : Focus)
      → r.expire_fits ttl ≡ true
      → Runs (set_expiry r key ttl) s (set_ttl (expiry ttl) s.0, s.1) (some (granted_ttl ttl))
  Runs-set_expiry (pos zero) s c = Runs->>= _ _ (Runs-persist s) (Runs-pure (pos 0) _)
  Runs-set_expiry (pos (suc n)) s c = Runs->>= _ _ (Runs-expire n s c) (Runs-pure (pos (suc n)) _)
  Runs-set_expiry (negsuc n) s c = Runs->>= _ _ (Runs-persist s) (Runs-pure (pos 0) _)
