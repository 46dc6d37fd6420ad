-- ===== src/Background/Queues.antt =====
-- The queues of the background: what its operations and its workers do to the order in them.
use ggskit.Common.Int.{ℤ}
use mathlib.Core.List.{append_assoc, append-nil}
use mathlib.Core.Option.{some-injective}
use ggskit.Background.Ops.{
  Driver, OpBody, op_load, op_update, op_bulk, Op, Done, Reply, replied, failed, panicked, loaded,
  written, exec_op, exec_load, exec_update, exec_bulk,
}
use ggskit.Background.{
  safe_exec, Worker, Bd, idle, update_at, HashKey, get_hash_code, send, select_send, add_hashed,
  add_op, take_done, run_worker, run_head, run_turn,
}
use ggskit.Common.{
  ℕ, zero, suc, ◌%◌, ◌≡◌, refl, sym, ap, subst, ◌∙◌, ◌≢◌, ◌⊎◌, inl, inr, Bool, true, false, Option,
  none, some, List, [], ◌∷◌, ◌++◌, arith, nat_beq, nat_beq_iff, if◌then◌else◌, Bool-cases, length,
  get_elem?, replicate, nat_eq, text_eq, ==_ne, ok, ok-injective, err_ok, some-none,
}

module _ (driver : Driver) where
  open driver use {Db, Error}

  -- The accepted operations that belong to worker `i` of `n`, in the order of their acceptance.
  unfoldable pub for_worker : ℕ → ℕ → List (ℕ × Op driver) → List (Op driver)
  for_worker n i [] = []
  for_worker n i ((hc, op) ∷ xs) =
      let rest = for_worker n i xs in if nat_beq (hc % n) i then op ∷ rest else rest

  abbrev pub done_ops : List (Done driver) → List (Op driver)
  done_ops [] = []
  done_ops (d ∷ ds) = d.op ∷ done_ops ds

  -- What a worker has done and what it still has to do.
  abbrev pub ops_of : Worker driver → List (Op driver)
  ops_of w = done_ops w.done ++ w.ops

  abbrev pub IsOrdered : ℕ → List (ℕ × Op driver) → List (Worker driver) → Type 0
  IsOrdered n accepted wks =
      (length wks ≡ n)
      × ((i : ℕ) (w : Worker driver)
          → get_elem? wks i ≡ some w
          → ops_of w ≡ for_worker n i accepted)

  length-update_at :
      (i : ℕ) (f : Worker driver → Worker driver) (ws : List (Worker driver))
      → length (update_at driver i f ws) ≡ length ws
  length-update_at i f [] = refl
  length-update_at zero f (w ∷ ws) = refl
  length-update_at (suc i) f (w ∷ ws) = ap suc (length-update_at i f ws)

  -- A worker after an update is the updated one or another.
  updated :
      (i j : ℕ) (f : Worker driver → Worker driver) (ws : List (Worker driver)) (w : Worker driver)
      → get_elem? (update_at driver i f ws) j ≡ some w
      → ((old : Worker driver) × (i ≡ j) × (get_elem? ws j ≡ some old) × (w ≡ f old))
        ⊎ ((i ≢ j) × (get_elem? ws j ≡ some w))
  updated i j f [] w h = absurd (some-none w (sym h))
  updated zero zero f (x ∷ ws) w h = inl (x, refl, refl, sym (some-injective _ _ h))
  updated zero (suc j) f (x ∷ ws) w h = inr ((λ e. omega arith), h)
  updated (suc i) zero f (x ∷ ws) w h = inr ((λ e. omega arith), h)
  updated (suc i) (suc j) f (x ∷ ws) w h = elim (updated i j f ws w h) [
    | inl (old, same, there, is) ↦ inl (old, ap suc same, there, is)
    | inr (other, there) ↦ inr ((λ e. other (omega arith)), there)
  ]

  for_worker-last :
      (n i hc : ℕ) (op : Op driver) (xs : List (ℕ × Op driver)) (b : Bool)
      → nat_beq (hc % n) i ≡ b
      → for_worker n i (xs ++ (hc, op) ∷ []) ≡ for_worker n i xs ++ (if b then op ∷ [] else [])
  unfolding for_worker
  for_worker-last n i hc op [] b h = ap (λ c. if c then op ∷ [] else []) h
  for_worker-last n i hc op ((hd, x) ∷ xs) b h = elim (Bool-cases (nat_beq (hd % n) i)) [
    | inl mine ↦ rw mine (ap (◌∷◌ x) (for_worker-last n i hc op xs b h))
    | inr other ↦ rw other (for_worker-last n i hc op xs b h)
  ]

  select_sent :
      (room ended first : Bool) (s sent after : Bd driver)
      → select_send driver room ended first s sent ≡ ok after
      → after ≡ sent
  select_sent true true true s sent after e = sym (ok-injective e)
  select_sent true true false s sent after e = absurd (err_ok e)
  select_sent true false first s sent after e = sym (ok-injective e)
  select_sent false true first s sent after e = absurd (err_ok e)
  select_sent false false first s sent after e = absurd (err_ok e)

  hashed_sent :
      (ended first : Bool) (op : Op driver) (hc : ℕ) (wks : List (Worker driver))
      (s after : Bd driver)
      → wks ≡ s.wks
      → add_hashed driver ended first op (some hc) wks s ≡ ok after
      → after.wks ≡ update_at driver (hc % length wks) (send driver op) s.wks
  hashed_sent ended first op hc [] s after w e = absurd (err_ok e)
  hashed_sent ended first op hc (x ∷ xs) s after w e =
      ap (λ t. t.wks) (select_sent _ ended first s _ after e)

  sent-IsOrdered :
      (n hc : ℕ) (op : Op driver) (accepted : List (ℕ × Op driver)) (wks : List (Worker driver))
      → IsOrdered n accepted wks
      → IsOrdered n (accepted ++ (hc, op) ∷ []) (update_at driver (hc % n) (send driver op) wks)
  sent-IsOrdered n hc op accepted wks (len, h) = (
    length-update_at (hc % n) (send driver op) wks ∙ len,
    λ i w e. elim (updated (hc % n) i (send driver op) wks w e) [
      | inl (old, mine, there, same) ↦
          ap ops_of same
          ∙ sym (append_assoc (done_ops old.done) old.ops (op ∷ []))
          ∙ ap (λ l. l ++ op ∷ []) (h i old there)
          ∙ sym (for_worker-last n i hc op accepted true ((nat_beq_iff _ _).1 mine))
      | inr (other, there) ↦
          h i w there
          ∙ sym (append-nil (for_worker n i accepted))
          ∙ sym (for_worker-last n i hc op accepted false (==_ne _ _ other))
    ],
  )

  -- A turn does the operation that it takes.
  loaded-op : (op : Op driver) (r : Db × Reply driver.Value Error) → (loaded driver op r).1.op ≡ op
  loaded-op op (db, replied v) = refl
  loaded-op op (db, failed e) = refl
  loaded-op op (db, panicked) = refl

  written-op : (op : Op driver) (r : Db × Reply (Unit {0}) Error) → (written driver op r).1.op ≡ op
  written-op op (db, replied v) = refl
  written-op op (db, failed e) = refl
  written-op op (db, panicked) = refl

  exec_op-op :
      (b : OpBody driver) (op : Op driver) (limit : Option ℤ) (db : Db)
      → (exec_op driver b op limit db).1.op ≡ op
  unfolding exec_load exec_update exec_bulk
  exec_op-op (op_load o) op limit db = loaded-op op _
  exec_op-op (op_update o) op limit db = written-op op _
  exec_op-op (op_bulk o) op limit db = written-op op _

  pub safe_exec-op :
      (timeout : ℤ) (ended : Option Error) (op : Op driver) (db : Db)
      → (safe_exec driver timeout ended op db).1.op ≡ op
  unfolding safe_exec
  safe_exec-op timeout (some e) op db = refl
  safe_exec-op timeout none op db = exec_op-op op.body op _ db

  pub done_ops-append :
      (xs ys : List (Done driver)) → done_ops (xs ++ ys) ≡ done_ops xs ++ done_ops ys
  done_ops-append [] ys = refl
  done_ops-append (x ∷ xs) ys = ap (◌∷◌ x.op) (done_ops-append xs ys)

  taken :
      (rest : List (Op driver)) (d : Done driver) (op : Op driver) (w : Worker driver)
      → d.op ≡ op
      → w.ops ≡ op ∷ rest
      → ops_of (take_done driver rest d w) ≡ ops_of w
  taken rest d op w e h =
      ap (λ l. l ++ rest) (done_ops-append w.done (d ∷ []))
      ∙ append_assoc (done_ops w.done) (d.op ∷ []) rest
      ∙ ap (λ o. done_ops w.done ++ o ∷ rest) e
      ∙ ap (λ l. done_ops w.done ++ l) (sym h)

  head-IsOrdered :
      (n i : ℕ) (ended : Option Error) (accepted : List (ℕ × Op driver)) (s : Bd driver)
      (w : Worker driver) (ops : List (Op driver))
      → get_elem? s.wks i ≡ some w
      → w.ops ≡ ops
      → IsOrdered n accepted s.wks
      → IsOrdered n accepted (run_head driver i ended ops s).wks
  head-IsOrdered n i ended accepted s w [] there e h = h
  head-IsOrdered n i ended accepted s w (op ∷ rest) there e (len, h) =
      let d = (safe_exec driver s.timeout ended op s.db).1 in
      (
        length-update_at i (take_done driver rest d) s.wks ∙ len,
        λ j x k. elim (updated i j (take_done driver rest d) s.wks x k) [
          | inl (old, mine, found, same) ↦
              let is : old ≡ w =
                some-injective _ _ (sym found ∙ ap (get_elem? s.wks) (sym mine) ∙ there) in
              ap ops_of same
              ∙ taken rest d op old (safe_exec-op s.timeout ended op s.db) (ap (λ v. v.ops) is ∙ e)
              ∙ h j old found
          | inr (other, found) ↦ h j x found
        ],
      )

  run_worker-IsOrdered :
      (n i : ℕ) (ended : Option Error) (accepted : List (ℕ × Op driver)) (s : Bd driver)
      (o : Option (Worker driver))
      → get_elem? s.wks i ≡ o
      → IsOrdered n accepted s.wks
      → IsOrdered n accepted (run_worker driver i ended o s).wks
  run_worker-IsOrdered n i ended accepted s none there h = h
  run_worker-IsOrdered n i ended accepted s (some w) there h =
      head-IsOrdered n i ended accepted s w w.ops there refl h

  pub run_turn-IsOrdered :
      (n i : ℕ) (ended : Option Error) (accepted : List (ℕ × Op driver)) (s : Bd driver)
      → IsOrdered n accepted s.wks
      → IsOrdered n accepted (run_turn driver i ended s).wks
  unfolding run_turn
  run_turn-IsOrdered n i ended accepted s h =
      run_worker-IsOrdered n i ended accepted s (get_elem? s.wks i) refl h

  pub add_op-IsOrdered :
      (n hc : ℕ) (ended first : Bool) (key : HashKey) (op : Op driver)
      (accepted : List (ℕ × Op driver)) (s after : Bd driver)
      → get_hash_code key ≡ some hc
      → add_op driver ended first key (some op) true s ≡ ok after
      → IsOrdered n accepted s.wks
      → IsOrdered n (accepted ++ (hc, op) ∷ []) after.wks
  unfolding add_op
  add_op-IsOrdered n hc ended first key op accepted s after k e h =
      let hashed : add_hashed driver ended first op (some hc) s.wks s ≡ ok after =
        ap (λ o. add_hashed driver ended first op o s.wks s) (sym k) ∙ e in
      subst (IsOrdered n (accepted ++ (hc, op) ∷ []))
        (sym (
          hashed_sent ended first op hc s.wks s after refl hashed
          ∙ ap (λ m. update_at driver (hc % m) (send driver op) s.wks) h.0))
        (sent-IsOrdered n hc op accepted s.wks h)

  pub idle-ops :
      (n i : ℕ) (w : Worker driver)
      → get_elem? (replicate n (idle driver)) i ≡ some w
      → ops_of w ≡ []
  idle-ops zero i w h = absurd (some-none w (sym h))
  idle-ops (suc n) zero w h = ap ops_of (sym (some-injective _ _ h))
  idle-ops (suc n) (suc i) w h = idle-ops n i w h
