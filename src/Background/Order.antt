-- ===== src/Background/Order.antt =====
-- The order in which the background does the operations that it accepts: its steps and its stop.
use ggskit.Common.Int.{ℤ}
use mathlib.Core.Option.{some-injective}
use ggskit.Background.Ops.{Driver, Op}
use ggskit.Background.{
  safe_exec, Worker, Bd, idle, new_bd, HashKey, get_hash_code, add_op, run_turn, drain, drain_all,
  stop,
}
use ggskit.Background.Queues.{
  for_worker, done_ops, ops_of, IsOrdered, safe_exec-op, done_ops-append, run_turn-IsOrdered,
  add_op-IsOrdered, idle-ops,
}
use ggskit.Common.{
  ℕ, zero, suc, ◌≡◌, refl, sym, ap, subst, ◌∙◌, Bool, true, Option, some, List, [], ◌∷◌, ◌++◌,
  length, get_elem?, length-replicate, nat_eq, text_eq, ok, some-none,
}

module _ (driver : Driver) where
  open driver use {Db, Error}

  -- The states of a background with the operations it accepted, by their hash codes. Callers add
  -- operations and workers take turns in any order.
  pub data Reach (start : Bd driver) : List (ℕ × Op driver) → Bd driver → Type 0 where
    starts : Reach start [] start
    adds :
        {accepted : List (ℕ × Op driver)} {s after : Bd driver}
        → Reach start accepted s
        → (ended first : Bool) (key : HashKey) (hc : ℕ) (op : Op driver)
        → get_hash_code key ≡ some hc
        → add_op driver ended first key (some op) true s ≡ ok after
        → Reach start (accepted ++ (hc, op) ∷ []) after
    turns :
        {accepted : List (ℕ × Op driver)} {s after : Bd driver}
        → Reach start accepted s
        → (i : ℕ) (ended : Option Error) → after ≡ run_turn driver i ended s
        → Reach start accepted after

  -- Of a new background, after any adding and any turns, what a worker has done followed by what
  -- waits in its queue is what was accepted for it, in the order of acceptance: operations with one
  -- hash code, which all belong to one worker, are done in the order in which they were accepted,
  -- none is lost and none is done twice.
  pub Reach-IsOrdered :
      (n capacity : ℕ) (timeout : ℤ) (db : Db) (accepted : List (ℕ × Op driver)) (s : Bd driver)
      → Reach (new_bd driver n capacity timeout db) accepted s
      → IsOrdered driver n accepted s.wks
  unfolding new_bd for_worker
  Reach-IsOrdered n capacity timeout db accepted s starts =
      (length-replicate n (idle driver), λ i w h. idle-ops driver n i w h)
  Reach-IsOrdered n capacity timeout db accepted s
        (adds {accepted = before} r ended first key hc op k e) =
      add_op-IsOrdered driver n hc ended first key op before _ s k e
        (Reach-IsOrdered n capacity timeout db before _ r)
  Reach-IsOrdered n capacity timeout db accepted s (turns r i ended e) =
      subst (λ u. IsOrdered driver n accepted u.wks) (sym e)
        (run_turn-IsOrdered driver n i ended accepted _
          (Reach-IsOrdered n capacity timeout db accepted _ r))

  -- What is drained is done.
  drain-ops :
      (timeout : ℤ) (ended : Op driver → Option Error) (ops : List (Op driver)) (db : Db)
      → done_ops driver (drain driver timeout ended ops db).1 ≡ ops
  unfolding drain
  drain-ops timeout ended [] db = refl
  drain-ops timeout ended (op ∷ ops) db =
      let db1 = (safe_exec driver timeout (ended op) op db).0 in
      ap (λ o. o ∷ done_ops driver (drain driver timeout ended ops db1).1)
        (safe_exec-op driver timeout (ended op) op db)
      ∙ ap (◌∷◌ op) (drain-ops timeout ended ops db1)

  length-drain_all :
      (timeout : ℤ) (ended : Op driver → Option Error) (ws : List (Worker driver)) (db : Db)
      → length (drain_all driver timeout ended ws db).1 ≡ length ws
  unfolding drain_all
  length-drain_all timeout ended [] db = refl
  length-drain_all timeout ended (w ∷ ws) db =
      ap suc (length-drain_all timeout ended ws (drain driver timeout ended w.ops db).0)

  drain_all-ops :
      (timeout : ℤ) (ended : Op driver → Option Error) (ws : List (Worker driver)) (db : Db) (i : ℕ)
      (w : Worker driver)
      → get_elem? (drain_all driver timeout ended ws db).1 i ≡ some w
      → (old : Worker driver) × (get_elem? ws i ≡ some old)
        × (done_ops driver w.done ≡ ops_of driver old)
  unfolding drain_all
  drain_all-ops timeout ended [] db i w h = absurd (some-none w (sym h))
  drain_all-ops timeout ended (x ∷ ws) db zero w h = (
    x,
    refl,
    ap (λ v. done_ops driver v.done) (sym (some-injective _ _ h))
        ∙ done_ops-append driver x.done _
        ∙ ap (λ l. done_ops driver x.done ++ l) (drain-ops timeout ended x.ops db),
  )
  drain_all-ops timeout ended (x ∷ ws) db (suc i) w h = drain_all-ops timeout ended ws _ i w h

  -- Every worker has done what was accepted for it, and nothing else.
  abbrev pub IsFinished : ℕ → List (ℕ × Op driver) → List (Worker driver) → Type 0
  IsFinished n accepted wks =
      (length wks ≡ n)
      × ((i : ℕ) (w : Worker driver)
          → get_elem? wks i ≡ some w
          → done_ops driver w.done ≡ for_worker driver n i accepted)

  -- When Stop of a background, after any adding and any turns, returns, each of the workers has
  -- done every operation that was accepted for it, each once and in the order of acceptance,
  -- whether it succeeded, failed or panicked.
  pub stop-IsFinished :
      (n capacity : ℕ) (timeout : ℤ) (db : Db) (accepted : List (ℕ × Op driver)) (s : Bd driver)
      (ended : Op driver → Option Error)
      → Reach (new_bd driver n capacity timeout db) accepted s
      → IsFinished n accepted (stop driver ended s).1
  unfolding stop
  stop-IsFinished n capacity timeout db accepted s ended r =
      let (len, ordered) = Reach-IsOrdered n capacity timeout db accepted s r in
      (
        length-drain_all s.timeout ended s.wks s.db ∙ len,
        λ i w h.
            let (old, there, same) = drain_all-ops s.timeout ended s.wks s.db i w h in
            same ∙ ordered i old there,
      )
