-- ===== src/Core/Gauge/Concurrent.antt =====
-- `Gauge::Change` in core/src/gauge.cc under concurrent calls: the loop of a load and weak
-- compare-and-swaps, each an atomic access, interleaved in any order.
use mathlib.Core.Path.{subst}
use mathlib.Core.List.{Perm, perm_append_singleton, perm_middle, foldl, foldl-append}
use mathlib.Core.List.Perm
use prometheus_cpp.Common.{◌≡◌, refl, sym, ap, ◌∙◌, List, [], ◌∷◌, ◌++◌, map, All}
use prometheus_cpp.Double.{Double}

-- A call of `Change(value)`: before its load, in its loop with `current`, and returned.
pub data Thread (D : Type 0) : Type 0 where
  start : D → Thread D
  trying : D → D → Thread D
  finished : D → Thread D

-- The gauge's atomic `value_`, and the calls.
pub record State (D : Type 0) : Type 0 where
  pub value : D
  pub threads : List (Thread D)

module _ {D : Type 0} where
  abbrev pub amount : Thread D → D
  amount (start x) = x
  amount (trying x current) = x
  amount (finished x) = x

  abbrev pub amounts : List (Thread D) → List D
  amounts = map amount

  -- The amounts of the calls that have returned.
  abbrev pub done : List (Thread D) → List D
  done [] = []
  done (finished x ∷ ts) = x ∷ done ts
  done (start x ∷ ts) = done ts
  done (trying x current ∷ ts) = done ts

  abbrev pub IsStart : Thread D → Type 0
  IsStart (start x) = Unit
  IsStart (trying x current) = ⊥
  IsStart (finished x) = ⊥

  abbrev pub IsFinished : Thread D → Type 0
  IsFinished (start x) = ⊥
  IsFinished (trying x current) = ⊥
  IsFinished (finished x) = Unit

module _ {D : Type 0} ⦃d : Double D⦄ where
  -- One access by one call, while `value_` holds `v`: the call goes on as the second thread, and the last
  -- index is what `value_` holds then. A weak swap may fail although the values agree.
  pub data Access (v : D) : Thread D → Thread D → D → Type 0 where
    load : (x : D) → Access v (start x) (trying x v) v
    swap :
        (x current : D) → current ≡ v → Access v (trying x current) (finished x) (d.add current x)
    retry : (x current : D) → Access v (trying x current) (trying x v) v

  pub data Step (s t : State D) : Type 0 where
    at :
        (before after : List (Thread D)) (p q : Thread D) (w : D)
        → Access s.value p q w
        → s.threads ≡ before ++ p ∷ after
        → t ≡ record { value = w; threads = before ++ q ∷ after }
        → Step s t

  pub data Reach (s : State D) : State D → Type 0 where
    here : Reach s s
    next : {t u : State D} → Reach s t → Step t u → Reach s u

  -- The value is the start value with the amounts of the returned calls added one by one.
  record IsSerial (s t : State D) : Type 0 where
    log : List D
    exact : t.value ≡ foldl d.add s.value log
    each : Perm log (done t.threads)
    kept : amounts t.threads ≡ amounts s.threads

  done-append : (ts us : List (Thread D)) → done (ts ++ us) ≡ done ts ++ done us
  done-append [] us = refl
  done-append (start x ∷ ts) us = done-append ts us
  done-append (trying x c ∷ ts) us = done-append ts us
  done-append (finished x ∷ ts) us = ap (◌∷◌ x) (done-append ts us)

  -- An access that does not swap.
  quiet :
      (before after : List (Thread D)) (p q : Thread D)
      → done (p ∷ after) ≡ done (q ∷ after)
      → done (before ++ p ∷ after) ≡ done (before ++ q ∷ after)
  quiet before after p q e =
      done-append before (p ∷ after)
      ∙ ap (◌++◌ (done before)) e
      ∙ sym (done-append before (q ∷ after))

  same_amounts :
      (before after : List (Thread D)) (p q : Thread D)
      → amount p ≡ amount q
      → amounts (before ++ p ∷ after) ≡ amounts (before ++ q ∷ after)
  same_amounts [] after p q e = ap (λ x. x ∷ amounts after) e
  same_amounts (t ∷ before) after p q e = ap (◌∷◌ (amount t)) (same_amounts before after p q e)

  quiet_move :
      (s : State D) (v : D) (before after : List (Thread D)) (p q : Thread D)
      → done (p ∷ after) ≡ done (q ∷ after)
      → amount p ≡ amount q
      → IsSerial s (record { value = v; threads = before ++ p ∷ after })
      → IsSerial s (record { value = v; threads = before ++ q ∷ after })
  quiet_move s v before after p q e a i = record {
    log = i.log;
    exact = i.exact;
    each = subst (Perm i.log) (quiet before after p q e) i.each;
    kept = sym (same_amounts before after p q a) ∙ i.kept;
  }

  swap_move :
      (s : State D) (v : D) (before after : List (Thread D)) (x current : D)
      → current ≡ v
      → IsSerial s (record { value = v; threads = before ++ trying x current ∷ after })
      → IsSerial s (record { value = d.add current x; threads = before ++ finished x ∷ after })
  swap_move s v before after x current same i = record {
    log = i.log ++ x ∷ [];
    exact = rw (foldl-append d.add s.value i.log (x ∷ [])) (ap (λ y. d.add y x) (same ∙ i.exact));
    each = subst (Perm (i.log ++ x ∷ [])) (sym (done-append before (finished x ∷ after))) (
        Perm.trans (perm_append_singleton x i.log) (
          Perm.trans
            (Perm.cons x
              (subst (Perm i.log) (done-append before (trying x current ∷ after)) i.each))
            (Perm.symm (perm_middle (done before) (done after)))));
    kept = sym (same_amounts before after (trying x current) (finished x) refl) ∙ i.kept;
  }

  Access-move :
      (s : State D) (v : D) (before after : List (Thread D)) (p q : Thread D) (w : D)
      → Access v p q w
      → IsSerial s (record { value = v; threads = before ++ p ∷ after })
      → IsSerial s (record { value = w; threads = before ++ q ∷ after })
  Access-move s v before after _ _ _ (load x) i =
      quiet_move s v before after (start x) (trying x v) refl refl i
  Access-move s v before after _ _ _ (retry x current) i =
      quiet_move s v before after (trying x current) (trying x v) refl refl i
  Access-move s v before after _ _ _ (swap x current same) i =
      swap_move s v before after x current same i

  Step-IsSerial : (s t u : State D) → Step t u → IsSerial s t → IsSerial s u
  Step-IsSerial s t u (at before after p q w a e f) i =
      let same : t ≡ record { value = t.value; threads = before ++ p ∷ after } =
        (λ j. record { value = t.value; threads = e j }) in
      subst (IsSerial s) (sym f)
        (Access-move s t.value before after p q w a (subst (IsSerial s) same i))

  done_none : (ts : List (Thread D)) → All IsStart ts → done ts ≡ []
  done_none [] h = refl
  done_none (start x ∷ ts) h = done_none ts h.1
  done_none (trying x c ∷ ts) h = absurd h.0
  done_none (finished x ∷ ts) h = absurd h.0

  done_every : (ts : List (Thread D)) → All IsFinished ts → done ts ≡ amounts ts
  done_every [] h = refl
  done_every (start x ∷ ts) h = absurd h.0
  done_every (trying x c ∷ ts) h = absurd h.0
  done_every (finished x ∷ ts) h = ap (◌∷◌ x) (done_every ts h.1)

  Reach-IsSerial : {s t : State D} → All IsStart s.threads → Reach s t → IsSerial s t
  Reach-IsSerial {s} h here = record {
    log = [];
    exact = refl;
    each = rw (done_none s.threads h) (Perm.refl []);
    kept = refl;
  }
  Reach-IsSerial {s} {t} h (next {t = m} r step) = Step-IsSerial s m t step (Reach-IsSerial h r)

  -- However the accesses of any number of concurrent calls interleave, once all calls have returned
  -- the gauge holds its start value with every call's amount added exactly once, in some order: no
  -- update is lost or made twice.
  pub Reach-serial :
      {s t : State D}
      → All IsStart s.threads
      → Reach s t
      → All IsFinished t.threads
      → (log : List D) × Perm log (amounts s.threads) × (t.value ≡ foldl d.add s.value log)
  Reach-serial {s} {t} h r f =
      let i = Reach-IsSerial h r in
      (i.log, subst (Perm i.log) (done_every t.threads f ∙ i.kept) i.each, i.exact)
