-- ===== src/Exporter/Batch/Steps.antt =====
-- internal/exporter/otlphttp.go, `Run`: its steps on the state of Batch/Laws.
use log_collector.Base.{
  ℕ, ◌+◌, ◌^◌, ◌≤◌, ◌<◌, ◌≡◌, refl, ap, sym, ◌∙◌, inl, inr, Bool, true, false, List, [], ◌∷◌, ◌++◌,
  length, All, All-split, not, ◌&&◌, ◌||◌, leb, if◌then◌else◌, arith, length-append, append_assoc,
  append-nil, Bool-cases, subst,
}
use log_collector.Base.Int.{ℤ, pos, negsuc, ◌+ℤ◌, ltb_ℤ, wrap64}
use log_collector.Model.{Record}
use log_collector.Exporter.Size.{record_size, total_size}
use log_collector.Exporter.Queue.Laws.{add_exact, total_size-append}
use log_collector.Exporter.Batch.{
  BatchConfig, Run, begin, Context, Outcome, running, and_then, is_empty, flush, is_full_for,
  is_full, push, append_record, Event, received, tick, handle, run_loop, drain, run,
}
use log_collector.Exporter.Batch.Laws.{
  IsLegal, flat, arrivals, carried, IsSound, IsGood, Always, IsFlushed, HasRoom, and_then-IsGood,
  is_empty-[], flush-IsGood, weaken,
}

module _ (cfg : BatchConfig) (room : 0 < cfg.batch_size)
    (bound : cfg.max_batch_bytes < 2 ^ 62) where
  light_sum :
      (r : Record) (s : Run)
      → record_size r < 2 ^ 62
      → HasRoom cfg r s
      → total_size s.batch + record_size r < 2 ^ 62
  unfolding total_size
  light_sum r s small (inl e) = omega (arith, ap total_size e, small)
  light_sum r s small (inr (few, light)) = omega (arith, light, bound)

  grown : (r : Record) (s : Run) → HasRoom cfg r s → IsLegal cfg (s.batch ++ r ∷ [])
  unfolding total_size
  grown r s (inl e) =
      subst (λ b. IsLegal cfg (b ++ r ∷ [])) (sym e)
        (record { nonempty = omega arith; few = room; light = inl refl })
  grown r s (inr (few, light)) =
      let len = length-append s.batch (r ∷ []) in
      record {
        nonempty = omega (arith, len);
        few = omega (arith, len, few);
        light = inr (omega (arith, total_size-append s.batch (r ∷ []), light));
      }

  push-IsSound :
      (r : Record) (s : Run)
      → record_size r < 2 ^ 62
      → HasRoom cfg r s
      → IsSound cfg s
      → IsSound cfg (push r s)
  unfolding push total_size
  push-IsSound r s small h x =
      let sum = light_sum r s small h in
      let size : total_size s.batch + record_size r ≡ total_size (s.batch ++ r ∷ []) =
        omega (arith, total_size-append s.batch (r ∷ [])) in
      record {
        counted =
            add_exact (total_size s.batch) (record_size r) s.batch_bytes x.counted
              (omega (arith, sum))
            ∙ ap pos size;
        small = omega (arith, sum, size);
        pending = inr (grown r s h);
        legal = x.legal;
      }

  fits :
      (n t : ℕ) (c : ℤ)
      → c ≡ pos t
      → (not false && (leb cfg.batch_size n || ltb_ℤ (pos cfg.max_batch_bytes) c)) ≡ false
      → (n < cfg.batch_size) × (t ≤ cfg.max_batch_bytes)
  fits n t (pos k) e h = ground arith
  fits n t (negsuc k) e h = ground arith

  has_room :
      (r : Record) (s : Run)
      → record_size r < 2 ^ 62
      → IsSound cfg s
      → is_full_for cfg r s ≡ false
      → HasRoom cfg r s
  unfolding is_full_for
  has_room r s small x e = elim (Bool-cases (is_empty s.batch)) [
    | inl t ↦ inl (is_empty-[] s.batch t)
    | inr f ↦ inr (
        fits (length s.batch) (total_size s.batch + record_size r)
          (wrap64 (s.batch_bytes +ℤ pos (record_size r)))
          (add_exact (total_size s.batch) (record_size r) s.batch_bytes x.counted
            (omega (arith, x.small, small)))
          (subst
            (λ b.
              (not b
                && (leb cfg.batch_size (length s.batch)
                    || ltb_ℤ (pos cfg.max_batch_bytes)
                        (wrap64 (s.batch_bytes +ℤ pos (record_size r)))))
              ≡ false)
            f e))
  ]

  -- The first half of `appendRecord`, on its test.
  make_room-IsGood :
      (rs : List Record) (send : Context) (r : Record) (s : Run) (full : Bool)
      → is_full_for cfg r s ≡ full
      → record_size r < 2 ^ 62
      → IsSound cfg s
      → carried s ≡ rs
      → IsGood (HasRoom cfg r) cfg rs (if full then flush send s else running s)
  unfolding IsGood
  make_room-IsGood rs send r s true full small x e =
      weaken IsFlushed (HasRoom cfg r) cfg rs (flush send s) (λ t p. inl p)
        (flush-IsGood cfg rs send s x e)
  make_room-IsGood rs send r s false full small x e = (has_room r s small x full, x, e)

  append_record-IsGood :
      (rs : List Record) (send : Context) (r : Record) (s : Run)
      → record_size r < 2 ^ 62
      → IsSound cfg s
      → carried s ≡ rs
      → IsGood Always cfg (rs ++ r ∷ []) (append_record cfg send r s)
  unfolding append_record IsGood push
  append_record-IsGood rs send r s small x e =
      and_then-IsGood (HasRoom cfg r) Always cfg rs (r ∷ [])
        (if is_full_for cfg r s then flush send s else running s) (λ t. running (push r t))
        (make_room-IsGood rs send r s (is_full_for cfg r s) refl small x e)
        (λ t h y d. (
          refl,
          push-IsSound r t small h y,
          sym (append_assoc (flat t.sent) t.batch (r ∷ [])) ∙ ap (λ ys. ys ++ r ∷ []) d,
        ))

  -- A flush that depends on a test.
  flush_if-IsGood :
      (b : Bool) (rs : List Record) (send : Context) (s : Run)
      → IsSound cfg s
      → carried s ≡ rs
      → IsGood Always cfg rs (if b then flush send s else running s)
  unfolding IsGood
  flush_if-IsGood true rs send s x e =
      weaken IsFlushed Always cfg rs (flush send s) (λ t p. refl) (flush-IsGood cfg rs send s x e)
  flush_if-IsGood false rs send s x e = (refl, x, e)

  chain :
      (rs xs : List Record) (Q : Run → Type 0) (o : Outcome) (f : Run → Outcome)
      → IsGood Always cfg rs o
      → ((s : Run) → IsSound cfg s → carried s ≡ rs → IsGood Q cfg (rs ++ xs) (f s))
      → IsGood Q cfg (rs ++ xs) (and_then o f)
  chain rs xs Q o f g k = and_then-IsGood Always Q cfg rs xs o f g (λ s p x e. k s x e)

  regroup :
      (Q : Run → Type 0) (xs ys : List Record) (o : Outcome)
      → xs ≡ ys
      → IsGood Q cfg xs o
      → IsGood Q cfg ys o
  regroup Q xs ys o e g = subst (λ zs. IsGood Q cfg zs o) e g

  handle-IsGood :
      (rs : List Record) (send : Context) (e : Event) (s : Run)
      → All (λ r. record_size r < 2 ^ 62) (arrivals (e ∷ []))
      → IsSound cfg s
      → carried s ≡ rs
      → IsGood Always cfg (rs ++ arrivals (e ∷ [])) (handle cfg send e s)
  unfolding handle
  handle-IsGood rs send (received r) s (small, h) x d =
      regroup Always _ _ _ (append-nil (rs ++ r ∷ [])) (
        chain (rs ++ r ∷ []) [] Always (append_record cfg send r s)
          (λ t. if is_full cfg t then flush send t else running t)
          (append_record-IsGood rs send r s small x d)
          (λ t y q.
            flush_if-IsGood (is_full cfg t) ((rs ++ r ∷ []) ++ []) send t y
              (q ∙ sym (append-nil (rs ++ r ∷ [])))))
  handle-IsGood rs send tick s h x d =
      flush_if-IsGood true (rs ++ []) send s x (d ∙ sym (append-nil rs))

  run_loop-IsGood :
      (rs : List Record) (send : Context) (es : List Event) (s : Run)
      → All (λ r. record_size r < 2 ^ 62) (arrivals es)
      → IsSound cfg s
      → carried s ≡ rs
      → IsGood Always cfg (rs ++ arrivals es) (run_loop cfg send es s)
  unfolding run_loop IsGood
  run_loop-IsGood rs send [] s h x d = (refl, x, d ∙ sym (append-nil rs))
  run_loop-IsGood rs send (received r ∷ es) s (small, h) x d =
      regroup Always _ _ _ (append_assoc rs (r ∷ []) (arrivals es)) (
        chain (rs ++ r ∷ []) (arrivals es) Always (handle cfg send (received r) s)
          (run_loop cfg send es) (handle-IsGood rs send (received r) s (small, tt) x d)
          (λ t y q. run_loop-IsGood (rs ++ r ∷ []) send es t h y q))
  run_loop-IsGood rs send (tick ∷ es) s h x d =
      chain rs (arrivals es) Always (handle cfg send tick s) (run_loop cfg send es)
        (regroup Always _ _ _ (append-nil rs) (handle-IsGood rs send tick s tt x d))
        (λ t y q. run_loop-IsGood rs send es t h y q)

  drain-IsGood :
      (rs : List Record) (send : Context) (xs : List Record) (s : Run)
      → All (λ r. record_size r < 2 ^ 62) xs
      → IsSound cfg s
      → carried s ≡ rs
      → IsGood Always cfg (rs ++ xs) (drain cfg send xs s)
  unfolding drain IsGood
  drain-IsGood rs send [] s h x d = (refl, x, d ∙ sym (append-nil rs))
  drain-IsGood rs send (r ∷ xs) s (small, h) x d =
      regroup Always _ _ _ (append_assoc rs (r ∷ []) xs) (
        chain (rs ++ r ∷ []) xs Always (append_record cfg send r s) (drain cfg send xs)
          (append_record-IsGood rs send r s small x d)
          (λ t y q. drain-IsGood (rs ++ r ∷ []) send xs t h y q))

  pub run-IsGood :
      (send shutdown : Context) (es : List Event) (rs : List Record)
      → All (λ r. record_size r < 2 ^ 62) (arrivals es ++ rs)
      → IsGood IsFlushed cfg (arrivals es ++ rs) (run cfg send shutdown es rs)
  unfolding run begin total_size
  run-IsGood send shutdown es rs h =
      let (before, after) = All-split (λ r. record_size r < 2 ^ 62) (arrivals es) rs h in
      chain (arrivals es) rs IsFlushed (run_loop cfg send es begin)
        (λ s. and_then (drain cfg shutdown rs s) (flush shutdown))
        (run_loop-IsGood [] send es begin before
          (record { counted = refl; small = omega arith; pending = inl refl; legal = tt }) refl)
        (λ s x d. regroup IsFlushed _ _ _ (append-nil (arrivals es ++ rs)) (
          chain (arrivals es ++ rs) [] IsFlushed (drain cfg shutdown rs s) (flush shutdown)
            (drain-IsGood (arrivals es) shutdown rs s after x d)
            (λ t y q.
              flush-IsGood cfg ((arrivals es ++ rs) ++ []) shutdown t y
                (q ∙ sym (append-nil (arrivals es ++ rs))))))
