-- ===== src/Exporter/Batch/Laws.antt =====
-- internal/exporter/otlphttp.go, `Run`: legal batches, the state between steps, and `flush`.
use log_collector.Base.{
  ◌+◌, ◌^◌, ◌≤◌, ◌<◌, ◌≡◌, refl, ap, sym, ◌∙◌, ◌⊎◌, inl, inr, Bool, true, false, List, [], ◌∷◌,
  ◌++◌, length, All, All-append, if◌then◌else◌, arith, append_assoc, append-nil,
}
use log_collector.Base.Int.{pos}
use log_collector.Model.{Record}
use log_collector.Exporter.Size.{record_size, total_size}
use log_collector.Exporter.Batch.{
  BatchConfig, Run, Context, Outcome, running, failed, and_then, is_empty, flush, Event, received,
  tick,
}

-- A batch that may be sent: not empty, at most `BatchSize` records, and at most `MaxBatchBytes`
-- unless it is a single record.
pub record IsLegal (cfg : BatchConfig) (batch : List Record) : Type 0 where
  pub nonempty : 0 < length batch
  pub few : length batch ≤ cfg.batch_size
  pub light : (length batch ≡ 1) ⊎ (total_size batch ≤ cfg.max_batch_bytes)

-- All records sent, oldest first.
abbrev pub flat : List (List Record) → List Record
flat [] = []
flat (b ∷ bs) = b ++ flat bs

-- The records that the events bring.
abbrev pub arrivals : List Event → List Record
arrivals [] = []
arrivals (received r ∷ es) = r ∷ arrivals es
arrivals (tick ∷ es) = arrivals es

-- The records of a run so far.
abbrev pub carried : Run → List Record
carried s = flat s.sent ++ s.batch

-- The state between two steps.
pub record IsSound (cfg : BatchConfig) (s : Run) : Type 0 where
  pub counted : s.batch_bytes ≡ pos (total_size s.batch)
  pub small : total_size s.batch < 2 ^ 62
  pub pending : (s.batch ≡ []) ⊎ IsLegal cfg s.batch
  pub legal : All (IsLegal cfg) s.sent

-- The records so far are sent or in the batch, and those after a failure are lost; `P` holds of the
-- state that goes on.
unfoldable pub IsGood : (Run → Type 0) → BatchConfig → List Record → Outcome → Type 0
IsGood P cfg rs (running s) = P s × IsSound cfg s × (carried s ≡ rs)
IsGood P cfg rs (failed s) = IsSound cfg s × ((lost : List Record) × (carried s ++ lost ≡ rs))

abbrev pub Always : Run → Type 0
Always s = s.sent ≡ s.sent

abbrev pub IsFlushed : Run → Type 0
IsFlushed s = s.batch ≡ []

abbrev pub HasRoom : BatchConfig → Record → Run → Type 0
HasRoom cfg r s =
    (s.batch ≡ [])
    ⊎ ((length s.batch < cfg.batch_size)
        × (total_size s.batch + record_size r ≤ cfg.max_batch_bytes))

pub and_then-IsGood :
    (P Q : Run → Type 0) (cfg : BatchConfig) (rs xs : List Record) (o : Outcome) (f : Run → Outcome)
    → IsGood P cfg rs o
    → ((s : Run) → P s → IsSound cfg s → carried s ≡ rs → IsGood Q cfg (rs ++ xs) (f s))
    → IsGood Q cfg (rs ++ xs) (and_then o f)
unfolding and_then IsGood
and_then-IsGood P Q cfg rs xs (running s) f (p, sound, e) g = g s p sound e
and_then-IsGood P Q cfg rs xs (failed s) f (sound, (lost, e)) g =
    (sound, (lost ++ xs, sym (append_assoc (carried s) lost xs) ∙ ap (λ ys. ys ++ xs) e))

flat-snoc : (bs : List (List Record)) (b : List Record) → flat (bs ++ b ∷ []) ≡ flat bs ++ b
flat-snoc [] b = append-nil b
flat-snoc (x ∷ bs) b = ap (λ ys. x ++ ys) (flat-snoc bs b) ∙ sym (append_assoc x (flat bs) b)

delivered :
    (cfg : BatchConfig) (s : Run)
    → IsSound cfg s
    → IsLegal cfg s.batch
    → IsSound cfg (record { batch = []; batch_bytes = pos 0; sent = s.sent ++ s.batch ∷ [] })
unfolding total_size
delivered cfg s x l = record {
  counted = refl;
  small = omega arith;
  pending = inl refl;
  legal = All-append (IsLegal cfg) s.sent (s.batch ∷ []) x.legal (l, tt);
}

pub is_empty-[] : (rs : List Record) → is_empty rs ≡ true → rs ≡ []
unfolding is_empty
is_empty-[] [] e = refl
is_empty-[] (r ∷ rs) e = cc

IsLegal-of_pending :
    (cfg : BatchConfig) (s : Run) → IsSound cfg s → is_empty s.batch ≡ false → IsLegal cfg s.batch
unfolding is_empty
IsLegal-of_pending cfg s x e = elim x.pending [
  | inl p ↦ let q = ap is_empty p in absurd (cc)
  | inr l ↦ l
]

-- The cases of `flush`, on its two tests.
flush_cases-IsGood :
    (cfg : BatchConfig) (rs : List Record) (s : Run) (v w : Bool)
    → is_empty s.batch ≡ v
    → IsSound cfg s
    → carried s ≡ rs
    → IsGood IsFlushed cfg rs (
        if v
        then running s
        else if w
        then running (record { batch = []; batch_bytes = pos 0; sent = s.sent ++ s.batch ∷ [] })
        else failed s)
unfolding IsGood
flush_cases-IsGood cfg rs s true w v x e = (is_empty-[] s.batch v, x, e)
flush_cases-IsGood cfg rs s false true v x e = (
  refl,
  delivered cfg s x (IsLegal-of_pending cfg s x v),
  append-nil (flat (s.sent ++ s.batch ∷ [])) ∙ flat-snoc s.sent s.batch ∙ e,
)
flush_cases-IsGood cfg rs s false false v x e = (x, ([], append-nil (carried s) ∙ e))

pub flush-IsGood :
    (cfg : BatchConfig) (rs : List Record) (send : Context) (s : Run)
    → IsSound cfg s
    → carried s ≡ rs
    → IsGood IsFlushed cfg rs (flush send s)
unfolding flush
flush-IsGood cfg rs send s x e =
    flush_cases-IsGood cfg rs s (is_empty s.batch) (send s.sent s.batch) refl x e

pub weaken :
    (P Q : Run → Type 0) (cfg : BatchConfig) (rs : List Record) (o : Outcome)
    → ((s : Run) → P s → Q s)
    → IsGood P cfg rs o
    → IsGood Q cfg rs o
unfolding IsGood
weaken P Q cfg rs (running s) f (p, x, e) = (f s p, x, e)
weaken P Q cfg rs (failed s) f x = x
