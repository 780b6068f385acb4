-- ===== src/Exporter/Queue/Laws.antt =====
-- internal/exporter/otlphttp.go: the count of queued bytes over the steps of producers and `Run`.
use log_collector.Base.{
  ℕ, ◌+◌, ◌^◌, ◌≤◌, ◌<◌, ◌≡◌, refl, ap, sym, ◌∙◌, Bool, true, false, Option, none, some, List, [],
  ◌∷◌, ◌++◌, length, ltb, if◌then◌else◌, arith, length-append, subst,
}
use log_collector.Base.Int.{ℤ, pos, negsuc, ◌+ℤ◌, ◌-ℤ◌, leb_ℤ, wrap64, wrap64_id}
use log_collector.Model.{Record}
use log_collector.Exporter.Size.{record_size, total_size}
use log_collector.Exporter.Queue.{
  QueueConfig, reserve_queue_bytes, release_queue_bytes, Queue, empty, Entry, too_large, waits,
  entered, enter, Step, enqueue, turn, send, cancel, receive, release, Reach, start, next,
}

pub total_size-append :
    (xs ys : List Record) → total_size (xs ++ ys) ≡ total_size xs + total_size ys
unfolding total_size
total_size-append [] ys = omega arith
total_size-append (x ∷ xs) ys = omega (arith, total_size-append xs ys)

rotate : (r : Record) (rs : List Record) → total_size (r ∷ rs) ≡ total_size (rs ++ r ∷ [])
unfolding total_size
rotate r rs = omega (arith, total_size-append rs (r ∷ []))

-- What the count stands for.
abbrev pub counted_size : Queue → ℕ
counted_size q = total_size q.input + total_size q.reserved + total_size q.received

-- The count is the size of what is queued, reserved, and received without a release yet; the limits
-- hold.
pub record IsExact (cfg : QueueConfig) (q : Queue) : Type 0 where
  pub counted : q.queued_bytes ≡ pos (counted_size q)
  pub bytes_bounded : counted_size q ≤ cfg.max_queue_bytes
  pub records_bounded : length q.input ≤ cfg.queue_size
  pub one_received : length q.received ≤ 1

difference : (size n : ℕ) → pos (size + n) -ℤ pos size ≡ pos n
unfolding ◌-ℤ◌
difference size n = ground arith

sum : (n size : ℕ) → pos n +ℤ pos size ≡ pos (n + size)
unfolding ◌+ℤ◌
sum n size = ground arith

pos-IsInt64 : (n : ℕ) → n < 2 ^ 63 → wrap64 (pos n) ≡ pos n
pos-IsInt64 n h = wrap64_id (pos n) (h, omega arith)

release_exact :
    (size n : ℕ) (queued : ℤ)
    → queued ≡ pos (size + n)
    → size + n < 2 ^ 63
    → release_queue_bytes size queued ≡ pos n
unfolding release_queue_bytes
release_exact size n queued e h =
    ap (λ z. wrap64 (z -ℤ pos size)) e
    ∙ ap wrap64 (difference size n)
    ∙ pos-IsInt64 n (omega (arith, h))

admitted :
    (limit n : ℕ) (count m : ℤ)
    → count ≡ pos n
    → (if leb_ℤ count (pos limit) then some count else none) ≡ some m
    → (m ≡ pos n) × (n ≤ limit)
admitted limit n (pos k) m e h = ground arith
admitted limit n (negsuc k) m e h = ground arith

pub add_exact :
    (n size : ℕ) (count : ℤ)
    → count ≡ pos n
    → n + size < 2 ^ 63
    → wrap64 (count +ℤ pos size) ≡ pos (n + size)
add_exact n size count e h =
    ap (λ z. wrap64 (z +ℤ pos size)) e ∙ ap wrap64 (sum n size) ∙ pos-IsInt64 (n + size) h

reserve_exact :
    (cfg : QueueConfig) (size n : ℕ) (queued m : ℤ)
    → queued ≡ pos n
    → n + size < 2 ^ 63
    → reserve_queue_bytes cfg size queued ≡ some m
    → (m ≡ pos (n + size)) × (n + size ≤ cfg.max_queue_bytes)
unfolding reserve_queue_bytes
reserve_exact cfg size n queued m e h k =
    admitted cfg.max_queue_bytes (n + size) (wrap64 (queued +ℤ pos size)) m
      (add_exact n size queued e h) k

-- What `enter` does when it succeeds.
admit-entered :
    (r : Record) (q q' : Queue) (o : Option ℤ)
    → elim o [
      | none ↦ waits
      | some n ↦ entered (record q { queued_bytes = n; reserved = r ∷ q.reserved })
    ]
      ≡ entered q'
    → (m : ℤ) × (o ≡ some m) × (q' ≡ record q { queued_bytes = m; reserved = r ∷ q.reserved })
admit-entered r q q' none h = cc
admit-entered r q q' (some m) h = (m, refl, cc)

gate-entered :
    (b : Bool) (e : Entry) (q' : Queue)
    → (if b then too_large else e) ≡ entered q'
    → (b ≡ false) × (e ≡ entered q')
gate-entered true e q' h = cc
gate-entered false e q' h = (refl, h)

enter-entered :
    (cfg : QueueConfig) (r : Record) (q q' : Queue)
    → enter cfg r q ≡ entered q'
    → (record_size r ≤ cfg.max_queue_bytes)
      × ((m : ℤ) × (reserve_queue_bytes cfg (record_size r) q.queued_bytes ≡ some m)
          × (q' ≡ record q { queued_bytes = m; reserved = r ∷ q.reserved }))
unfolding enter
enter-entered cfg r q q' h =
    let (small, admits) = gate-entered (ltb cfg.max_queue_bytes (record_size r)) _ q' h in
    (
      ground (arith, small),
      admit-entered r q q' (reserve_queue_bytes cfg (record_size r) q.queued_bytes) admits,
    )

-- One step.
Step-IsExact :
    (cfg : QueueConfig) (q q' : Queue)
    → cfg.max_queue_bytes < 2 ^ 62
    → IsExact cfg q
    → Step cfg q q'
    → IsExact cfg q'
unfolding total_size
Step-IsExact cfg q q' small x (enqueue r h) =
    let (fits, (m, reserves, e)) = enter-entered cfg r q q' h in
    let (counts, bounded) =
      reserve_exact cfg (record_size r) (counted_size q) q.queued_bytes m x.counted
        (omega (arith, small, x.bytes_bounded, fits)) reserves in
    subst (IsExact cfg) (sym e) (record {
      counted = counts ∙ ap pos (omega arith);
      bytes_bounded = omega (arith, bounded);
      records_bounded = x.records_bounded;
      one_received = x.one_received;
    })
Step-IsExact cfg q q' small x (turn r rs h e) =
    let size : total_size q.reserved ≡ total_size (rs ++ r ∷ []) = ap total_size h ∙ rotate r rs in
    subst (IsExact cfg) (sym e) (record {
      counted = x.counted ∙ ap (λ n. pos (total_size q.input + n + total_size q.received)) size;
      bytes_bounded = omega (arith, size, x.bytes_bounded);
      records_bounded = x.records_bounded;
      one_received = x.one_received;
    })
Step-IsExact cfg q q' small x (send r rs h room e) =
    let size : total_size q.reserved ≡ record_size r + total_size rs = ap total_size h in
    let size' : total_size (q.input ++ r ∷ []) ≡ total_size q.input + (record_size r + 0) =
      total_size-append q.input (r ∷ []) in
    subst (IsExact cfg) (sym e) (record {
      counted = x.counted ∙ ap pos (omega (arith, size, size'));
      bytes_bounded = omega (arith, size, size', x.bytes_bounded);
      records_bounded = omega (arith, room, length-append q.input (r ∷ []));
      one_received = x.one_received;
    })
Step-IsExact cfg q q' small x (cancel r rs h e) =
    let size : total_size q.reserved ≡ record_size r + total_size rs = ap total_size h in
    subst (IsExact cfg) (sym e) (record {
      counted =
          release_exact (record_size r) (total_size q.input + total_size rs + total_size q.received)
            q.queued_bytes (x.counted ∙ ap pos (omega (arith, size)))
            (omega (arith, size, small, x.bytes_bounded));
      bytes_bounded = omega (arith, size, x.bytes_bounded);
      records_bounded = x.records_bounded;
      one_received = x.one_received;
    })
Step-IsExact cfg q q' small x (receive r rs h none_held e) =
    let size : total_size q.input ≡ record_size r + total_size rs = ap total_size h in
    let size' : total_size q.received ≡ 0 = ap total_size none_held in
    subst (IsExact cfg) (sym e) (record {
      counted = x.counted ∙ ap pos (omega (arith, size, size'));
      bytes_bounded = omega (arith, size, size', x.bytes_bounded);
      records_bounded = omega (arith, x.records_bounded, ap length h);
      one_received = omega arith;
    })
Step-IsExact cfg q q' small x (release r rs h e) =
    let size : total_size q.received ≡ record_size r + total_size rs = ap total_size h in
    subst (IsExact cfg) (sym e) (record {
      counted =
          release_exact (record_size r) (total_size q.input + total_size q.reserved + total_size rs)
            q.queued_bytes (x.counted ∙ ap pos (omega (arith, size)))
            (omega (arith, size, small, x.bytes_bounded));
      bytes_bounded = omega (arith, size, x.bytes_bounded);
      records_bounded = x.records_bounded;
      one_received = omega (arith, x.one_received, ap length h);
    })

-- In every state that producers and Run can reach from the empty queue, the int64 count of queued
-- bytes is the exact size of the records that are queued, reserved, or received by Run without
-- their bytes released yet; it is at most max_queue_bytes, at most queue_size records are queued,
-- and Run holds back at most one, when max_queue_bytes is below 2^62.
pub Reach-IsExact :
    (cfg : QueueConfig) (q : Queue) → cfg.max_queue_bytes < 2 ^ 62 → Reach cfg q → IsExact cfg q
unfolding empty total_size
Reach-IsExact cfg _ small start = record {
  counted = refl;
  bytes_bounded = omega arith;
  records_bounded = omega arith;
  one_received = omega arith;
}
Reach-IsExact cfg q' small (next {q} h s) =
    Step-IsExact cfg q q' small (Reach-IsExact cfg q small h) s
