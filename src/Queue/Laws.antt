-- ===== src/Queue/Laws.antt =====
-- The queues of src/server/TS-queue.h and src/utils/mt_queue.h, with their callers in any order.
use mathlib.Core.Option.{some-injective}
use group_trade_data_query.Common.{
  ℕ, zero, suc, ◌+◌, ◌<◌, ◌≡◌, refl, sym, ap, ◌∙◌, some, List, [], ◌∷◌, ◌++◌, append_assoc,
  append-nil, arith, length, length-append, foldl, if◌then◌else◌,
}
use group_trade_data_query.Queue.{
  push, try_pop, MtQueue, mt_new, mt_enqueue, mt_release, mt_acquire, mt_take,
}

module _ {ℓ} {A : Type ℓ} where
  -- Popping until the queue is empty, as the loop over `try_pop` does.
  abbrev pub drain : ℕ → A → List A → List A
  drain zero value queue = []
  drain (suc n) value queue =
      let (more, item, rest) = try_pop queue value in if more then item ∷ drain n item rest else []

  foldl-push : (items queue : List A) → foldl push queue items ≡ queue ++ items
  unfolding push
  foldl-push [] queue = sym (append-nil queue)
  foldl-push (item ∷ items) queue =
      foldl-push items (push queue item) ∙ append_assoc queue (item ∷ []) items

  drain_all : (value : A) (queue : List A) → drain (suc (length queue)) value queue ≡ queue
  unfolding try_pop
  drain_all value [] = refl
  drain_all value (item ∷ rest) = ap (◌∷◌ item) (drain_all item rest)

  -- A loop over `try_pop` on a queue that was filled by `push` takes every item, in the order of the pushes,
  -- and stops.
  pub drain-push :
      (value : A) (items : List A) → drain (suc (length items)) value (foldl push [] items) ≡ items
  drain-push value items =
      ap (drain (suc (length items)) value) (foldl-push items []) ∙ drain_all value items

-- One `Mt_Queue` and the threads that use it: those between the two halves of `push`, those between the two
-- halves of `pop`, and what was pushed and popped so far.
pub record Shared {ℓ} (A : Type ℓ) : Type ℓ where
  pub queue : MtQueue A
  pub releasing : ℕ
  pub taking : ℕ
  pub pushed : List A
  pub popped : List A

abbrev pub fresh {ℓ} : {A : Type ℓ} → Shared A
fresh = record { queue = mt_new; releasing = 0; taking = 0; pushed = []; popped = [] }

-- A step of some thread.
pub data Step {ℓ} {A : Type ℓ} : Shared A → Shared A → Type ℓ where
  enqueue :
      (s : Shared A) (item : A)
      → Step s (record s {
        queue = mt_enqueue s.queue item;
        releasing = suc s.releasing;
        pushed = s.pushed ++ (item ∷ []);
      })
  release :
      (s : Shared A) (n : ℕ)
      → s.releasing ≡ suc n
      → Step s (record s { queue = mt_release s.queue; releasing = n })
  acquire :
      (s : Shared A) (q : MtQueue A)
      → mt_acquire s.queue ≡ some q
      → Step s (record s { queue = q; taking = suc s.taking })
  take :
      (s : Shared A) (n : ℕ) (item : A) (q : MtQueue A)
      → s.taking ≡ suc n
      → mt_take s.queue ≡ some (item, q)
      → Step s (record s { queue = q; taking = n; popped = s.popped ++ (item ∷ []) })

pub data Reachable {ℓ} {A : Type ℓ} : Shared A → Type ℓ where
  start : Reachable fresh
  next : (s t : Shared A) → Reachable s → Step s t → Reachable t

-- Every entry is announced, about to be announced, or promised to a thread.
pub record Balanced {ℓ} {A : Type ℓ} (s : Shared A) : Type ℓ where
  pub permits : s.queue.qsize + s.releasing + s.taking ≡ length s.queue.entries
  pub history : s.popped ++ s.queue.entries ≡ s.pushed

module _ {ℓ} {A : Type ℓ} where
  acquire_parts :
      (n : ℕ) (entries : List A) (r : MtQueue A)
      → mt_acquire (record { qsize = n; entries = entries }) ≡ some r
      → (n ≡ suc r.qsize) × (entries ≡ r.entries)
  unfolding mt_acquire
  acquire_parts zero entries r e = absurd (cc)
  acquire_parts (suc n) entries r e =
      let same = some-injective _ _ e in (ap (λ x. suc x.qsize) same, ap (λ x. x.entries) same)

  mt_acquire-some :
      (q r : MtQueue A) → mt_acquire q ≡ some r → (q.qsize ≡ suc r.qsize) × (q.entries ≡ r.entries)
  mt_acquire-some q r e = acquire_parts q.qsize q.entries r e

  take_parts :
      (n : ℕ) (entries : List A) (r : MtQueue A) (item : A)
      → mt_take (record { qsize = n; entries = entries }) ≡ some (item, r)
      → (n ≡ r.qsize) × (entries ≡ item ∷ r.entries)
  unfolding mt_take
  take_parts n [] r item e = absurd (cc)
  take_parts n (x ∷ xs) r item e =
      let same = some-injective _ _ e in
      (ap (λ p. p.1.qsize) same, ap (λ p. p.0 ∷ p.1.entries) same)

  mt_take-some :
      (q r : MtQueue A) (item : A)
      → mt_take q ≡ some (item, r)
      → (q.qsize ≡ r.qsize) × (q.entries ≡ item ∷ r.entries)
  mt_take-some q r item e = take_parts q.qsize q.entries r item e

  step-Balanced : (s t : Shared A) → Step s t → Balanced s → Balanced t
  unfolding mt_enqueue mt_release
  step-Balanced s t (enqueue _ item) b = record {
    permits = omega (arith, b.permits, length-append s.queue.entries (item ∷ []));
    history =
        sym (append_assoc s.popped s.queue.entries (item ∷ []))
        ∙ ap (λ xs. xs ++ (item ∷ [])) b.history;
  }
  step-Balanced s t (release _ n e) b = record {
    permits = omega (arith, b.permits);
    history = b.history;
  }
  step-Balanced s t (acquire _ q e) b =
      let (p, same) = mt_acquire-some s.queue q e in
      record {
        permits = omega (arith, b.permits, ap length same);
        history = ap (◌++◌ s.popped) (sym same) ∙ b.history;
      }
  step-Balanced s t (take _ n item q e f) b =
      let (p, cut) = mt_take-some s.queue q item f in
      record {
        permits = omega (arith, b.permits, ap length cut);
        history =
            append_assoc s.popped (item ∷ []) q.entries ∙ ap (◌++◌ s.popped) (sym cut) ∙ b.history;
      }

  Reachable-Balanced : (s : Shared A) → Reachable s → Balanced s
  unfolding mt_new
  Reachable-Balanced _ start = record { permits = refl; history = refl }
  Reachable-Balanced _ (next s t r step) = step-Balanced s t step (Reachable-Balanced s r)

  ready_parts :
      (n : ℕ) (entries : List A)
      → 0 < length entries
      → (item : A) × (r : MtQueue A) × (mt_take (record { qsize = n; entries = entries })
          ≡ some (item, r))
  unfolding mt_take
  ready_parts n [] h = absurd (omega arith)
  ready_parts n (x ∷ xs) h = (x, record { qsize = n; entries = xs }, refl)

  -- In every state that threads reach by pushing and popping in any order, what was popped and
  -- then what is in the queue is what was pushed, in its order.
  pub Reachable-fifo : (s : Shared A) → Reachable s → s.popped ++ s.queue.entries ≡ s.pushed
  Reachable-fifo s r = (Reachable-Balanced s r).history

  -- In every state that threads reach by pushing and popping in any order, a thread that got past
  -- the semaphore finds an entry.
  pub mt_take_ready :
      (s : Shared A)
      → Reachable s
      → 0 < s.taking
      → (item : A) × (q : MtQueue A) × (mt_take s.queue ≡ some (item, q))
  mt_take_ready s r h =
      ready_parts s.queue.qsize s.queue.entries (omega (arith, (Reachable-Balanced s r).permits))
