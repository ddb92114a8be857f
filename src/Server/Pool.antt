-- ===== src/Server/Pool.antt =====
-- The worker threads of src/server/server.cc and the event loop, in any order of their steps. A worker that
-- throws ends the program, so it has no step.
use mathlib.Core.List.{Perm, perm_middle}
use mathlib.Core.List.Perm
use group_trade_data_query.Common.{
  ℕ, ◌≤◌, ◌<◌, ◌≡◌, sym, ap, ◌∙◌, subst, some, List, [], ◌∷◌, ◌++◌, map, append_assoc, arith,
  length, length-append, All,
}
use mathlib.Core.Option.{some-injective}
use group_trade_data_query.Common.Run.{ok}
use group_trade_data_query.Queue.{push, pop}
use group_trade_data_query.Engine.{Engine}
use group_trade_data_query.Engine.Double.{Double}
use group_trade_data_query.Server.{WorkItem, ResultItem}
use group_trade_data_query.Server.Worker.{process_work}

-- The two queues, the items that workers hold, and what happened so far, the newest first: the items that the
-- event loop accepted, the items that workers finished with their results, and the results that the event
-- loop collected.
pub record Pool : Type 0 where
  pub work_queue : List WorkItem
  pub results_queue : List ResultItem
  pub busy : List WorkItem
  pub accepted : List WorkItem
  pub completed : List (WorkItem × ResultItem)
  pub collected : List ResultItem

abbrev pub idle : Pool
idle = record {
  work_queue = [];
  results_queue = [];
  busy = [];
  accepted = [];
  completed = [];
  collected = [];
}

module _ {D : Type 0} (d : Double D) (fuel : ℕ) (e : Engine) (inner turns threads : ℕ) where
  -- The event loop pushes an item or takes a result; a free worker takes an item, or finishes the one it has.
  pub data Step : Pool → Pool → Type 0 where
    accept :
        (s : Pool) (work : WorkItem)
        → Step s (record s { work_queue = push s.work_queue work; accepted = work ∷ s.accepted })
    begin :
        (s : Pool) (work : WorkItem) (rest : List WorkItem)
        → pop s.work_queue ≡ some (work, rest)
        → length s.busy < threads
        → Step s (record s { work_queue = rest; busy = work ∷ s.busy })
    complete :
        (s : Pool) (before after : List WorkItem) (work : WorkItem) (result : ResultItem)
        → s.busy ≡ before ++ (work ∷ after)
        → process_work d fuel e inner turns work ≡ ok result
        → Step s (record s {
          results_queue = push s.results_queue result;
          busy = before ++ after;
          completed = (work, result) ∷ s.completed;
        })
    collect :
        (s : Pool) (result : ResultItem) (rest : List ResultItem)
        → pop s.results_queue ≡ some (result, rest)
        → Step s (record s { results_queue = rest; collected = result ∷ s.collected })

  pub data Reachable : Pool → Type 0 where
    start : Reachable idle
    next : (s t : Pool) → Reachable s → Step s t → Reachable t

  pub record Conserved (s : Pool) : Type 0 where
    pub items : Perm s.accepted ((s.busy ++ s.work_queue) ++ map (λ p. p.0) s.completed)
    pub results : Perm (map (λ p. p.1) s.completed) (s.results_queue ++ s.collected)
    pub answers : All (λ p. process_work d fuel e inner turns p.0 ≡ ok p.1) s.completed
    pub threads_le : length s.busy ≤ threads

pop_parts :
    {A : Type 0} (queue rest : List A) (item : A)
    → pop queue ≡ some (item, rest)
    → queue ≡ item ∷ rest
unfolding pop
pop_parts [] rest item e = absurd (cc)
pop_parts (x ∷ xs) rest item e = let same = some-injective _ _ e in ap (λ p. p.0 ∷ p.1) same

push_middle :
    {A : Type 0} (queue rest : List A) (item : A) → push queue item ++ rest ≡ queue ++ (item ∷ rest)
unfolding push
push_middle queue rest item = append_assoc queue (item ∷ []) rest

-- An item that moves from one list to the front of another.
perm_moved :
    {A : Type 0} (before after queue done : List A) (item : A)
    → Perm
        (((before ++ (item ∷ after)) ++ queue) ++ done)
        (((before ++ after) ++ queue) ++ (item ∷ done))
perm_moved before after queue done item =
    Perm.trans
      (Perm.append (Perm.append (perm_middle before after) (Perm.refl queue)) (Perm.refl done))
      (Perm.symm (perm_middle ((before ++ after) ++ queue) done))

perm_accepted :
    {A : Type 0} (busy queue done accepted : List A) (item : A)
    → Perm accepted ((busy ++ queue) ++ done)
    → Perm (item ∷ accepted) ((busy ++ push queue item) ++ done)
perm_accepted busy queue done accepted item h =
    let e : (busy ++ push queue item) ++ done ≡ (busy ++ queue) ++ (item ∷ done) =
      append_assoc busy (push queue item) done
      ∙ ap (◌++◌ busy) (push_middle queue done item)
      ∙ sym (append_assoc busy queue (item ∷ done)) in
    subst (λ l. Perm (item ∷ accepted) l) (sym e)
      (Perm.trans (Perm.cons item h) (Perm.symm (perm_middle (busy ++ queue) done)))

module _ {D : Type 0} (d : Double D) (fuel : ℕ) (e : Engine) (inner turns threads : ℕ) where
  step-Conserved :
      (s t : Pool)
      → Step d fuel e inner turns threads s t
      → Conserved d fuel e inner turns threads s
      → Conserved d fuel e inner turns threads t
  step-Conserved s t (accept _ work) c = record {
    items = perm_accepted s.busy s.work_queue (map (λ p. p.0) s.completed) s.accepted work c.items;
    results = c.results;
    answers = c.answers;
    threads_le = c.threads_le;
  }
  step-Conserved s t (begin _ work rest p h) c = record {
    items =
        Perm.trans
          (subst (λ q. Perm s.accepted ((s.busy ++ q) ++ (map (λ p. p.0) s.completed)))
            (pop_parts s.work_queue rest work p) c.items)
          (Perm.append (perm_middle s.busy rest) (Perm.refl (map (λ p. p.0) s.completed)));
    results = c.results;
    answers = c.answers;
    threads_le = h;
  }
  step-Conserved s t (complete _ before after work result b run) c = record {
    items =
        Perm.trans
          (subst (λ held. Perm s.accepted ((held ++ s.work_queue) ++ (map (λ p. p.0) s.completed)))
            b c.items)
          (perm_moved before after s.work_queue (map (λ p. p.0) s.completed) work);
    results =
        subst (λ l. Perm (result ∷ (map (λ p. p.1) s.completed)) l)
          (sym (push_middle s.results_queue s.collected result))
          (Perm.trans (Perm.cons result c.results)
            (Perm.symm (perm_middle s.results_queue s.collected)));
    answers = (run, c.answers);
    threads_le = omega (
      arith,
      c.threads_le,
      ap length b,
      length-append before (work ∷ after),
      length-append before after,
    );
  }
  step-Conserved s t (collect _ result rest p) c = record {
    items = c.items;
    results =
        Perm.trans
          (subst (λ q. Perm (map (λ p. p.1) s.completed) (q ++ s.collected))
            (pop_parts s.results_queue rest result p) c.results)
          (Perm.symm (perm_middle rest s.collected));
    answers = c.answers;
    threads_le = c.threads_le;
  }

  -- In whatever order the event loop and the workers take their steps, every accepted item is, exactly once,
  -- in the work queue, with a worker, or finished; every finished item has, exactly once, its result in the
  -- results queue or collected, and that is the result that the worker computes of it; and no more
  -- than the given number of workers hold an item.
  pub Reachable-Conserved :
      (s : Pool)
      → Reachable d fuel e inner turns threads s
      → Conserved d fuel e inner turns threads s
  Reachable-Conserved _ start = record {
    items = Perm.refl [];
    results = Perm.refl [];
    answers = tt;
    threads_le = omega arith;
  }
  Reachable-Conserved _ (next s t r step) = step-Conserved s t step (Reachable-Conserved s r)
