-- ===== src/Concurrent/Order.antt =====
-- What the queues promise: the calls and their steps, with a law that makes each history keep the order.
use knights.Base.{◌≡◌, ◌∙◌, ap, sym, List, [], ◌∷◌, ◌++◌, append_assoc, append-nil}

-- A queue of `A` with states `S` and calls `C`. A call adds items at the back and takes items from the
-- front.
pub record Queue (S C A : Type 0) : Type 0 where
  pub step : S → C → S
  pub items : S → List A
  pub added : S → C → List A
  pub taken : S → C → List A
  pub keeps_order : (s : S) (c : C) → items s ++ added s c ≡ taken s c ++ items (step s c)

module _ {S C A : Type 0} (queue : Queue S C A) where
  -- The state after a history, the newest call at the head.
  unfoldable pub after : S → List C → S
  after s [] = s
  after s (c ∷ cs) = queue.step (after s cs) c

  -- The items that a history adds and takes, the oldest at the head.
  unfoldable pub all_added : S → List C → List A
  all_added s [] = []
  all_added s (c ∷ cs) = all_added s cs ++ queue.added (after s cs) c

  unfoldable pub all_taken : S → List C → List A
  all_taken s [] = []
  all_taken s (c ∷ cs) = all_taken s cs ++ queue.taken (after s cs) c

  pub all_keep_order :
      (s : S) (cs : List C)
      → queue.items s ++ all_added s cs ≡ all_taken s cs ++ queue.items (after s cs)
  unfolding after all_added all_taken
  all_keep_order s [] = append-nil (queue.items s)
  all_keep_order s (c ∷ cs) =
      let s' = after s cs in
      sym (append_assoc (queue.items s) (all_added s cs) (queue.added s' c))
      ∙ ap (λ xs. xs ++ queue.added s' c) (all_keep_order s cs)
      ∙ append_assoc (all_taken s cs) (queue.items s') (queue.added s' c)
      ∙ ap (λ xs. all_taken s cs ++ xs) (queue.keeps_order s' c)
      ∙ sym (append_assoc (all_taken s cs) (queue.taken s' c) (queue.items (queue.step s' c)))
