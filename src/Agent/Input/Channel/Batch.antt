-- ===== src/Agent/Input/Channel/Batch.antt =====
-- What `take_batch` takes, and what it leaves.
use logpilot.Prelude.{
  ℕ, zero, suc, ◌≤◌, ◌≡◌, refl, sym, ap, ◌∙◌, subst, ◌⊎◌, inl, inr, Bool, true, false, List, [],
  ◌∷◌, ◌++◌, append_assoc, append-nil, arith, Bool-cases, List-cases, length,
}
use logpilot.Agent.Record.{Record}
use logpilot.Agent.Input.Channel.{take_batch}

-- What is sent before the `n` selects from `k` on.
abbrev pub sent_before : (ℕ → List Record) → ℕ → ℕ → List Record
sent_before arrivals k zero = []
sent_before arrivals k (suc n) = arrivals k ++ sent_before arrivals (suc k) n

-- A batch and what is left waiting, of a channel of `items`, with room for `left`.
abbrev pub Taken :
    (ℕ → List Record) → (ℕ → Bool) → ℕ → ℕ → List Record → List Record × List Record → Type 0
Taken arrivals leaves left k items (batch, waiting) =
    ((n : ℕ) × (batch ++ waiting ≡ items ++ sent_before arrivals k n))
    × (length batch ≤ left)
    × (((length batch ≡ left) ⊎ (waiting ≡ [])) ⊎ ((j : ℕ) × (leaves j ≡ true)))

module _ (arrivals : ℕ → List Record) (leaves : ℕ → Bool) (left k : ℕ) (items : List Record) where
  take_batch_left :
      leaves k ≡ true → take_batch arrivals leaves (suc left) k items ≡ ([], items ++ arrivals k)
  unfolding take_batch
  take_batch_left e = rw (e, take_batch)

  take_batch_empty :
      leaves k ≡ false
      → items ++ arrivals k ≡ []
      → take_batch arrivals leaves (suc left) k items ≡ ([], [])
  unfolding take_batch
  take_batch_empty e n = rw (e, n, take_batch)

  take_batch_more :
      (r : Record) (rest : List Record)
      → leaves k ≡ false
      → items ++ arrivals k ≡ r ∷ rest
      → take_batch arrivals leaves (suc left) k items ≡ (
        r ∷ (take_batch arrivals leaves left (suc k) rest).0,
        (take_batch arrivals leaves left (suc k) rest).1,
      )
  unfolding take_batch
  take_batch_more r rest e n = rw (e, n, take_batch)

-- A batch and what it leaves waiting are what waited before and what was sent meanwhile, in order;
-- the batch has the size at most; and unless the context is done it is full, or nothing is left.
pub take_batch_lem :
    (arrivals : ℕ → List Record) (leaves : ℕ → Bool) (left k : ℕ) (items : List Record)
    → Taken arrivals leaves left k items (take_batch arrivals leaves left k items)
unfolding take_batch
take_batch_lem arrivals leaves zero k items =
    ((0, sym (append-nil items)), omega arith, inl (inl refl))
take_batch_lem arrivals leaves (suc left) k items = elim (Bool-cases (leaves k)) [
  | inl e ↦
      subst (Taken arrivals leaves (suc left) k items)
        (sym (take_batch_left arrivals leaves left k items e))
        ((1, ap (λ l. items ++ l) (sym (append-nil (arrivals k)))), omega arith, inr (k, e))
  | inr e ↦ elim (List-cases (items ++ arrivals k)) [
    | inl n ↦
        subst (Taken arrivals leaves (suc left) k items)
          (sym (take_batch_empty arrivals leaves left k items e n))
          (
            (1, sym n ∙ ap (λ l. items ++ l) (sym (append-nil (arrivals k)))),
            omega arith,
            inl (inr refl),
          )
    | inr (r, rest, n) ↦
        let ((more, same), short, full) = take_batch_lem arrivals leaves left (suc k) rest in
        subst (Taken arrivals leaves (suc left) k items)
          (sym (take_batch_more arrivals leaves left k items r rest e n))
          (
            (
              suc more,
              ap (λ l. r ∷ l) same
                  ∙ ap (λ l. l ++ sent_before arrivals (suc k) more) (sym n)
                  ∙ append_assoc items (arrivals k) (sent_before arrivals (suc k) more),
            ),
            omega arith,
            elim full [
              | inl f ↦ inl (elim f [ inl l ↦ inl (ap suc l) | inr w ↦ inr w ])
              | inr d ↦ inr d
            ],
          )
  ]
]
