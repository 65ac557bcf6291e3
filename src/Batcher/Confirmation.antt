-- ===== src/Batcher/Confirmation.antt =====
-- internal/batcher/batcher.go: what a check of the confirmations makes of the pending batches.
use inso_sequencer.Base.{
  ℕ, ◌≡◌, ◌≢◌, refl, Bool, true, false, List, [], ◌∷◌, Option, none, some, sum_by, arith,
  if◌then◌else◌,
}
use inso_sequencer.Types.{Batch, confirmed}
use inso_sequencer.Batcher.{L1Client, World, sort_out, confirm_each, check_confirmations}

abbrev pub AllConfirmed : List Batch → Type 0
AllConfirmed [] = Unit {0}
AllConfirmed (b ∷ bs) = (b.status ≡ confirmed) × AllConfirmed bs

abbrev pub AllUnconfirmed : (ℕ → Option Bool) → List (ℕ × Batch) → Type 0
AllUnconfirmed answer [] = Unit {0}
AllUnconfirmed answer ((h, b) ∷ ps) = (answer h ≢ some true) × AllUnconfirmed answer ps

-- The client confirmed it: an error and a `false` do not.
abbrev pub says_yes : Option Bool → Bool
says_yes (some true) = true
says_yes (some false) = false
says_yes none = false

module _ {L : Type 0} (client : L1Client L) where
  -- `left` and `done` are what a check makes of the pending batches.
  pub record IsSorted (l : L) (ps left : List (ℕ × Batch)) (done : List Batch) : Type 0 where
    pub kept :
        (g : ℕ → Batch → ℕ)
        → sum_by (λ (h, b). g h b) left
          ≡ sum_by (λ (h, b). if says_yes (client.is_confirmed l h 6) then 0 else g h b) ps
    pub taken :
        (g : Batch → ℕ)
        → sum_by g done
          ≡ sum_by
              (λ (h, b).
                if says_yes (client.is_confirmed l h 6)
                then g (record b { status = confirmed })
                else 0)
              ps
    pub all_confirmed : AllConfirmed done
    pub all_left : AllUnconfirmed (λ h. client.is_confirmed l h 6) left

  sort_out-IsSorted :
      (l : L) (h : ℕ) (b : Batch) (ps left : List (ℕ × Batch)) (done : List Batch) (a : Option Bool)
      → client.is_confirmed l h 6 ≡ a
      → IsSorted l ps left done
      → IsSorted l
          ((h, b) ∷ ps)
          (sort_out client h b a (left, done)).0
          (sort_out client h b a (left, done)).1
  unfolding sort_out
  sort_out-IsSorted l h b ps left done (some true) e v = record {
    kept = λ g. ground (arith, e, v.kept g);
    taken = λ g. ground (arith, e, v.taken g);
    all_confirmed = (refl, v.all_confirmed);
    all_left = v.all_left;
  }
  sort_out-IsSorted l h b ps left done (some false) e v = record {
    kept = λ g. ground (arith, e, v.kept g);
    taken = λ g. ground (arith, e, v.taken g);
    all_confirmed = v.all_confirmed;
    all_left = (λ t. cc, v.all_left);
  }
  sort_out-IsSorted l h b ps left done none e v = record {
    kept = λ g. ground (arith, e, v.kept g);
    taken = λ g. ground (arith, e, v.taken g);
    all_confirmed = v.all_confirmed;
    all_left = (λ t. cc, v.all_left);
  }

  confirm_each-IsSorted :
      (l : L) (ps : List (ℕ × Batch))
      → IsSorted l ps (confirm_each client l ps).0 (confirm_each client l ps).1
  unfolding confirm_each
  confirm_each-IsSorted l [] = record {
    kept = λ g. refl;
    taken = λ g. refl;
    all_confirmed = tt;
    all_left = tt;
  }
  confirm_each-IsSorted l ((h, b) ∷ ps) =
      sort_out-IsSorted l h b ps (confirm_each client l ps).0 (confirm_each client l ps).1
        (client.is_confirmed l h 6) refl (confirm_each-IsSorted l ps)

  -- A check of the confirmations leaves pending exactly the batches that the client does not confirm,
  -- with an error or a `false`, as they were and as often, by any measure; exactly those that it confirms
  -- are done, with that status; the state manager and the count of batches stay as they were.
  pub check_confirmations-IsSorted :
      {D : Type 0} (w : World D L)
      → IsSorted w.l1 w.batcher.pending_batches
          (check_confirmations client w).1.batcher.pending_batches
          (check_confirmations client w).0
        × ((check_confirmations client w).1.manager ≡ w.manager)
        × ((check_confirmations client w).1.batcher.batch_index ≡ w.batcher.batch_index)
        × ((check_confirmations client w).1.batcher.last_batch_block ≡ w.batcher.last_batch_block)
  unfolding check_confirmations
  check_confirmations-IsSorted w =
      (confirm_each-IsSorted w.l1 w.batcher.pending_batches, refl, refl, refl)
