-- ===== src/Lanes/Invariant.antt =====
-- internal/mempool/lanes.go: each lane holds exactly the hashes that the map of known hashes puts
-- there, and only entries whose score belongs to the lane.
use inso_sequencer.Base.{
  ◌⊎◌, inl, inr, ℕ, ◌+◌, ◌≤◌, ◌<◌, ◌≡◌, refl, sym, ◌∙◌, Bool, true, false, List, ◌∷◌, Option, none,
  some, leb, ◌==◌, if◌then◌else◌, arith, Perm, inl, inr, length, length-perm, contains, put, get,
  get-put, sum_by, sum_by-perm, Returns, returns, Returns-bind, Returns-if,
}
use inso_sequencer.Float.{Float, IsIeee}
use inso_sequencer.Types.{Tx, TxMeta, compute_priority}
use inso_sequencer.Heap.Laws.{push_correct}
use inso_sequencer.Queue.{less, IsNumbered, less-IsWeakOrder, occurs, blank, IsQueue}
use inso_sequencer.Mempool.{Error, new_meta}
use inso_sequencer.Lanes.{
  Lane, fast, standard, slow, LanedMempool, classify_lane, lane_queue, with_queue, total_len, add,
  has,
}

abbrev pub same_lane : Lane → Lane → Bool
same_lane fast fast = true
same_lane standard standard = true
same_lane slow slow = true
same_lane _ _ = false

-- How often a hash with this entry in the map occurs in lane `l`.
abbrev pub in_lane : Lane → Option Lane → ℕ
in_lane l none = 0
in_lane l (some k) = if same_lane l k then 1 else 0

pub other_lane : (k l : Lane) → same_lane l k ≡ false → same_lane k l ≡ false
other_lane fast standard e = refl
other_lane fast slow e = refl
other_lane standard fast e = refl
other_lane standard slow e = refl
other_lane slow fast e = refl
other_lane slow standard e = refl
other_lane fast fast e = cc
other_lane standard standard e = cc
other_lane slow slow e = cc

pub same_lane_refl : (l : Lane) → same_lane l l ≡ true
same_lane_refl fast = refl
same_lane_refl standard = refl
same_lane_refl slow = refl

module _ {W : Type 0} ⦃f : Float W⦄ where
  -- The number of entries whose score belongs to another lane.
  abbrev pub misrouted : Lane → List (TxMeta W) → ℕ
  misrouted l = sum_by λ x. if same_lane l (classify_lane x.taste_score) then 0 else 1

  pub record IsValid (m : LanedMempool W) : Type 0 where
    pub queues : (l : Lane) → IsQueue (lane_queue l m)
    pub known_eq : (l : Lane) (h : ℕ) → occurs h (lane_queue l m) ≡ in_lane l (get h m.known)
    pub routed : (l : Lane) → misrouted l (lane_queue l m) ≡ 0
    pub bounded : total_len m ≤ m.max_size

  -- What holds of the new queue of lane `l`, and of the old queues of the others, holds of each.
  pub by_lane :
      (P : Lane → List (TxMeta W) → Type 0) (k l : Lane) (m : LanedMempool W) (q : List (TxMeta W))
      (known : List (ℕ × Lane))
      → P l q
      → ((k : Lane) → same_lane l k ≡ false → P k (lane_queue k m))
      → P k (lane_queue k (record (with_queue l m q) { known = known }))
  by_lane P fast fast m q known p o = p
  by_lane P fast standard m q known p o = o fast refl
  by_lane P fast slow m q known p o = o fast refl
  by_lane P standard fast m q known p o = o standard refl
  by_lane P standard standard m q known p o = p
  by_lane P standard slow m q known p o = o standard refl
  by_lane P slow fast m q known p o = o slow refl
  by_lane P slow standard m q known p o = o slow refl
  by_lane P slow slow m q known p o = p

  pub with_queue-size :
      (l : Lane) (m : LanedMempool W) (q : List (TxMeta W)) (known : List (ℕ × Lane))
      → (total_len (record (with_queue l m q) { known = known }) + length (lane_queue l m)
          ≡ total_len m + length q)
        × ((with_queue l m q).max_size ≡ m.max_size)
        × ((with_queue l m q).known ≡ m.known)
        × ((with_queue l m q).taste_score_weight ≡ m.taste_score_weight)
  unfolding total_len
  with_queue-size fast m q known = (omega arith, refl, refl, refl)
  with_queue-size standard m q known = (omega arith, refl, refl, refl)
  with_queue-size slow m q known = (omega arith, refl, refl, refl)

  -- A new queue for one lane, with a new map, keeps the pool valid if they agree.
  module _ (m : LanedMempool W) (l : Lane) (q : List (TxMeta W)) (known : List (ℕ × Lane)) where
    abbrev pub moved_to : LanedMempool W
    moved_to = record (with_queue l m q) { known = known }

    pub moved_to-IsValid :
        IsValid m
        → IsQueue q
        → ((h : ℕ) → occurs h q ≡ in_lane l (get h known))
        → ((k : Lane) (h : ℕ)
            → same_lane l k ≡ false
            → in_lane k (get h known) ≡ in_lane k (get h m.known))
        → misrouted l q ≡ 0
        → total_len m + length q ≤ m.max_size + length (lane_queue l m)
        → IsValid moved_to
    moved_to-IsValid v w here others routed fits =
        let size = with_queue-size l m q known in
        record {
          queues = λ k. by_lane (λ _ x. IsQueue x) k l m q known w (λ j _. v.queues j);
          known_eq = λ k.
              by_lane (λ j x. (h : ℕ) → occurs h x ≡ in_lane j (get h known)) k l m q known here
                (λ j n h. v.known_eq j h ∙ sym (others j h n));
          routed = λ k. by_lane (λ j x. misrouted j x ≡ 0) k l m q known routed (λ j _. v.routed j);
          bounded = omega (arith, size.0, size.1);
        }

  -- What `add` returns on each branch; `x` is the new entry.
  pub record Added (m : LanedMempool W) (x : TxMeta W) (r : Option Error × LanedMempool W)
      : Type 0 where
    pub valid : IsValid r.1
    pub branch :
        ((has m x.tx.hash ≡ true) × (r.0 ≡ some Error.already_known) × (r.1 ≡ m))
        ⊎ ((has m x.tx.hash ≡ false)
            × (m.max_size ≤ total_len m)
            × (r.0 ≡ some Error.mempool_full)
            × (r.1 ≡ m))
        ⊎ ((has m x.tx.hash ≡ false)
            × (total_len m < m.max_size)
            × (r.0 ≡ none)
            × (get x.tx.hash r.1.known ≡ some (classify_lane x.taste_score))
            × ((k : Lane) (g : TxMeta W → ℕ)
                → sum_by g (lane_queue k r.1)
                  ≡ sum_by g (lane_queue k m)
                    + (if same_lane (classify_lane x.taste_score) k then g x else 0)))

  -- A queue with one more entry, of a new hash, in the lane of its score.
  pushed-IsValid :
      (m : LanedMempool W) (x : TxMeta W) (q : List (TxMeta W))
      → IsValid m
      → has m x.tx.hash ≡ false
      → total_len m < m.max_size
      → IsQueue q
      → Perm q (x ∷ lane_queue (classify_lane x.taste_score) m)
      → IsValid (
          moved_to m
            (classify_lane x.taste_score)
            q
            (put x.tx.hash (classify_lane x.taste_score) m.known))
  unfolding has
  pushed-IsValid m x q v fresh room w p =
      let l = classify_lane x.taste_score in
      moved_to-IsValid m l q (put x.tx.hash l m.known) v w
        (λ h. ground (
          arith,
          sum_by-perm (λ (y : TxMeta W). if y.tx.hash == h then 1 else 0) p,
          v.known_eq l h,
          get-put x.tx.hash h l m.known,
          same_lane_refl l,
        ))
        (λ k h n. ground (arith, get-put x.tx.hash h l m.known, other_lane k l n))
        (ground (
          arith,
          sum_by-perm (λ (y : TxMeta W). if same_lane l (classify_lane y.taste_score) then 0 else 1)
              p,
          v.routed l,
          same_lane_refl l,
        ))
        (omega (arith, length-perm p, room))

  -- To a valid laned pool, and with a priority that is a number, Add returns a valid pool: the same
  -- one with already_known or mempool_full, or, with no error, one in which, by any measure of the
  -- entries, the lane of the score has this entry more and the other lanes are as they were, and the
  -- map sends the hash to this lane.
  pub add_routes :
      (laws : IsIeee W) (m : LanedMempool W) (tx : Tx) (sender : ℕ) (score : W) (now : ℕ)
      → IsValid m
      → IsNumbered (new_meta m.taste_score_weight tx sender score now)
      → Returns
          (Added m (new_meta m.taste_score_weight tx sender score now))
          (add m tx sender score now)
  unfolding add has new_meta compute_priority
  add_routes laws m tx sender score now v g =
      let l = classify_lane score in
      let x = new_meta m.taste_score_weight tx sender score now in
      Returns-if (contains tx.hash m.known)
        (λ old. returns (record { valid = v; branch = inl (old, refl, refl) }))
        λ fresh.
          Returns-if (leb m.max_size (total_len m))
            (λ full.
              returns (record { valid = v; branch = inr (inl (fresh, ground arith, refl, refl)) }))
            λ room.
              Returns-bind
                (push_correct less IsNumbered blank less-IsWeakOrder (lane_queue l m) _
                  (laws.decimal_number 0 0) g (v.queues l))
                λ q (w, p). returns (record {
                  valid = pushed-IsValid m _ q v fresh (ground arith) w p;
                  branch = inr (
                      inr (
                        fresh,
                        ground arith,
                        refl,
                        ground (arith, get-put tx.hash tx.hash l m.known),
                        λ k g.
                            by_lane
                              (λ j y.
                                sum_by g y
                                ≡ sum_by g (lane_queue j m) + (if same_lane l j then g x else 0))
                              k l m q (put tx.hash l m.known)
                              (ground (arith, sum_by-perm g p, same_lane_refl l))
                              (λ j n. ground arith),
                      ));
                })
