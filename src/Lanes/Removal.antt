-- ===== src/Lanes/Removal.antt =====
-- internal/mempool/lanes.go: Remove, which takes a hash out of the lane that the map names.
use inso_sequencer.Base.{
  ℕ, ◌≤◌, ◌≡◌, refl, ◌∙◌, inl, inr, false, List, Option, none, some, ◌==◌, if◌then◌else◌, arith,
  Bool-cases, Option-cases, delete, get, get-delete, sum_by-perm, Returns, returns, Returns-bind,
}
use inso_sequencer.Float.{Float, IsIeee}
use inso_sequencer.Types.{TxMeta}
use inso_sequencer.Queue.{occurs, IsQueue}
use inso_sequencer.Mempool.Removal.{Without, remove_hash_correct, occurs-Without}
use inso_sequencer.Lanes.{Lane, LanedMempool, classify_lane, lane_queue, has, remove}
use inso_sequencer.Lanes.Invariant.{
  same_lane, in_lane, other_lane, misrouted, IsValid, by_lane, moved_to, moved_to-IsValid,
}

in_lane-le_one : (l : Lane) (o : Option Lane) → in_lane l o ≤ 1
in_lane-le_one l none = omega arith
in_lane-le_one l (some k) = ground arith

module _ {W : Type 0} ⦃f : Float W⦄ where
  misrouted-Without :
      (l : Lane) (h : ℕ) (q r : List (TxMeta W))
      → Without h q r
      → misrouted l q ≡ 0
      → misrouted l r ≡ 0
  misrouted-Without l h q r (inl (e, same)) z = rw same z
  misrouted-Without l h q r (inr (x, e, p)) z =
      let moved =
        sum_by-perm (λ (y : TxMeta W). if same_lane l (classify_lane y.taste_score) then 0 else 1)
          p in
      omega (arith, moved, z)

  -- In a lane that the map does not name for it, a hash does not occur.
  elsewhere :
      (m : LanedMempool W) (h j : ℕ) (l : Lane)
      → IsValid m
      → in_lane l (get h m.known) ≡ 0
      → occurs j (lane_queue l m) ≡ (if h == j then 0 else occurs j (lane_queue l m))
  elsewhere m h j l v z = elim (Bool-cases (h == j)) [
    | inl e ↦ let same : j ≡ h = ground (arith, e) in rw (e, same) (v.known_eq l h ∙ z)
    | inr e ↦ rw e refl
  ]

  module _ (laws : IsIeee W) (m : LanedMempool W) (h : ℕ) (v : IsValid m) where
    -- What Remove promises of the pool after it.
    pub record IsRemoved (r : LanedMempool W) : Type 0 where
      pub valid : IsValid r
      pub unknown : has r h ≡ false
      pub entries :
          (l : Lane) (j : ℕ)
          → occurs j (lane_queue l r) ≡ (if h == j then 0 else occurs j (lane_queue l m))

    taken_out :
        (lane : Lane) (q : List (TxMeta W))
        → get h m.known ≡ some lane
        → IsQueue q
        → Without h (lane_queue lane m) q
        → IsRemoved (moved_to m lane q (delete h m.known))
    unfolding has
    taken_out lane q e w t =
        let known = delete h m.known in
        let once = λ (k : ℕ).
          occurs-Without laws h k (lane_queue lane m) q
            (λ i. omega (arith, v.known_eq lane i, in_lane-le_one lane (get i m.known))) t in
        let other = λ (k : Lane) (n : same_lane lane k ≡ false).
          let z : in_lane k (get h m.known) ≡ 0 = rw (e, other_lane k lane n) refl in z in
        record {
          valid =
              moved_to-IsValid m lane q known v w
                (λ j. ground (arith, once j, v.known_eq lane j, get-delete h j m.known))
                (λ k j n. ground (arith, other k n, get-delete h j m.known))
                (misrouted-Without lane h (lane_queue lane m) q t (v.routed lane))
                (omega (arith, once 0, v.bounded));
          unknown = ground (arith, get-delete h h m.known);
          entries = λ l j.
              by_lane (λ k x. occurs j x ≡ (if h == j then 0 else occurs j (lane_queue k m))) l lane
                m q known (once j).0 (λ k n. elsewhere m h j k v (other k n));
        }

    -- From a valid pool, Remove returns a valid pool that does not know the hash, and that has in each
    -- lane no entry of it and as many entries of every other hash as before.
    pub remove-IsRemoved : Returns IsRemoved (remove m h)
    unfolding remove has
    remove-IsRemoved = elim (Option-cases (get h m.known)) [
      | inl e ↦
          rw (e, remove)
            (returns (record {
              valid = v;
              unknown = ground (arith, e);
              entries = λ l j. elsewhere m h j l v (rw e refl);
            }))
      | inr (lane, e) ↦
          rw (e, remove)
            (Returns-bind (remove_hash_correct laws h (lane_queue lane m) (v.queues lane))
              λ q (w, t). returns (taken_out lane q e w t))
    ]
