-- ===== src/Rpc/Matching.antt =====
-- internal/rpc/handler.go: matchLog, and what it means for a log to match.
use mathlib.Core.List.{Mem, mem-cons, mem-cons_self, mem-cons_of_mem, not-mem-nil}
use mathlib.Core.Logic.Or
use mathlib.Core.Bool.{Bool-set}
use inso_sequencer.Base.{
  ℕ, zero, suc, ◌+◌, ◌<◌, ◌≡◌, refl, inl, inr, Bool, true, false, List, [], ◌∷◌, Option, none, some,
  ◌==◌, if◌then◌else◌, get_elem?, length, arith, Bool-cases,
}
use inso_sequencer.Rpc.{Log, one_of, topic_at, match_topics, match_address, match_log}

one_of-Mem : (f : List ℕ) (t : ℕ) → one_of f t ≡ true → Mem t f
unfolding one_of
one_of-Mem [] t e = absurd (ground arith)
one_of-Mem (x ∷ f) t e = elim (Bool-cases (t == x)) [
  | inl same ↦ let p : t ≡ x = ground arith in rw p mem-cons_self
  | inr other ↦ mem-cons_of_mem x (one_of-Mem f t (ground (arith, e, other)))
]

Mem-one_of : (f : List ℕ) (t : ℕ) → Mem t f → one_of f t ≡ true
unfolding one_of
Mem-one_of [] t m = absurd (not-mem-nil m)
Mem-one_of (x ∷ f) t m =
    Or.elim (Bool-set _ _) (mem-cons.0 m) (λ same. rw same (ground arith))
      (λ n. ground (arith, Mem-one_of f t n))

-- The topic is there and is one of the filter.
abbrev pub Allowed : Option ℕ → List ℕ → Type 0
Allowed o f = (t : ℕ) × (o ≡ some t) × Mem t f

topic_at-Allowed : (o : Option ℕ) (f : List ℕ) → topic_at o f ≡ true → Allowed o f
unfolding topic_at
topic_at-Allowed none f e = absurd (ground arith)
topic_at-Allowed (some t) f e = (t, refl, one_of-Mem f t e)

Allowed-topic_at : (o : Option ℕ) (f : List ℕ) → Allowed o f → topic_at o f ≡ true
unfolding topic_at
Allowed-topic_at o f (t, e, m) = rw (e, topic_at) (Mem-one_of f t m)

-- What a true test says of its parts.
both_parts :
    (empty allowed rest : Bool)
    → (if empty then rest else if allowed then rest else false) ≡ true
    → (rest ≡ true) × (empty ≡ false → allowed ≡ true)
both_parts empty allowed rest e = (ground (arith, e), λ n. ground (arith, e, n))

match_topics-Allowed :
    (topics : List ℕ) (i : ℕ) (fs : List (List ℕ))
    → match_topics topics i fs ≡ true
    → (j : ℕ) (f : List ℕ) → get_elem? fs j ≡ some f
    → 0 < length f
    → Allowed (get_elem? topics (i + j)) f
unfolding match_topics
match_topics-Allowed topics i [] e j f at n = absurd (ground arith)
match_topics-Allowed topics i (g ∷ fs) e zero f at n =
    let p : g ≡ f = cc in
    let parts = both_parts (length g == 0) (topic_at (get_elem? topics i) g) _ e in
    let z : i + 0 ≡ i = omega arith in
    rw (z, ← p) (topic_at-Allowed (get_elem? topics i) g (parts.1 (rw p (ground (arith, n)))))
match_topics-Allowed topics i (g ∷ fs) e (suc j) f at n =
    let parts = both_parts (length g == 0) (topic_at (get_elem? topics i) g) _ e in
    let z : i + suc j ≡ suc i + j = omega arith in
    rw z (match_topics-Allowed topics (suc i) fs parts.0 j f at n)

Allowed-match_topics :
    (topics : List ℕ) (i : ℕ) (fs : List (List ℕ))
    → ((j : ℕ) (f : List ℕ)
        → get_elem? fs j ≡ some f
        → 0 < length f
        → Allowed (get_elem? topics (i + j)) f)
    → match_topics topics i fs ≡ true
unfolding match_topics
Allowed-match_topics topics i [] all = refl
Allowed-match_topics topics i (g ∷ fs) all =
    let rest =
      Allowed-match_topics topics (suc i) fs
        λ j f at n. let z : i + suc j ≡ suc i + j = omega arith in rw z at (all (suc j) f at n) in
    elim (Bool-cases (length g == 0)) [
      | inl empty ↦ rw (empty, rest) refl
      | inr full ↦
          let z : i + 0 ≡ i = omega arith in
          let here =
            Allowed-topic_at (get_elem? topics i) g
              (rw z at (all zero g refl (ground (arith, full)))) in
          rw (full, here, rest) refl
    ]

-- The log has the address, if one is asked for, and at each place of a filter that is not empty it
-- has a topic of this filter.
pub record IsMatch (l : Log) (addr : Option ℕ) (filters : List (List ℕ)) : Type 0 where
  pub address_eq : (a : ℕ) → addr ≡ some a → l.address ≡ a
  pub topics_allowed :
      (j : ℕ) (f : List ℕ)
      → get_elem? filters j ≡ some f
      → 0 < length f
      → Allowed (get_elem? l.topics j) f

all_match :
    (l : Log) (addr : Option ℕ) (filters : List (List ℕ))
    → IsMatch l addr filters
    → match_topics l.topics 0 filters ≡ true
all_match l addr filters v =
    Allowed-match_topics l.topics 0 filters
      λ j f at n. let z : 0 + j ≡ j = omega arith in rw z (v.topics_allowed j f at n)

-- matchLog answers true just for the logs that have the address that is asked for, if any, and at
-- each place of a topic filter that is not empty a topic of this filter.
pub match_log-IsMatch :
    (l : Log) (addr : Option ℕ) (filters : List (List ℕ))
    → (match_log l addr filters ≡ true → IsMatch l addr filters)
      × (IsMatch l addr filters → match_log l addr filters ≡ true)
unfolding match_log match_address
match_log-IsMatch l none filters = (
  λ e. record {
    address_eq = λ a same. absurd (ground (arith, same));
    topics_allowed = λ j f at n.
        let z : 0 + j ≡ j = omega arith in
        rw z at (match_topics-Allowed l.topics 0 filters e j f at n);
  },
  λ v. all_match l none filters v,
)
match_log-IsMatch l (some b) filters = (
  λ e. record {
    address_eq = λ a same. let p : b ≡ a = cc in ground (arith, p, e);
    topics_allowed = λ j f at n.
        let z : 0 + j ≡ j = omega arith in
        rw z at (match_topics-Allowed l.topics 0 filters (ground (arith, e)) j f at n);
  },
  λ v.
      let p = v.address_eq b refl in let q = all_match l (some b) filters v in ground (arith, p, q),
)
