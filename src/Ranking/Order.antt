-- ===== src/Ranking/Order.antt =====
-- The order of the answer, which the order of a hash map does not change, and what is in it.
use nomai.Base.{
  ℕ, ◌≤◌, ◌≡◌, ◌≢◌, refl, sym, ap, ◌∙◌, Bool, true, false, not, Option, some, List, [], arith, map,
  length, take, filter, filter-map, filter-take, sort_by, All, All-map, All-of-map, All-take,
  IsKeyed, map-IsKeyed, take-IsKeyed, Rearranged, Rearranged-All, Rearranged-IsKeyed,
  Rearranged-filter, Rearranged-map, Rearranged-sym, Rearranged-sort_by, after, sort_by-Rearranged,
  IsOrdered, sort_by-IsOrdered, take-IsOrdered, length-take, length-map,
}
use nomai.Core.{Deps, Json}
use nomai.Ranking.{
  Floats, AffinityHit, EntryMemorySignal, RankedCandidate, Learned, affinity_by_entry,
  score_candidate, goes_before, id_key, collect, ranking, rank_candidates,
}
use nomai.Ranking.Items.{in_base, IsAllowed, IsCollected, score_candidate-item, collect-IsCollected}

module _ (d : Deps) (f : Floats d) where
  goes_before_trans :
      (x y z : RankedCandidate d f)
      → goes_before d f x y ≡ true
      → goes_before d f y z ≡ true
      → goes_before d f x z ≡ true
  unfolding goes_before
  goes_before_trans x y z h k = ground (arith, h, k)

  goes_before_asym :
      (x y : RankedCandidate d f) → goes_before d f x y ≡ true → goes_before d f y x ≡ false
  unfolding goes_before
  goes_before_asym x y h = ground (arith, h)

  goes_before_total :
      (x y : RankedCandidate d f)
      → id_key d f x ≢ id_key d f y
      → goes_before d f x y ≡ false
      → goes_before d f y x ≡ true
  unfolding goes_before
  goes_before_total x y n h = ground (arith, n, h)

  goes_before_late :
      (x y z : RankedCandidate d f)
      → goes_before d f y x ≡ false
      → goes_before d f z y ≡ false
      → goes_before d f z x ≡ false
  unfolding goes_before
  goes_before_late x y z h k = ground (arith, h, k)

  score_candidate-id :
      (l : Learned d f) (c : RankedCandidate d f) → (score_candidate d f l c).entry_id ≡ c.entry_id
  unfolding score_candidate
  score_candidate-id l c = refl

  -- The order in which the hash map gives its values does not change the answer: the scores, the fused
  -- scores behind them and the ids behind these leave no tie.
  pub rank_candidates-shuffle :
      (shuffle other : List (RankedCandidate d f) → List (RankedCandidate d f))
      (base supplemental : List (Json d)) (hits : List (AffinityHit d f))
      (signals : d.Ulid → Option (EntryMemorySignal d f)) (transient : d.Ulid → Bool)
      (limit supplement_limit : ℕ)
      → ((cs : List (RankedCandidate d f)) → Rearranged cs (shuffle cs))
      → ((cs : List (RankedCandidate d f)) → Rearranged cs (other cs))
      → rank_candidates d f shuffle base supplemental hits signals transient limit supplement_limit
        ≡ rank_candidates d f other base supplemental hits signals transient limit supplement_limit
  unfolding rank_candidates ranking
  rank_candidates-shuffle shuffle other base supplemental hits signals transient limit
        supplement_limit r s =
      ap (λ cs. map (λ c. c.item) (take limit cs))
        (Rearranged-sort_by (goes_before d f) (id_key d f) goes_before_trans goes_before_asym
          goes_before_total (Rearranged-map (score_candidate d f l) same)
          (map-IsKeyed (id_key d f) (score_candidate d f l) (shuffle cs)
            (λ c. ap d.number (score_candidate-id l c)) keyed))
    where
      l : Learned d f
      l = record {
        affinities = affinity_by_entry d f [] hits;
        signals = signals;
        transient = transient;
      }

      cs : List (RankedCandidate d f)
      cs = collect d f base supplemental (affinity_by_entry d f [] hits) supplement_limit

      same : Rearranged (shuffle cs) (other cs)
      same = after (Rearranged-sym (r cs)) (s cs)

      keyed : IsKeyed (id_key d f) (shuffle cs)
      keyed =
          Rearranged-IsKeyed (id_key d f) (r cs)
            (collect-IsCollected d f base (affinity_by_entry d f [] hits) supplemental
              supplement_limit).keyed

  -- What is true of an answer: it has at most `limit` candidates, in their order, of distinct entries; each
  -- is one of the base or has an affinity, and at most `supplement_limit` are none of the base.
  pub record IsAnswer (base : List (Json d)) (table : List (AffinityHit d f))
      (limit supplement_limit : ℕ) (cs : List (RankedCandidate d f)) : Type 0 where
    pub few : length cs ≤ limit
    pub ordered : IsOrdered (goes_before d f) cs
    pub keyed : IsKeyed (id_key d f) cs
    pub allowed : All (IsAllowed d f base table) cs
    pub others : length (filter (λ c. not (in_base d f base table c)) cs) ≤ supplement_limit

  -- Whatever the order of the hash map, an answer has at most `limit` candidates of distinct entries, by
  -- score, fused score and id, each with an item of its entry; each entry is one of the base or has an
  -- affinity, and at most `supplement_limit` are none of the base.
  pub ranking-IsAnswer :
      (shuffle : List (RankedCandidate d f) → List (RankedCandidate d f))
      (base supplemental : List (Json d)) (l : Learned d f) (limit supplement_limit : ℕ)
      → ((cs : List (RankedCandidate d f)) → Rearranged cs (shuffle cs))
      → IsAnswer base l.affinities limit supplement_limit
          (ranking d f shuffle base supplemental l limit supplement_limit)
  unfolding ranking
  ranking-IsAnswer shuffle base supplemental l limit supplement_limit r = record {
    few = let n = length-take limit sorted in omega (arith, n);
    ordered =
        take-IsOrdered (goes_before d f) limit sorted
          (sort_by-IsOrdered (goes_before d f) goes_before_asym goes_before_late scored);
    keyed = take-IsKeyed (id_key d f) limit sorted (
        Rearranged-IsKeyed (id_key d f) moved (
          map-IsKeyed (id_key d f) (score_candidate d f l) (shuffle cs)
            (λ c. ap d.number (score_candidate-id l c))
            (Rearranged-IsKeyed (id_key d f) (r cs) v.keyed)));
    allowed = All-take (IsAllowed d f base l.affinities) limit sorted (
        Rearranged-All (IsAllowed d f base l.affinities) moved (
          All-of-map (score_candidate d f l) (IsAllowed d f base l.affinities) (shuffle cs) (
            All-map _ _ (λ c h. scored_allowed c h) (shuffle cs)
              (Rearranged-All (IsAllowed d f base l.affinities) (r cs) v.allowed))));
    others =
        let cut = filter-take extra limit sorted in
        let order = Rearranged-filter extra moved in
        let scores =
          ap length (filter-map extra (score_candidate d f l) (shuffle cs) (λ c. extra_scored c))
          ∙ length-map (score_candidate d f l) (filter extra (shuffle cs)) in
        let shuffled = Rearranged-filter extra (r cs) in
        let o = v.others in omega (arith, cut, order, scores, shuffled, o);
  }
    where
      extra : RankedCandidate d f → Bool
      extra c = not (in_base d f base l.affinities c)

      extra_scored : (c : RankedCandidate d f) → extra (score_candidate d f l c) ≡ extra c
      extra_scored c = unfold score_candidate in refl

      cs : List (RankedCandidate d f)
      cs = collect d f base supplemental l.affinities supplement_limit

      v : IsCollected d f base l.affinities supplement_limit cs
      v = collect-IsCollected d f base l.affinities supplemental supplement_limit

      scored : List (RankedCandidate d f)
      scored = map (score_candidate d f l) (shuffle cs)

      sorted : List (RankedCandidate d f)
      sorted = sort_by (goes_before d f) scored

      moved : Rearranged scored sorted
      moved = sort_by-Rearranged (goes_before d f) scored

      scored_allowed :
          (c : RankedCandidate d f)
          → IsAllowed d f base l.affinities c
          → IsAllowed d f base l.affinities (score_candidate d f l c)
      scored_allowed c h = (
        score_candidate-item d f l c ∙ h.0 ∙ ap some (sym (score_candidate-id l c)),
        unfold score_candidate in h.1,
      )
