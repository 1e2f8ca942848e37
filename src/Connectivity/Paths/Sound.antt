-- ===== src/Connectivity/Paths/Sound.antt =====
-- `reachablePaths` (web/src/connectivity.ts): what every step of the search keeps. All that is known tells a
-- walk, and a known candidate waits in the queue or has been looked along.
use Prim.Native.Nat.{Ordering}
use mathlib.Core.List.{Memᴰ}
use mc_carto_live.Prelude.{
  suc, String, string_discrete, ◌≡◌, sym, ◌∙◌, subst, ◌⊎◌, inl, inr, some, List, [], ◌∷◌, ◌++◌, All,
  All-mono, arith,
}
use mc_carto_live.Prelude.JsMap.{JsMap, get}
use mc_carto_live.Connectivity.{GraphEdge, ConnectivityGraph, edges_of}
use mc_carto_live.Connectivity.Paths.{
  PathCandidate, Search, start_candidate, start_search, next_candidate, improve, consider,
  consider_all,
}
use mc_carto_live.Connectivity.Paths.Loop.{
  consider_cases, get-improve_same, get-improve_other, Memᴰ-improve, Memᴰ-improve_self, improve-All,
}
use mc_carto_live.Connectivity.Paths.Runs.{consider_all_keeps}
use mc_carto_live.Connectivity.Paths.Reach.{
  IsReached, IsCovered, IsBelow, IsBelow-IsCovered, improve-IsBelow, consider-IsBelow,
  consider_all-IsReached, next_candidate-IsCovered,
}
use mc_carto_live.Connectivity.Walks.{IsTold, start_candidate-IsTold, next_candidate-IsTold}

-- The candidate tells some walk.
abbrev pub TellsWalk : ConnectivityGraph → String → PathCandidate → Type 0
TellsWalk graph source c = (es : List GraphEdge) × IsTold graph source es c

-- All that the candidate's edges lead to is known.
abbrev pub IsDone : ConnectivityGraph → Search → PathCandidate → Type 0
IsDone graph s c =
    All (λ (e : GraphEdge). IsReached s e.to_node_id (suc c.hop_count)) (edges_of graph c.node_id)

-- `pending` are the candidates that may still have to be looked along.
pub record IsSound (graph : ConnectivityGraph) (source : String) (s : Search)
    (pending : List PathCandidate) : Type 0 where
  pub queued : All (TellsWalk graph source) s.queue
  pub known :
      (v : String) (c : PathCandidate)
      → get v s.best ≡ some c
      → (c.node_id ≡ v) × TellsWalk graph source c
  pub covered : All (IsCovered s) s.queue
  pub closed :
      (v : String) (c : PathCandidate) → get v s.best ≡ some c → Memᴰ c pending ⊎ IsDone graph s c
  pub origin : IsReached s source 0

IsBelow-IsDone :
    (graph : ConnectivityGraph) (s s' : Search) (c : PathCandidate)
    → IsBelow s s'
    → IsDone graph s c
    → IsDone graph s' c
IsBelow-IsDone graph s s' c below =
    All-mono (λ e. IsReached s e.to_node_id (suc c.hop_count))
      (λ e. IsReached s' e.to_node_id (suc c.hop_count)) (edges_of graph c.node_id)
      (λ e. below e.to_node_id (suc c.hop_count))

module _ (locale_compare : String → String → Ordering) (graph : ConnectivityGraph)
    (source : String) where
  -- A candidate that tells a walk, covers its path and comes no later than what it replaces may be put in.
  improve-IsSound :
      (current next : PathCandidate) (s : Search)
      → TellsWalk graph source next
      → IsCovered (improve locale_compare next s) next
      → IsBelow s (improve locale_compare next s)
      → IsSound graph source s (current ∷ s.queue)
      → IsSound graph source
          (improve locale_compare next s)
          (current ∷ (improve locale_compare next s).queue)
  improve-IsSound current next s told covered below sound = record {
    queued = improve-All locale_compare (TellsWalk graph source) next s told sound.queued;
    known = λ v c e. elim (string_discrete next.node_id v) [
      | yes p ↦
          let q : next ≡ c = some_inj (sym (get-improve_same locale_compare v next s p) ∙ e) in
          subst (λ x. (x.node_id ≡ v) × TellsWalk graph source x) q (p, told)
      | no p ↦ sound.known v c (sym (get-improve_other locale_compare v next s p) ∙ e)
    ];
    covered = improve-All locale_compare (IsCovered s') next s covered (
        All-mono (IsCovered s) (IsCovered s') s.queue (λ c. IsBelow-IsCovered s s' c below)
          sound.covered);
    closed = λ v c e. elim (string_discrete next.node_id v) [
      | yes p ↦
          let q : next ≡ c = some_inj (sym (get-improve_same locale_compare v next s p) ∙ e) in
          inl (Memᴰ.tail (subst (λ x. Memᴰ x s'.queue) q (Memᴰ-improve_self locale_compare next s)))
      | no p ↦ still c (sound.closed v c (sym (get-improve_other locale_compare v next s p) ∙ e))
    ];
    origin = below source 0 sound.origin;
  }
    where
      s' : Search
      s' = improve locale_compare next s

      some_inj : {a b : PathCandidate} → some a ≡ some b → a ≡ b
      some_inj e = cc

      still :
          (c : PathCandidate)
          → Memᴰ c (current ∷ s.queue) ⊎ IsDone graph s c
          → Memᴰ c (current ∷ s'.queue) ⊎ IsDone graph s' c
      still c (inl (Memᴰ.head p)) = inl (Memᴰ.head p)
      still c (inl (Memᴰ.tail t)) = inl (Memᴰ.tail (Memᴰ-improve locale_compare c next s t))
      still c (inr d) = inr (IsBelow-IsDone graph s s' c below d)

  -- One edge.
  consider-IsSound :
      (current : PathCandidate) (edge : GraphEdge) (s : Search)
      → TellsWalk graph source current
      → Memᴰ edge (edges_of graph current.node_id)
      → IsCovered s current
      → IsSound graph source s (current ∷ s.queue)
      → IsSound graph source
          (consider locale_compare graph current edge s)
          (current ∷ (consider locale_compare graph current edge s).queue)
  unfolding next_candidate
  consider-IsSound current edge s (es, told) m covered sound =
      consider_cases locale_compare graph current edge s
        (λ s'. IsSound graph source s' (current ∷ s'.queue)) (λ h. sound) (λ d e h. sound)
        (λ h better.
          let below =
            improve-IsBelow locale_compare graph (next_candidate graph current edge) s better in
          improve-IsSound current (next_candidate graph current edge) s
            (es ++ edge ∷ [], next_candidate-IsTold graph source es current edge told m h)
            (next_candidate-IsCovered locale_compare graph current edge s below covered) below
            sound)

  -- One round: the candidate that was looked along is no longer pending.
  pub round-IsSound :
      (current : PathCandidate) (rest : List PathCandidate) (best : JsMap PathCandidate)
      → IsSound graph source (record { best = best; queue = current ∷ rest }) (current ∷ rest)
      → IsSound graph source
          (consider_all locale_compare graph current
            (edges_of graph current.node_id)
            (record { best = best; queue = rest }))
          (consider_all locale_compare graph current
            (edges_of graph current.node_id)
            (record { best = best; queue = rest })).queue
  round-IsSound current rest best sound =
      let at_end =
        consider_all_keeps locale_compare graph current
          (λ s. IsCovered s current × IsSound graph source s (current ∷ s.queue)) edges
          (λ e m s h. (
            IsBelow-IsCovered s (consider locale_compare graph current e s) current
                (consider-IsBelow locale_compare graph current e s) h.0,
            consider-IsSound current e s sound.queued.0 m h.0 h.1,
          ))
          start (sound.covered.0, first) in
      let done = consider_all-IsReached locale_compare graph current edges start sound.covered.0 in
      record {
        queued = at_end.1.queued;
        known = at_end.1.known;
        covered = at_end.1.covered;
        closed = λ v c e. looked_along c done (at_end.1.closed v c e);
        origin = at_end.1.origin;
      }
    where
      edges : List GraphEdge
      edges = edges_of graph current.node_id

      start : Search
      start = record { best = best; queue = rest }

      after : Search
      after = consider_all locale_compare graph current edges start

      first : IsSound graph source start (current ∷ rest)
      first = record {
        queued = sound.queued.1;
        known = sound.known;
        covered = sound.covered.1;
        closed = sound.closed;
        origin = sound.origin;
      }

      looked_along :
          (c : PathCandidate)
          → IsDone graph after current
          → Memᴰ c (current ∷ after.queue) ⊎ IsDone graph after c
          → Memᴰ c after.queue ⊎ IsDone graph after c
      looked_along c done (inl (Memᴰ.head p)) = inr (subst (IsDone graph after) (sym p) done)
      looked_along c done (inl (Memᴰ.tail t)) = inl t
      looked_along c done (inr d) = inr d

module _ (graph : ConnectivityGraph) (source : String) where
  -- At the start only the source is known, and it waits.
  pub start_search-IsSound :
      IsSound graph source (start_search source) ((start_search source).queue)
  unfolding get
  start_search-IsSound = record {
    queued = (([], start_candidate-IsTold graph source), tt);
    known = λ v c e. elim (string_discrete source v) [
      | yes p ↦
          let q : start_candidate source ≡ c = ground arith in
          subst (λ x. (x.node_id ≡ v) × TellsWalk graph source x) q
            (p, ([], start_candidate-IsTold graph source))
      | no p ↦ absurd (ground arith)
    ];
    covered = (((start_candidate source, ground arith, omega arith), tt), tt);
    closed = λ v c e. inl (Memᴰ.head (ground arith));
    origin = (start_candidate source, ground arith, omega arith);
  }
