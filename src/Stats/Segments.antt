-- ===== src/Stats/Segments.antt =====
-- The data-reuse trie of a thread keeps the shape that the cost model relies on.
use pimprof.Base.{Double, All}
use pimprof.DataReuse.Segment.{Segment}
use pimprof.DataReuse.Trie.Shape.{IsTrie, IsSegment}
use pimprof.Stats.{ThreadStats}

module _ {ℓ} {C : Type ℓ} ⦃d : Double C⦄ where
  -- The trie has its shape, and so have the segments of all tags.
  pub record TracksReuse (t : ThreadStats C) : Type ℓ where
    pub trie : IsTrie t.root
    pub segments : All (λ e. IsSegment e.1) t.tag2seg
