-- ===== src/Injection/Vtune.antt =====
-- LLVMAnalysis/PIMProfAnnotation.cpp: what the calls that `vtune_call` stands for tell VTune. The
-- functions of the ITT library are not called but returned, as events.
pub mod Squash
mod Tests
use pimprof.Base.{
  ℕ, ◌-◌, Bool, ◌&&◌, List, [], ◌∷◌, ◌++◌, Option, none, some, ◌==◌, if◌then◌else◌, u64_mod,
}
use pimprof.Common.{Uuid, uuid_eq}
use pimprof.Injection.{vtune_resume, vtune_detach, vtune_frame_begin, vtune_frame_end}

abbrev pub vtune_pause : ℕ
vtune_pause = 2

-- `-1` as an `int`
abbrev pub no_mode : ℕ
no_mode = 4_294_967_295

-- The arguments of a call. A mode is a 32-bit word, the others are 64-bit words.
pub record Annotation : Type 0 where
  pub mode : ℕ
  pub uuid_hi : ℕ
  pub uuid_lo : ℕ

unfoldable pub annotation_eq : Annotation → Annotation → Bool
annotation_eq c x = c.mode == x.mode && (c.uuid_hi == x.uuid_hi && c.uuid_lo == x.uuid_lo)

-- The calls of the library; a domain is what `__itt_domain_create` returns.
pub data Itt {ℓ} (D : Type ℓ) : Type ℓ where
  frame_begin : (domain : D) → Itt D
  frame_end : (domain : D) → Itt D
  resume pause detach : Itt D

-- The variables of the file, with the domains whose `flags` the code has set.
pub record Domains {ℓ} (D : Type ℓ) : Type ℓ where
  pub prev : Annotation
  pub domains : List (Uuid × D)
  pub flagged : List D

abbrev pub bblhash : Annotation → Uuid
bblhash c = record { first = c.uuid_hi; second = c.uuid_lo }

module _ {ℓ} {D : Type ℓ} where
  abbrev pub start : Domains D
  start = record {
    prev = record { mode = no_mode; uuid_hi = u64_mod - 1; uuid_lo = u64_mod - 1 };
    domains = [];
    flagged = [];
  }

  unfoldable pub find_domain : Uuid → List (Uuid × D) → Option D
  unfolding uuid_eq
  find_domain u [] = none
  find_domain u ((v, x) ∷ rest) = if uuid_eq v u then some x else find_domain u rest

-- `create` is `__itt_domain_create` on the name that is made of a hash.
module _ {ℓ} {D : Type ℓ} (create : Uuid → D) where
  unfoldable pub begin_frame : Annotation → Domains D → List (Itt D) × Domains D
  unfolding find_domain
  begin_frame c s = elim (find_domain (bblhash c) s.domains) [
    | some x ↦ (frame_begin x ∷ [], record s { prev = c })
    | none ↦
        let x = create (bblhash c) in
        (
          frame_begin x ∷ [],
          record { prev = c; domains = (bblhash c, x) ∷ s.domains; flagged = x ∷ s.flagged },
        )
  ]

  unfoldable pub end_frame : Annotation → Domains D → List (Itt D) × Domains D
  unfolding find_domain
  end_frame c s = elim (find_domain (bblhash c) s.domains) [
    | some x ↦ (frame_end x ∷ [], record s { prev = c })
    | none ↦
        let x = create (bblhash c) in
        (frame_end x ∷ [], record s { prev = c; domains = (bblhash c, x) ∷ s.domains })
  ]

  -- `PIMProfVTuneAnnotation`
  unfoldable pub vtune_annotation : Annotation → Domains D → List (Itt D) × Domains D
  unfolding annotation_eq begin_frame end_frame
  vtune_annotation c s =
      if annotation_eq s.prev c
      then ([], s)
      else if c.mode == vtune_frame_begin
      then begin_frame c s
      else if c.mode == vtune_frame_end
      then end_frame c s
      else if c.mode == vtune_resume
      then (resume ∷ [], record s { prev = c })
      else if c.mode == vtune_pause
      then (pause ∷ [], record s { prev = c })
      else if c.mode == vtune_detach
      then (detach ∷ [], record s { prev = c })
      else ([], s)

  -- The events of a sequence of calls.
  unfoldable pub run_vtune : List Annotation → Domains D → List (Itt D) × Domains D
  unfolding vtune_annotation
  run_vtune [] s = ([], s)
  run_vtune (c ∷ cs) s =
      let now = vtune_annotation c s in
      let later = run_vtune cs now.1 in (now.0 ++ later.0, later.1)
