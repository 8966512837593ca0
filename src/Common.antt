-- ===== src/Common.antt =====
-- PIMProfSolver/Common.h: the control word of an annotation, the sites of a decision, and the
-- letters that stand for them in the output.
pub mod ControlValue
mod Tests
use Prim.Native.String.{String}
use pimprof.Base.{
  ℕ, ◌≡◌, ◌⊎◌, Bool, true, ◌&&◌, List, [], ◌∷◌, Option, get_elem?, get_or, ◌==◌, arith,
}

-- A `BBLID` is an `int64_t`; the identifiers of basic blocks are never negative.
abbrev pub BblId : Type 0
BblId = ℕ

-- A `UUID` is a pair of 64-bit words.
pub record Uuid : Type 0 where
  pub first : ℕ
  pub second : ℕ

unfoldable pub uuid_eq : Uuid → Uuid → Bool
uuid_eq u v = u.first == v.first && u.second == v.second

abbrev pub global_bblhash : Uuid
global_bblhash = record { first = 0; second = 0 }

abbrev pub main_bblhash : Uuid
main_bblhash = record { first = 1; second = 1 }

pub data CostSite : Type 0 where
  cpu pim max_cost_site notpim all follower default invalid : CostSite

-- The value of the enumerator.
unfoldable pub site_code : CostSite → ℕ
site_code cpu = 0
site_code pim = 1
site_code max_cost_site = 2
site_code notpim = 3
site_code all = 4
site_code follower = 5
site_code default = 0x0fffffff
site_code invalid = 0x3fffffff

unfoldable pub site_eq : CostSite → CostSite → Bool
unfolding site_code
site_eq s t = site_code s == site_code t

abbrev pub cost_site_string : List String
cost_site_string = "C" ∷ "P" ∷ "M" ∷ "N" ∷ "A" ∷ "F" ∷ "D" ∷ "I" ∷ []

-- `CostSiteString[site]`; `none` is an access past the end of the array.
unfoldable pub get_cost_site_string : CostSite → Option String
unfolding site_code
get_cost_site_string site = get_elem? cost_site_string (site_code site)

-- A `DECISION`: the site of each basic block.
abbrev pub Decision : Type 0
Decision = List CostSite

-- `decision[i]`. The code indexes only basic blocks that the decision covers.
abbrev pub site_at : Decision → BblId → CostSite
site_at d i = get_or d i invalid

-- A decision of a site that executes code.
abbrev pub IsSite : CostSite → Type 0
IsSite s = (s ≡ cpu) ⊎ (s ≡ pim)

pub site_eq_refl : (s : CostSite) → site_eq s s ≡ true
unfolding site_eq
site_eq_refl s = ground arith

pub site_eq→eq : (s t : CostSite) → site_eq s t ≡ true → s ≡ t
unfolding site_eq
site_eq→eq s t = ground arith
