-- ===== src/Main/TipOrder.antt =====
-- The order that src/types.rs derives for chain tips, and the sorting of a list of tips (src/main.rs).
use Prim.Native.Char.{code}
use Prim.Native.String.{String}
use text.Mathlib.Text.{◌==◌ as str_eq}
use reorg_playground.Prelude.{
  ℕ, ◌==◌, ltb, leb, Bool, true, false, ◌&&◌, List, [], ◌∷◌, if◌then◌else◌,
}
use reorg_playground.Types.Tips.{
  ChainTip, ChainTipStatus, active, invalid, valid_fork, headers_only, valid_headers, unknown,
}

-- The place of a status in the declaration
pub status_rank : ChainTipStatus → ℕ
status_rank active = 0
status_rank invalid = 1
status_rank valid_fork = 2
status_rank headers_only = 3
status_rank valid_headers = 4
status_rank unknown = 5

-- The order of the bytes is that of the code points.
pub text_leb : String → String → Bool
text_leb String.[] t = true
text_leb (String.◌∷◌ c s) String.[] = false
text_leb (String.◌∷◌ c s) (String.◌∷◌ d t) =
    let rest = text_leb s t in
    if ltb (code c) (code d) then true else if code c == code d then rest else false

-- `a <= b`: the fields in their order
pub tip_leb : ChainTip → ChainTip → Bool
tip_leb a b =
    if ltb a.height b.height
    then true
    else if ltb b.height a.height
    then false
    else if str_eq a.hash b.hash
    then if ltb a.branchlen b.branchlen
      then true
      else if ltb b.branchlen a.branchlen
      then false
      else leb (status_rank a.status) (status_rank b.status)
    else text_leb a.hash b.hash

pub tip_eq : ChainTip → ChainTip → Bool
tip_eq a b =
    (a.height == b.height)
    && (str_eq a.hash b.hash
        && ((a.branchlen == b.branchlen) && (status_rank a.status == status_rank b.status)))

-- `last_tips == tips`
pub tips_eq : List ChainTip → List ChainTip → Bool
tips_eq [] [] = true
tips_eq [] (b ∷ bs) = false
tips_eq (a ∷ rest) [] = false
tips_eq (a ∷ rest) (b ∷ bs) = tip_eq a b && tips_eq rest bs

pub insert_tip : ChainTip → List ChainTip → List ChainTip
insert_tip tip [] = tip ∷ []
insert_tip tip (t ∷ tips) = if tip_leb tip t then tip ∷ t ∷ tips else t ∷ insert_tip tip tips

-- `tips.sort()`
pub sort_tips : List ChainTip → List ChainTip
sort_tips [] = []
sort_tips (tip ∷ tips) = insert_tip tip (sort_tips tips)
