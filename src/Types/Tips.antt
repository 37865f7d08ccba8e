-- ===== src/Types/Tips.antt =====
-- Chain tips and the data shown of a node (src/types.rs).
use Prim.Native.String.{String}
use text.Mathlib.Text.{◌==◌}
use reorg_playground.Prelude.{ℕ, ◌≡◌, refl, Bool, List, map, if◌then◌else◌}

pub data ChainTipStatus : Type 0 where
  active invalid valid_fork headers_only valid_headers unknown : ChainTipStatus

-- `From<String>`
unfoldable pub status_of_string : String → ChainTipStatus
status_of_string s =
    if s == "active"
    then active
    else if s == "invalid"
    then invalid
    else if s == "headers-only"
    then headers_only
    else if s == "valid-headers"
    then valid_headers
    else if s == "valid-fork"
    then valid_fork
    else unknown

-- `Display`
unfoldable pub status_to_string : ChainTipStatus → String
status_to_string active = "active"
status_to_string invalid = "invalid"
status_to_string headers_only = "headers-only"
status_to_string valid_headers = "valid-headers"
status_to_string valid_fork = "valid-fork"
status_to_string unknown = "unknown"

pub record ChainTip : Type 0 where
  pub height : ℕ
  pub hash : String
  pub branchlen : ℕ
  pub status : ChainTipStatus

pub record TipInfoJson : Type 0 where
  pub hash : String
  pub status : String
  pub height : ℕ

-- `TipInfoJson::new`
unfoldable pub tip_info_json : ChainTip → TipInfoJson
tip_info_json tip = record {
  hash = tip.hash;
  status = status_to_string tip.status;
  height = tip.height;
}

pub record NodeDataJson : Type 0 where
  pub id : ℕ
  pub name : String
  pub description : String
  pub implementation : String
  pub supports_controls : Bool
  pub supports_mining : Bool
  pub supports_stale_tips : Bool
  pub tips : List TipInfoJson
  pub last_changed_timestamp : ℕ
  pub version : String
  pub reachable : Bool

-- The setters. `now` is the clock in seconds, 0 if it is before the epoch.
unfoldable pub set_reachable : Bool → NodeDataJson → NodeDataJson
set_reachable r node = record node { reachable = r }

unfoldable pub set_version : String → NodeDataJson → NodeDataJson
set_version v node = record node { version = v }

unfoldable pub set_tips : ℕ → List ChainTip → NodeDataJson → NodeDataJson
set_tips now tips node = record node { tips = map tip_info_json tips; last_changed_timestamp = now }

-- A status is read back from its text.
pub status_of_string-status_to_string :
    (s : ChainTipStatus) → status_of_string (status_to_string s) ≡ s
unfolding status_of_string status_to_string
status_of_string-status_to_string active = refl
status_of_string-status_to_string invalid = refl
status_of_string-status_to_string valid_fork = refl
status_of_string-status_to_string headers_only = refl
status_of_string-status_to_string valid_headers = refl
status_of_string-status_to_string unknown = refl
