-- ===== src/Pages/Badges.antt =====
-- `StatusBadge` (web/src/pages/nodes.tsx) and `ConnectionBadge` (web/src/pages/peers.tsx).
use karadul.Base.{Option, none, some, Text, codes}
use karadul.Store.{
  NodeStatus, online, offline, pending, PeerState, discovered, connecting, direct, relayed, idle,
  expired,
}
use karadul.Csv.{status_text, state_text}

pub data Variant : Type 0 where
  default secondary outline destructive : Variant

-- A badge with its picture, if it has one, and its text.
pub record Badge : Type 0 where
  pub variant : Variant
  pub icon : Option Text
  pub text : Text

abbrev status_variant : NodeStatus → Variant
status_variant online = default
status_variant offline = secondary
status_variant pending = outline

abbrev status_icon : NodeStatus → Option Text
status_icon online = some (codes "Power")
status_icon offline = some (codes "PowerOff")
status_icon pending = none

abbrev pub status_badge : NodeStatus → Badge
status_badge status = record {
  variant = status_variant status;
  icon = status_icon status;
  text = status_text status;
}

abbrev connection_variant : PeerState → Variant
connection_variant direct = default
connection_variant relayed = secondary
connection_variant connecting = outline
connection_variant discovered = outline
connection_variant idle = secondary
connection_variant expired = destructive

abbrev connection_icon : PeerState → Option Text
connection_icon direct = some (codes "Zap")
connection_icon relayed = some (codes "Router")
connection_icon connecting = some (codes "Activity")
connection_icon discovered = none
connection_icon idle = none
connection_icon expired = some (codes "ZapOff")

abbrev pub connection_badge : PeerState → Badge
connection_badge state = record {
  variant = connection_variant state;
  icon = connection_icon state;
  text = state_text state;
}
