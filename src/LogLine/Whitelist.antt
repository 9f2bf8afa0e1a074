-- ===== src/LogLine/Whitelist.antt =====
-- The module whitelist: `Module`, `module_name` and `lookup_module` of LogLine.h and LogLine.cpp.
use Prim.Native.String.{String}
use assignment_logger_analyz.Prelude.{
  ℕ, ◌≡◌, ◌↔◌, refl, ◌==◌, if◌then◌else◌, Bool, true, ◌&&◌, Option, none, some, Bytes, codes, equal,
  equal_iff, length, get_or, arith,
}

pub data Module : Type 0 where
  radar_track_node_state antenna_profile_spec sector_scheduler_rts : Module
  detection_task_runner beam_steer_ctrl_unit_impl : Module

-- static_cast<std::size_t>(Module)
unfoldable pub module_index : Module → ℕ
module_index radar_track_node_state = 0
module_index antenna_profile_spec = 1
module_index sector_scheduler_rts = 2
module_index detection_task_runner = 3
module_index beam_steer_ctrl_unit_impl = 4

unfoldable pub module_name : Module → String
module_name radar_track_node_state = "RadarTrackNodeState"
module_name antenna_profile_spec = "AntennaProfileSpec"
module_name sector_scheduler_rts = "SectorSchedulerRTS"
module_name detection_task_runner = "DetectionTaskRunner"
module_name beam_steer_ctrl_unit_impl = "BeamSteerCtrlUnitImpl"

-- `name[0] == initial && memcmp(name, text, size) == 0`, at a name of that size.
abbrev matches : ℕ → String → Bytes → Bool
matches initial text name = get_or name 0 0 == initial && equal name (codes text)

unfoldable pub lookup_module : Bytes → Option Module
lookup_module name =
    if length name == 18
    then if matches b'A' "AntennaProfileSpec" name
      then some antenna_profile_spec
      else if matches b'S' "SectorSchedulerRTS" name
      then some sector_scheduler_rts
      else none
    else if length name == 19
    then if matches b'R' "RadarTrackNodeState" name
      then some radar_track_node_state
      else if matches b'D' "DetectionTaskRunner" name
      then some detection_task_runner
      else none
    else if length name == 21
    then if matches b'B' "BeamSteerCtrlUnitImpl" name then some beam_steer_ctrl_unit_impl else none
    else none

lookup-module_name : (m : Module) → lookup_module (codes (module_name m)) ≡ some m
unfolding lookup_module module_name equal
lookup-module_name radar_track_node_state = refl
lookup-module_name antenna_profile_spec = refl
lookup-module_name sector_scheduler_rts = refl
lookup-module_name detection_task_runner = refl
lookup-module_name beam_steer_ctrl_unit_impl = refl

equal-name_of_lookup :
    (name : Bytes) (m : Module)
    → lookup_module name ≡ some m
    → equal name (codes (module_name m)) ≡ true
unfolding lookup_module module_name
equal-name_of_lookup name radar_track_node_state h = ground arith
equal-name_of_lookup name antenna_profile_spec h = ground arith
equal-name_of_lookup name sector_scheduler_rts h = ground arith
equal-name_of_lookup name detection_task_runner h = ground arith
equal-name_of_lookup name beam_steer_ctrl_unit_impl h = ground arith

-- The whitelist is exact: a name is looked up to a module just if it is that module's name.
pub lookup_module_iff :
    (name : Bytes) (m : Module) → (lookup_module name ≡ some m) ↔ (name ≡ codes (module_name m))
lookup_module_iff name m =
    ((λ h. (equal_iff name _).0 (equal-name_of_lookup name m h)), λ e. rw e (lookup-module_name m))
