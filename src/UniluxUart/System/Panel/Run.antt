-- ===== src/UniluxUart/System/Panel/Run.antt =====
-- esphome/components/unilux_uart/unilux_uart.cpp: through calls, reports and rebroadcasts the number
-- entities show the scalar settings of the device.
use unilux_uart.Common.{◌≡◌, refl, some, Option, List, [], ◌∷◌, All, ◌>>=◌}
use unilux_uart.Float.{Float}
use unilux_uart.Aup.{IsIdle}
use unilux_uart.Messages.RoundTrip.{IsOnWire}
use unilux_uart.UniluxUart.Component.{Component}
use unilux_uart.UniluxUart.System.{
  Action, control_climate, control_number, control_select, report, sync, respond,
}
use unilux_uart.UniluxUart.System.Panel.{Panel, Shows, AreWired}
use unilux_uart.UniluxUart.System.Panel.Numbers.{after}
use unilux_uart.UniluxUart.System.Panel.Calls.{control-AreWired, control-Shows}
use unilux_uart.UniluxUart.System.Panel.Others.{after-control_select}
use unilux_uart.UniluxUart.System.Panel.Steps.{
  report_setting, Keeps, Good-same, control_climate-Keeps, sync-Keeps, report-Keeps,
}

-- The component and the settings of the device through actions, of each of which the device gets what
-- the component then sends
unfoldable pub run_settings :
    {Name : Type 0}
    → (Float → Float → Float)
    → List (Action Name)
    → Component Name
    → Panel
    → Option (Component Name × Panel)
run_settings published [] c p = some (c, p)
run_settings {Name} published (a ∷ actions) c p = do
  (c1, es) ← respond published a c
  run_settings published actions c1 (after Name es (report_setting a p))

-- A report that the wire carries
abbrev pub ReportFits : {Name : Type 0} → Action Name → Type 0
ReportFits (report m) = IsOnWire m
ReportFits _ = Unit

module _ (Name : Type 0) (published : Float → Float → Float)
    (law : (old value : Float) → published old value ≡ value) where
  respond-Keeps :
      (a : Action Name) (c : Component Name) (p : Panel)
      → ReportFits a
      → IsIdle c.decoder
      → AreWired c.numbers × All (Shows p) c.numbers
      → Keeps Name published law a c p
  unfolding respond
  respond-Keeps (control_climate call) c p fine idle h =
      control_climate-Keeps Name published law call c p idle h
  respond-Keeps (control_number k v) c p fine idle (wired, h) = (
    _,
    _,
    refl,
    idle,
    (
      control-AreWired Name published law k v c.numbers wired,
      control-Shows Name published law k v c.numbers p wired h,
    ),
  )
  respond-Keeps (control_select k name) c p fine idle h = (
    _,
    _,
    refl,
    idle,
    Good-same Name published law p _ c.numbers c.numbers
        (after-control_select Name published k name c.selects p) refl h,
  )
  respond-Keeps (report m) c p fine idle h = report-Keeps Name published law m c p fine idle h
  respond-Keeps sync c p fine idle h = sync-Keeps Name published law c p idle h

-- If ESPHome's `Number::publish_state` stores what it is given, then through any sequence of calls from
-- Home Assistant, reports of the device that the wire carries, and rebroadcasts, each number entity
-- shows the setting of the device with its id, or no number yet, if that is so at the start. The
-- entities are connected, have different ids of scalar settings, and the decoder waits for a frame. The
-- device gets the messages that the component's calls stand for.
pub run_settings-Shows :
    (Name : Type 0) (published : Float → Float → Float)
    → ((old value : Float) → published old value ≡ value)
    → (actions : List (Action Name)) (c : Component Name) (p : Panel) → All ReportFits actions
    → IsIdle c.decoder
    → AreWired c.numbers
    → All (Shows p) c.numbers
    → (c1 : Component Name) × (p1 : Panel) × (run_settings published actions c p ≡ some (c1, p1))
      × AreWired c1.numbers
      × All (Shows p1) c1.numbers
unfolding run_settings
run_settings-Shows Name published law [] c p fine idle wired h = (c, p, refl, wired, h)
run_settings-Shows Name published law (a ∷ actions) c p (fine, fines) idle wired h =
    let (c1, es, responded, idle1, (wired1, h1)) =
      respond-Keeps Name published law a c p fine idle (wired, h) in
    let (c2, p2, ran, wired2, h2) =
      run_settings-Shows Name published law actions c1 (after Name es (report_setting a p)) fines
        idle1 wired1 h1 in
    (c2, p2, rw responded ran, wired2, h2)
