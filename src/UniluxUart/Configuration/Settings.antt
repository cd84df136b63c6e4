-- ===== src/UniluxUart/Configuration/Settings.antt =====
-- esphome/components/unilux_uart/: the number entities of a configured component show the settings of the
-- device.
use unilux_uart.Common.{◌≡◌, ◌≢◌, true, List, [], ◌∷◌, All}
use unilux_uart.Float.{Float}
use unilux_uart.Aup
use unilux_uart.UniluxUart.Component.{Component}
use unilux_uart.UniluxUart.System.Panel.{Panel, is_scalar}
use unilux_uart.UniluxUart.Configuration.{NumberSetting}
use Prim.Native.String.{String}

-- Settings with different ids of scalar settings
abbrev AreDistinct : List NumberSetting → Type 0
AreDistinct [] = Unit
AreDistinct (s ∷ ss) =
    (is_scalar s.msg_id ≡ true)
    × All (λ (r : NumberSetting). r.msg_id ≢ s.msg_id) ss
    × AreDistinct ss
