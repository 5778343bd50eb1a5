-- ===== src/Driver.antt =====
-- internal/driver/driver.go: the interface of the device drivers over a driver's state D. A call takes the
-- state and gives the new one; what the network or the device answers is part of the implementation's
-- parameters.
use quantix_cnnector_go.Prelude.{Bool, ◌||◌, ◌++◌, ◌⊎◌, inl, inr, if◌then◌else◌}
use quantix_cnnector_go.Prelude.Text.{Bytes, codes, eq_bytes, to_lower, trim_space}
use quantix_cnnector_go.Value.{Value, Fields, Result, Error, errorf}

pub record Driver (D : Type 0) : Type 0 where
  pub connect : D → Bool × D
  pub disconnect : D → D
  pub is_connected : D → Bool
  pub execute_action : D → Bytes → Fields → Result Value × D
  pub last_error : D → Bytes

-- internal/driver/builder.go: which driver is built for a protocol.
pub data DriverKind : Type 0 where
  modbus_driver mqtt_driver serial_driver tcp_driver : DriverKind

unfoldable pub build : Bytes → Error ⊎ DriverKind
build protocol_type =
    let t = to_lower (trim_space protocol_type) in
    if eq_bytes t (codes "modbus")
      || eq_bytes t (codes "modbus_tcp")
      || eq_bytes t (codes "modbus_rtu")
    then inr modbus_driver
    else if eq_bytes t (codes "mqtt")
    then inr mqtt_driver
    else if eq_bytes t (codes "serial")
    then inr serial_driver
    else if eq_bytes t (codes "tcp")
    then inr tcp_driver
    else inl (errorf (codes "unsupported protocol_type: " ++ protocol_type))
