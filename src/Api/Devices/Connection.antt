-- ===== src/Api/Devices/Connection.antt =====
-- internal/api/devices.go: trying a connection (testDeviceConnection). Dialing and the time that it takes
-- are parameters.
use quantix_cnnector_go.Prelude.{
  ℕ, ◌*◌, ◌≡◌, refl, Bool, true, false, Bool-cases, ◌||◌, not, Option, none, some, ◌++◌,
  if◌then◌else◌, ◌⊎◌, inl, inr, arith,
}
use quantix_cnnector_go.Prelude.Int.{ℤ, pos, negsuc, leb_ℤ, ltb_ℤ, ◌≤ℤ◌, bits_of_int, int_of_bits}
use quantix_cnnector_go.Prelude.Text.{
  Bytes, codes, utf8, eq_bytes, trim_space, to_lower, contains, show_int,
}
use quantix_cnnector_go.Value.{
  Value, null, bool, int, int32, int64, uint, uint32, uint64, float32, float64, float_ptr, number,
  string, bytes, ints, bools, items, object, Fields, end, field, Libs, Float, Error,
}
use quantix_cnnector_go.Value.Maps.{get}
use quantix_cnnector_go.Value.Sprint.{sprint}
use quantix_cnnector_go.Config.Mappings.{is_empty}
use quantix_cnnector_go.Api.{Response, detail, answer}
use quantix_cnnector_go.Api.Codes.{port_of, port_from, parse_port, default_port_for_protocol}
use quantix_cnnector_go.Api.Devices.{no_template}

pub record ConnectionTest : Type 0 where
  pub connection_params : Fields
  pub timeout_ms : ℤ

abbrev millisecond : ℕ
millisecond = 1000000

-- The timeout in nanoseconds: the product wraps around.
unfoldable pub timeout_of : ℤ → ℤ
timeout_of ms =
    let t = int_of_bits (bits_of_int ms * 1000000) in
    if leb_ℤ t (pos 0)
    then pos 1500000000
    else if ltb_ℤ (pos 15000000000) t
    then pos 15000000000
    else t

-- What is to be dialed: a host, a port and a timeout.
pub record Target : Type 0 where
  pub host : Bytes
  pub port : ℤ
  pub timeout : ℤ

abbrev pub is_serial : Bytes → Bool
is_serial t = eq_bytes t (codes "serial") || eq_bytes t (codes "modbus_rtu")

abbrev pub is_network : Bytes → Bool
is_network t =
    eq_bytes t (codes "modbus_tcp")
    || eq_bytes t (codes "tcp")
    || eq_bytes t (codes "mqtt")
    || eq_bytes t (codes "modbus")

abbrev with_port : Bytes → ℤ → ℤ × Bool → Response ⊎ Target
with_port host ms (n, true) = inr (record { host = host; port = n; timeout = timeout_of ms })
with_port host ms (n, false) = inl (detail 400 (codes "connection_params.port is invalid"))

-- The checks of the handler, on the protocol of a template.
unfoldable pub target_of : Libs → Bytes → ConnectionTest → Response ⊎ Target
unfolding timeout_of
target_of lib protocol req =
    let t = to_lower (trim_space protocol) in
    let host = trim_space (sprint lib (get req.connection_params (codes "host"))) in
    if is_serial t
    then inl (detail 400 (utf8 "串口类型请使用“串口调试”页面进行连接测试"))
    else if not (is_network t)
    then inl (detail 400 (utf8 "不支持该协议类型的连接测试: " ++ t))
    else if is_empty host
    then inl (detail 400 (codes "connection_params.host is required"))
    else with_port host req.timeout_ms
        (parse_port lib (get req.connection_params (codes "port")) (default_port_for_protocol t))

-- net.JoinHostPort
abbrev endpoint_of : Target → Bytes
endpoint_of x =
    (if contains (codes ":") x.host then codes "[" ++ x.host ++ codes "]" else x.host)
    ++ codes ":"
    ++ show_int x.port

module _ (lib : Libs) (dial : Bytes → ℤ → Option Error) (elapsed : Float) where
  abbrev measured : Bytes → Bytes → Fields
  measured t endpoint = field (codes "protocol_type") (string t) (
      field (codes "endpoint") (string endpoint) (field (codes "elapsed_ms") (float64 elapsed) end))

  abbrev dialed : Bytes → Target → Option Error → Response
  dialed t x none = answer (field (codes "ok") (bool true) (measured t (endpoint_of x)))
  dialed t x (some e) = record {
    status = 400;
    body =
        object
          (field (codes "detail") (string (utf8 "连接失败: " ++ e.text)) (measured t (endpoint_of x)));
  }

  abbrev tried : Bytes → Response ⊎ Target → Response
  tried t (inl r) = r
  tried t (inr x) = dialed t x (dial (endpoint_of x) x.timeout)

  -- `protocol` is that of the template, if the database has it.
  unfoldable pub test_device_connection : Option Bytes → Error ⊎ ConnectionTest → Response
  unfolding target_of
  test_device_connection protocol (inl e) = detail 400 e.text
  test_device_connection none (inr req) = no_template
  test_device_connection (some protocol) (inr req) =
      tried (to_lower (trim_space protocol)) (target_of lib protocol req)

-- A port of TCP, a timeout between a nanosecond and 15 seconds, and a host.
pub record IsTarget (x : Target) : Type 0 where
  pub low : pos 1 ≤ℤ x.port
  pub high : x.port ≤ℤ pos 65535
  pub waits : pos 1 ≤ℤ x.timeout
  pub bounded : x.timeout ≤ℤ pos 15000000000
  pub named : is_empty x.host ≡ false

abbrev IsPort : ℤ → Type 0
IsPort n = (pos 1 ≤ℤ n) × (n ≤ℤ pos 65535)

port_of-IsPort : (n : ℤ) → (port_of n).1 ≡ true → IsPort n
port_of-IsPort (pos n) h = (ground (arith, h), ground (arith, h))
port_of-IsPort (negsuc n) h = (ground (arith, h), ground (arith, h))

refused : (n : ℤ) → false ≡ true → IsPort n
refused n h = absurd (distinct h)
  where
    distinct : false ≡ true → ⊥
    distinct p = cc

port_from-IsPort :
    (lib : Libs) (n : Option ℤ) (f : Option Float)
    → (port_from lib n f).1 ≡ true
    → IsPort (port_from lib n f).0
port_from-IsPort lib (some n) f h = port_of-IsPort n h
port_from-IsPort lib none (some f) h = port_of-IsPort (lib.int_of_float f) h
port_from-IsPort lib none none h = refused (pos 0) h

either-IsPort :
    (b : Bool) (x y : ℤ × Bool)
    → (x.1 ≡ true → IsPort x.0)
    → (y.1 ≡ true → IsPort y.0)
    → (if b then x else y).1 ≡ true
    → IsPort (if b then x else y).0
either-IsPort true x y h k e = h e
either-IsPort false x y h k e = k e

parse_port-IsPort :
    (lib : Libs) (v : Value) (fallback : ℤ)
    → IsPort fallback
    → (parse_port lib v fallback).1 ≡ true
    → IsPort (parse_port lib v fallback).0
unfolding parse_port
parse_port-IsPort lib null fallback p h = p
parse_port-IsPort lib (bool b) fallback p h = refused (pos 0) h
parse_port-IsPort lib (int n) fallback p h = port_of-IsPort n h
parse_port-IsPort lib (int32 n) fallback p h = port_of-IsPort n h
parse_port-IsPort lib (int64 n) fallback p h = port_of-IsPort n h
parse_port-IsPort lib (uint n) fallback p h = port_of-IsPort (int_of_bits n) h
parse_port-IsPort lib (uint32 n) fallback p h = port_of-IsPort (int_of_bits n) h
parse_port-IsPort lib (uint64 n) fallback p h = port_of-IsPort (int_of_bits n) h
parse_port-IsPort lib (float32 f) fallback p h = port_of-IsPort (lib.int_of_float (lib.widen f)) h
parse_port-IsPort lib (float64 f) fallback p h = port_of-IsPort (lib.int_of_float f) h
parse_port-IsPort lib (float_ptr f) fallback p h = refused (pos 0) h
parse_port-IsPort lib (number s) fallback p h =
    port_from-IsPort lib (lib.atoi s) (lib.parse_float s) h
parse_port-IsPort lib (string t) fallback p h =
    either-IsPort (is_empty (trim_space t)) (fallback, true)
      (port_from lib (lib.atoi (trim_space t)) (lib.parse_float (trim_space t))) (λ q. p)
      (λ q. port_from-IsPort lib (lib.atoi (trim_space t)) (lib.parse_float (trim_space t)) q) h
parse_port-IsPort lib (bytes b) fallback p h = refused (pos 0) h
parse_port-IsPort lib (ints n) fallback p h = refused (pos 0) h
parse_port-IsPort lib (bools b) fallback p h = refused (pos 0) h
parse_port-IsPort lib (items xs) fallback p h = refused (pos 0) h
parse_port-IsPort lib (object m) fallback p h = refused (pos 0) h

default_port-IsPort : (t : Bytes) → IsPort (default_port_for_protocol t)
unfolding default_port_for_protocol
default_port-IsPort t = elim (Bool-cases (eq_bytes (to_lower (trim_space t)) (codes "mqtt"))) [
  | inl e ↦ rw e (omega arith, omega arith)
  | inr e ↦ rw e (omega arith, omega arith)
]

clamped :
    (t : ℤ)
    → let c =
        if leb_ℤ t (pos 0)
        then pos 1500000000
        else if ltb_ℤ (pos 15000000000) t
        then pos 15000000000
        else t in
      (pos 1 ≤ℤ c) × (c ≤ℤ pos 15000000000)
clamped (pos n) = (ground arith, ground arith)
clamped (negsuc n) = (ground arith, ground arith)

abbrev pub AllTargets : Response ⊎ Target → Type 0
AllTargets (inl r) = Unit {0}
AllTargets (inr x) = IsTarget x

with_port-AllTargets :
    (host : Bytes) (ms : ℤ) (p : ℤ × Bool)
    → is_empty host ≡ false
    → (p.1 ≡ true → IsPort p.0)
    → AllTargets (with_port host ms p)
unfolding timeout_of
with_port-AllTargets host ms (n, true) h k =
    let port = k refl in
    let time = clamped (int_of_bits (bits_of_int ms * 1000000)) in
    record { low = port.0; high = port.1; waits = time.0; bounded = time.1; named = h }
with_port-AllTargets host ms (n, false) h k = tt

either-AllTargets :
    (b : Bool) (x y : Response ⊎ Target)
    → AllTargets x
    → (b ≡ false → AllTargets y)
    → AllTargets (if b then x else y)
either-AllTargets true x y h k = h
either-AllTargets false x y h k = k refl

-- A request to try a connection dials at most a host that is not empty, a port between 1 and 65535, and for
-- a time that is positive and at most 15 seconds, whatever types the parameters have and however
-- large the timeout is: everything else is refused.
pub target_of-AllTargets :
    (lib : Libs) (protocol : Bytes) (req : ConnectionTest) → AllTargets (target_of lib protocol req)
unfolding target_of
target_of-AllTargets lib protocol req =
    let t : Bytes = to_lower (trim_space protocol) in
    let host : Bytes = trim_space (sprint lib (get req.connection_params (codes "host"))) in
    let port : Value = get req.connection_params (codes "port") in
    either-AllTargets (is_serial t) _ _ tt (λ a. either-AllTargets (not (is_network t)) _ _ tt (λ b.
      either-AllTargets (is_empty host) _ _ tt (λ c.
        with_port-AllTargets host req.timeout_ms (parse_port lib port (default_port_for_protocol t))
          c
          (λ e.
            parse_port-IsPort lib port (default_port_for_protocol t) (default_port-IsPort t) e))))
