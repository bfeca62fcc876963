-- ===== src/Access/Control.antt =====
-- src/gvs_access.c: the control that owns the result and the sender, with its configured material.
pub mod Material
use Prim.Native.Nat.{bit_or}
use doorfast.Prelude.{
  ℕ, suc, ◌+◌, ◌-◌, ◌*◌, ◌%◌, Bool, true, false, ◌&&◌, ◌||◌, not, Option, none, some, List, [], ◌∷◌,
  leb, ◌==◌, if◌then◌else◌, length, get_or, Status, ok, err_invalid, is_ok, Bytes, Block,
  zero_block, Address,
}
use doorfast.Session.{Session}
use doorfast.Access.{
  AccessRequest, AccessResult, send_failed, prepare_direct, result_init, result_begin, result_tick,
}

-- `struct df_gvs_access_control`; the sender is `none` for a null pointer.
pub record AccessControl : Type 0 where
  pub result : AccessResult
  pub configured : Bool
  pub material : Block
  pub attempted_generation : ℕ
  pub send : Option (AccessRequest → Status)

-- A character of "0123456789abcdefABCDEF".
abbrev pub is_hex : ℕ → Bool
is_hex c = (leb b'0' c && leb c b'9') || ((leb b'a' c && leb c b'f') || (leb b'A' c && leb c b'F'))

-- `strspn(text, "0123456789abcdefABCDEF")`
unfoldable pub hex_span : Bytes → ℕ
hex_span [] = 0
hex_span (c ∷ text) = let rest = hex_span text in if is_hex c then suc rest else 0

abbrev pub hex_value : ℕ → ℕ
hex_value c = if leb c b'9' then c - b'0' else bit_or c 32 - b'a' + 10

-- The two rounds of the loop that `|=` one byte of the zeroed material.
unfoldable pub hex_byte : ℕ → ℕ → ℕ
hex_byte high low = bit_or (bit_or 0 (hex_value high * 16 % 256)) (hex_value low % 256)

unfoldable pub hex_block : Bytes → Block
unfolding hex_byte
hex_block t = record {
  c0 = hex_byte (get_or t 0 0) (get_or t 1 0);
  c1 = hex_byte (get_or t 2 0) (get_or t 3 0);
  c2 = hex_byte (get_or t 4 0) (get_or t 5 0);
  c3 = hex_byte (get_or t 6 0) (get_or t 7 0);
  c4 = hex_byte (get_or t 8 0) (get_or t 9 0);
  c5 = hex_byte (get_or t 10 0) (get_or t 11 0);
  c6 = hex_byte (get_or t 12 0) (get_or t 13 0);
  c7 = hex_byte (get_or t 14 0) (get_or t 15 0);
}

abbrev unconfigured : ℕ → Option (AccessRequest → Status) → AccessControl
unconfigured now_ms send = record {
  result = result_init now_ms;
  configured = false;
  material = zero_block;
  attempted_generation = 0;
  send = send;
}

-- `df_gvs_access_control_init`; the text is held up to its terminating zero, `none` is a null pointer.
unfoldable pub control_init :
    Option Bytes → ℕ → Option (AccessRequest → Status) → Status × AccessControl
unfolding hex_span hex_block
control_init none now_ms send = (ok, unconfigured now_ms send)
control_init (some []) now_ms send = (ok, unconfigured now_ms send)
control_init (some (c ∷ text)) now_ms send =
    if not (length (c ∷ text) == 16) || not (hex_span (c ∷ text) == 16)
    then (err_invalid, unconfigured now_ms send)
    else (
      ok,
      record (unconfigured now_ms send) { material = hex_block (c ∷ text); configured = true },
    )

-- What follows the call of the sender with its status.
unfoldable pub after_send : AccessControl → ℕ → AccessResult → Status → AccessControl
after_send c generation next status =
    if is_ok status
    then record c { attempted_generation = generation; result = next }
    else record c {
      attempted_generation = generation;
      result = record next { state = send_failed; deadline_ms = 0 };
    }

-- The request is prepared, and the result ticked and begun, before the sender is called.
unfoldable pub try_send :
    AccessControl
    → ℕ
    → AccessRequest
    → (AccessRequest → Status)
    → Status × AccessResult
    → Status × AccessControl × List AccessRequest
unfolding after_send
try_send c generation request send (begun, next) =
    if is_ok begun
    then (send request, after_send c generation next (send request), request ∷ [])
    else (err_invalid, c, [])

unfoldable pub begin_send :
    AccessControl
    → Session
    → ℕ
    → Address
    → ℕ
    → Option (AccessRequest → Status)
    → Option AccessRequest
    → Status × AccessControl × List AccessRequest
unfolding try_send
begin_send c s generation local now_ms none request = (err_invalid, c, [])
begin_send c s generation local now_ms (some send) none = (err_invalid, c, [])
begin_send c s generation local now_ms (some send) (some request) =
    let (ticked, next) = result_tick c.result s local now_ms in
    if is_ok ticked
    then try_send c generation request send (result_begin next s generation local now_ms 1000)
    else (err_invalid, c, [])

-- `df_gvs_access_control_submit_material`
unfoldable pub control_submit_material :
    AccessControl → Session → ℕ → Address → Block → ℕ → Status × AccessControl × List AccessRequest
unfolding begin_send
control_submit_material c s generation local material now_ms =
    if generation == c.attempted_generation
    then (err_invalid, c, [])
    else begin_send c s generation local now_ms c.send (prepare_direct s generation local material)

-- `df_gvs_access_control_submit`
unfoldable pub control_submit :
    AccessControl → Session → ℕ → Address → ℕ → Status × AccessControl × List AccessRequest
unfolding control_submit_material
control_submit c s generation local now_ms =
    if not c.configured
    then (err_invalid, c, [])
    else control_submit_material c s generation local c.material now_ms
