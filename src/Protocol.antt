-- ===== src/Protocol.antt =====
-- protocol.go: the constants and the data types of the signaling protocol.
pub mod Clock
pub mod Ident
pub mod Encode
pub mod Decode
use o_camera_agent.Common.{ℕ, Bool, List, Option}
use o_camera_agent.Common.Int.{ℤ, pos}
use o_camera_agent.Common.Text.{Bytes, codes}
use o_camera_agent.Json.{Value}

abbrev pub protocol_version : ℤ
protocol_version = pos 1

abbrev pub agent_name : Bytes
agent_name = codes "ocamera-go"

abbrev pub agent_version : Bytes
agent_version = codes "1.0.0"

-- The type of a message, as its text.
abbrev pub type_offer : Bytes
type_offer = codes "offer"

abbrev pub type_answer : Bytes
type_answer = codes "answer"

abbrev pub type_ice : Bytes
type_ice = codes "ice"

abbrev pub type_bye : Bytes
type_bye = codes "bye"

abbrev pub type_error : Bytes
type_error = codes "error"

abbrev pub type_cmd : Bytes
type_cmd = codes "cmd"

abbrev pub type_res : Bytes
type_res = codes "res"

pub data ErrorCode : Type 0 where
  busy bad_request unsupported_codec source_unavailable stale internal unsupported : ErrorCode

abbrev pub error_text : ErrorCode → Bytes
error_text busy = codes "busy"
error_text bad_request = codes "bad_request"
error_text unsupported_codec = codes "unsupported_codec"
error_text source_unavailable = codes "source_unavailable"
error_text stale = codes "stale"
error_text internal = codes "internal"
error_text unsupported = codes "unsupported"

pub data ByeReason : Type 0 where
  user timeout ice_failed source_lost shutdown : ByeReason

abbrev pub bye_text : ByeReason → Bytes
bye_text user = codes "user"
bye_text timeout = codes "timeout"
bye_text ice_failed = codes "ice_failed"
bye_text source_lost = codes "source_lost"
bye_text shutdown = codes "shutdown"

-- `Data json.RawMessage`: `none` is the empty message.
pub record Envelope : Type 0 where
  pub v : ℤ
  pub ts : ℤ
  pub sid : Bytes
  pub type : Bytes
  pub raw : Option Value

-- The anonymous struct behind `Want`.
pub record Want : Type 0 where
  pub stream : Bytes
  pub audio : Option Bool

pub record OfferData : Type 0 where
  pub sdp : Bytes
  pub want : Option Want

pub record IceCandidate : Type 0 where
  pub candidate : Bytes
  pub sdp_mid : Option Bytes
  pub sdp_mline_index : Option ℕ

pub record IceData : Type 0 where
  pub candidates : List IceCandidate
  pub final : Bool  -- the field `End`

pub record CmdData : Type 0 where
  pub id : Bytes
  pub name : Bytes

-- What the agent sends: AnswerData, ICEData, ByeData, ErrorData (a code, a message, retryable) and
-- ResData with its ResError (an id, ok, a code, a message).
pub data Data : Type 0 where
  answer_data : Bytes → Data
  ice_data : IceData → Data
  bye_data : ByeReason → Data
  error_data : ErrorCode → Bytes → Bool → Data
  res_data : Bytes → Bool → ErrorCode → Bytes → Data

pub record StateCaps : Type 0 where
  pub video : List Bytes
  pub audio : List Bytes
  pub streams : List Bytes
  pub cmds : List Bytes

pub record StateInfo : Type 0 where
  pub name : Bytes
  pub version : Bytes

pub record State : Type 0 where
  pub v : ℤ
  pub ts : ℤ
  pub name : Bytes
  pub online : Bool
  pub busy : Bool
  pub viewer : Option Bytes
  pub kind : Bytes
  pub caps : Option StateCaps
  pub agent : Option StateInfo
