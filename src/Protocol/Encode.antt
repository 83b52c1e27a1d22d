-- ===== src/Protocol/Encode.antt =====
-- json.Marshal on the protocol's types, by the tags of their fields. Its result is an `Option`, since
-- the program handles an error; it has none on these types.
use o_camera_agent.Common.{ℕ, List, [], ◌∷◌, Option, none, some}
use o_camera_agent.Common.Int.{pos}
use o_camera_agent.Common.Text.{Bytes, codes}
use o_camera_agent.Json.{
  Value, null, bool, int, str, arr, obj, Items, nil, cons, Fields, end, field, strings,
}
use o_camera_agent.Protocol.{
  Envelope, IceCandidate, Data, answer_data, ice_data, bye_data, error_data, res_data, State,
  StateCaps, StateInfo, error_text, bye_text,
}

abbrev or_null : Option Bytes → Value
or_null none = null
or_null (some s) = str s

-- A field with `omitempty`.
unfoldable pub string_omitempty : Bytes → Bytes → Fields → Fields
string_omitempty k [] fs = fs
string_omitempty k (c ∷ s) fs = field k (str (c ∷ s)) fs

unfoldable pub raw_omitempty : Bytes → Option Value → Fields → Fields
raw_omitempty k none fs = fs
raw_omitempty k (some r) fs = field k r fs

abbrev index_or_null : Option ℕ → Value
index_or_null none = null
index_or_null (some n) = int (pos n)

unfoldable pub candidate_value : IceCandidate → Value
candidate_value c = obj (
    field (codes "candidate") (str c.candidate) (
      field (codes "sdpMid") (or_null c.sdp_mid)
        (field (codes "sdpMLineIndex") (index_or_null c.sdp_mline_index) end)))

unfoldable pub candidate_values : List IceCandidate → Items
candidate_values [] = nil
candidate_values (c ∷ cs) = cons (candidate_value c) (candidate_values cs)

unfoldable pub data_value : Data → Value
unfolding string_omitempty
data_value (answer_data sdp) = (obj (field (codes "sdp") (str sdp) end))
data_value (ice_data d) =
    (obj (
      field (codes "candidates") (arr (candidate_values d.candidates))
        (field (codes "end") (bool d.final) end)))
data_value (bye_data reason) = (obj (string_omitempty (codes "reason") (bye_text reason) end))
data_value (error_data code message retryable) =
    (obj (
      field (codes "code") (str (error_text code)) (
        string_omitempty (codes "message") message
          (field (codes "retryable") (bool retryable) end))))
data_value (res_data id ok code message) =
    (obj (
      field (codes "id") (str id) (
        field (codes "ok") (bool ok) (
          field (codes "error")
            (obj (
              field (codes "code") (str (error_text code))
                (string_omitempty (codes "message") message end)))
            end))))

unfoldable pub envelope_value : Envelope → Value
unfolding string_omitempty raw_omitempty
envelope_value e =
    (obj (
      field (codes "v") (int e.v) (
        field (codes "ts") (int e.ts) (
          string_omitempty (codes "sid") e.sid
            (field (codes "type") (str e.type) (raw_omitempty (codes "data") e.raw end))))))

unfoldable pub caps_omitempty : Option StateCaps → Fields → Fields
caps_omitempty none fs = fs
caps_omitempty (some c) fs =
    field (codes "caps")
      (obj (
        field (codes "video") (arr (strings c.video)) (
          field (codes "audio") (arr (strings c.audio)) (
            field (codes "streams") (arr (strings c.streams))
              (field (codes "cmds") (arr (strings c.cmds)) end)))))
      fs

unfoldable pub info_omitempty : Option StateInfo → Fields → Fields
info_omitempty none fs = fs
info_omitempty (some i) fs =
    field (codes "agent")
      (obj (field (codes "name") (str i.name) (field (codes "version") (str i.version) end))) fs

unfoldable pub state_value : State → Value
unfolding caps_omitempty info_omitempty
state_value s =
    (obj (
      field (codes "v") (int s.v) (
        field (codes "ts") (int s.ts) (
          field (codes "name") (str s.name) (
            field (codes "online") (bool s.online) (
              field (codes "busy") (bool s.busy) (
                field (codes "viewer") (or_null s.viewer) (
                  field (codes "kind") (str s.kind)
                    (caps_omitempty s.caps (info_omitempty s.agent end))))))))))

abbrev pub marshal_data : Data → Option Value
marshal_data d = some (data_value d)

abbrev pub marshal_envelope : Envelope → Option Value
marshal_envelope e = some (envelope_value e)

abbrev pub marshal_state : State → Option Value
marshal_state s = some (state_value s)
