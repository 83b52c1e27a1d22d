-- ===== src/Protocol/Decode.antt =====
-- json.Unmarshal into the protocol's types.
use o_camera_agent.Common.{List, [], ◌∷◌, Option, none, some, ◌>>=◌}
use o_camera_agent.Common.Text.{codes}
use o_camera_agent.Json.{
  Value, null, obj, arr, Items, nil, cons, get, string_field, int64_field, bool_field,
  bool_pointer_field, string_pointer_field, uint16_pointer_field, struct_fields,
}
use o_camera_agent.Protocol.{Envelope, Want, OfferData, IceCandidate, IceData, CmdData}

unfoldable pub unmarshal_envelope : Option Value → Option Envelope
unfolding get string_field int64_field struct_fields
unmarshal_envelope payload = do
  fs ← struct_fields payload
  v ← int64_field (get (codes "v") fs)
  ts ← int64_field (get (codes "ts") fs)
  sid ← string_field (get (codes "sid") fs)
  type ← string_field (get (codes "type") fs)
  some (record { v = v; ts = ts; sid = sid; type = type; raw = get (codes "data") fs })

-- A pointer to a struct: `nil` if the field is absent or `null`.
unfoldable pub want_field : Option Value → Option (Option Want)
unfolding get string_field bool_pointer_field
want_field none = some none
want_field (some null) = some none
want_field (some (obj fs)) = do
  stream ← string_field (get (codes "stream") fs)
  audio ← bool_pointer_field (get (codes "audio") fs)
  some (some (record { stream = stream; audio = audio }))
want_field _ = none

unfoldable pub unmarshal_offer : Option Value → Option OfferData
unfolding get string_field want_field struct_fields
unmarshal_offer raw = do
  fs ← struct_fields raw
  sdp ← string_field (get (codes "sdp") fs)
  want ← want_field (get (codes "want") fs)
  some (record { sdp = sdp; want = want })

unfoldable pub unmarshal_candidate : Value → Option IceCandidate
unfolding get string_field string_pointer_field uint16_pointer_field struct_fields
unmarshal_candidate v = do
  fs ← struct_fields (some v)
  candidate ← string_field (get (codes "candidate") fs)
  sdp_mid ← string_pointer_field (get (codes "sdpMid") fs)
  sdp_mline_index ← uint16_pointer_field (get (codes "sdpMLineIndex") fs)
  some (record { candidate = candidate; sdp_mid = sdp_mid; sdp_mline_index = sdp_mline_index })

unfoldable pub unmarshal_candidates : Items → Option (List IceCandidate)
unmarshal_candidates nil = some []
unmarshal_candidates (cons v vs) = do
  c ← unmarshal_candidate v
  cs ← unmarshal_candidates vs
  some (c ∷ cs)

unfoldable pub candidates_field : Option Value → Option (List IceCandidate)
candidates_field none = some []
candidates_field (some null) = some []
candidates_field (some (arr vs)) = unmarshal_candidates vs
candidates_field _ = none

unfoldable pub unmarshal_ice : Option Value → Option IceData
unfolding get bool_field candidates_field struct_fields
unmarshal_ice raw = do
  fs ← struct_fields raw
  candidates ← candidates_field (get (codes "candidates") fs)
  final ← bool_field (get (codes "end") fs)
  some (record { candidates = candidates; final = final })

-- `Args` is read by nobody.
unfoldable pub unmarshal_cmd : Option Value → Option CmdData
unfolding get string_field struct_fields
unmarshal_cmd raw = do
  fs ← struct_fields raw
  id ← string_field (get (codes "id") fs)
  name ← string_field (get (codes "name") fs)
  some (record { id = id; name = name })
