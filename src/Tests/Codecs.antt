-- ===== src/Tests/Codecs.antt =====
-- The description of a stream in the repository's own test, with the response in front of it.
use o_camera_agent.Common.{◌≡◌, refl, List, [], ◌∷◌, ◌++◌}
use o_camera_agent.Common.Text.{
  Bytes, codes, same, has_prefix, to_lower, is_space, is_blank, width, drop_space, trim_space,
}
use o_camera_agent.Common.Split.{split, before, index_byte, fields_in}
use o_camera_agent.Rtsp.Codecs.{
  parse_codecs, scan_lines, scan_line, media_line, media_of, static_codecs, rtpmap_line, codec_name,
  add_codec, flush,
}
use o_camera_agent.Rtsp.Codecs.Sections.{attribute, rtpmap, Section, all_lines, text_of}

abbrev response : List Bytes
response = codes "RTSP/1.0 200 OK" ∷ codes "CSeq: 2" ∷ [] ∷ codes "v=0" ∷ []

abbrev video_section : Section
video_section = record {
  kind = codes "video";
  port = codes "0";
  protocol = codes "RTP/AVP";
  payload_types = codes "96" ∷ [];
  lines =
      attribute (codes "a=control:track1")
      ∷ rtpmap (record { payload_type = codes "96"; codec = codes "H264"; rate = codes "90000" })
      ∷ attribute (codes "a=fmtp:96 packetization-mode=1")
      ∷ [];
}

-- Payload type 0 without an rtpmap line.
abbrev static_section : Section
static_section = record {
  kind = codes "audio";
  port = codes "0";
  protocol = codes "RTP/AVP";
  payload_types = codes "0" ∷ [];
  lines = attribute (codes "a=control:track2") ∷ [];
}

abbrev sections : List Section
sections = video_section ∷ static_section ∷ []

found :
    parse_codecs (text_of (response ++ all_lines sections))
    ≡ record { video = codes "h264" ∷ []; audio = codes "pcmu" ∷ [] }
unfolding parse_codecs scan_lines scan_line media_line media_of static_codecs rtpmap_line codec_name
    add_codec flush same has_prefix to_lower is_space is_blank width drop_space trim_space split
    before index_byte fields_in
found = refl
